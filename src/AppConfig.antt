-- ===== src/AppConfig.antt =====
-- internal/config/config.go: the application's configuration.
--
-- Durations are nanoseconds. The file system, the environment, `yaml.Unmarshal`, `url.Parse`,
-- `time.ParseDuration`, `netip.ParsePrefix` and `netip.ParseAddr` are arguments.
pub mod Checks
pub mod Redact
use subconverter_ng.Common.{
  ℕ, ◌-◌, ◌%◌, ◌^◌, Bool, true, false, not, ◌&&◌, ◌||◌, Option, none, some, List, [], ◌∷◌, Text,
  codes, same, has, ltb, if◌then◌else◌, ℤ, pos, negsuc, map, keep_if,
}
use subconverter_ng.Ssrf.{
  Addr, invalid, v4, v6, Prefix, unmap, contains, is_loopback, is_private, is_link_local_unicast,
  is_link_local_multicast, is_interface_local_multicast, is_multicast, is_unspecified, cgnat_prefix,
  reserved_prefix,
}
use subconverter_ng.Strings.Decimal.{atoi}
use subconverter_ng.Strings.{trim_space, to_lower, split, is_on, is_off}
use subconverter_ng.Urls.{Url}

pub record Fetch : Type 0 where
  pub user_agent : Text
  pub proxy : Text
  pub flare_solverr_url : Text
  pub timeout : ℤ
  pub cache_ttl : ℤ
  pub allow_private_ips : Bool
  pub allow_private_cidrs : List Text

pub record RateLimit : Type 0 where
  pub enabled : Bool
  pub requests_per_minute : ℤ
  pub burst : ℤ
  pub trusted_proxies : List Text

pub record Insert : Type 0 where
  pub urls : List Text
  pub prepend : Bool
  pub enabled : Bool

pub record Config : Type 0 where
  pub listen : Text
  pub api_access_token : Text
  pub fetch : Fetch
  pub rate_limit : RateLimit
  pub insert : Insert
  pub default_config_url : Text

abbrev pub default_timeout : ℤ
default_timeout = pos 30000000000

-- `Default`.
abbrev pub default : Config
default = record {
  listen = codes ":25500";
  api_access_token = [];
  fetch = record {
    user_agent = [];
    proxy = [];
    flare_solverr_url = [];
    timeout = default_timeout;
    cache_ttl = pos 0;
    allow_private_ips = false;
    allow_private_cidrs = [];
  };
  rate_limit = record {
    enabled = true;
    requests_per_minute = pos 30;
    burst = pos 10;
    trusted_proxies = [];
  };
  insert = record { urls = []; prepend = true; enabled = true };
  default_config_url = [];
}

-- `parseBool`, with the spellings of `strconv.ParseBool`; `none` for any other.
unfoldable pub parse_bool : Text → Option Bool
parse_bool v =
    if is_on v
    then some true
    else if is_off v
    then some false
    else if has (codes "t" ∷ codes "T" ∷ codes "TRUE" ∷ codes "True" ∷ []) v
    then some true
    else if has (codes "f" ∷ codes "F" ∷ codes "FALSE" ∷ codes "False" ∷ []) v
    then some false
    else none

-- A list in one variable: its parts between commas, without the blank ones.
unfoldable pub comma_list : Text → List Text
comma_list v = keep_if (λ p. not (same p [])) (map trim_space (split b',' v))

-- A setting that a variable overrides, unless it is empty or is not of the kind.
abbrev pub override {ℓ} : {A : Type ℓ} → Text → (Text → Option A) → A → A
override v read old = if same v [] then old else elim (read v) [ none ↦ old | some a ↦ a ]

unfoldable pub read_int : Text → Option ℤ
read_int v = if (atoi v).is_ok then some (atoi v).value else none

-- The variables that override the settings on fetches.
unfoldable pub fetch_env : (Text → Text) → (Text → Option ℤ) → Fetch → Fetch
fetch_env env parse_duration f = record {
  user_agent = override (env (codes "SUBNG_USER_AGENT")) some f.user_agent;
  proxy = override (env (codes "SUBNG_PROXY")) some f.proxy;
  flare_solverr_url = override (env (codes "SUBNG_FLARESOLVERR_URL")) some f.flare_solverr_url;
  timeout = f.timeout;
  cache_ttl = override (env (codes "SUBNG_CACHE_TTL")) parse_duration f.cache_ttl;
  allow_private_ips =
      override (env (codes "SUBNG_ALLOW_PRIVATE_IPS")) parse_bool f.allow_private_ips;
  allow_private_cidrs =
      override (env (codes "SUBNG_ALLOW_PRIVATE_CIDRS")) (λ v. some (comma_list v))
        f.allow_private_cidrs;
}

unfoldable pub rate_limit_env : (Text → Text) → RateLimit → RateLimit
rate_limit_env env r = record {
  enabled = override (env (codes "SUBNG_RATELIMIT_ENABLED")) parse_bool r.enabled;
  requests_per_minute = override (env (codes "SUBNG_RATELIMIT_RPM")) read_int r.requests_per_minute;
  burst = override (env (codes "SUBNG_RATELIMIT_BURST")) read_int r.burst;
  trusted_proxies =
      override (env (codes "SUBNG_TRUSTED_PROXIES")) (λ v. some (comma_list v)) r.trusted_proxies;
}

unfoldable pub insert_env : (Text → Text) → Insert → Insert
insert_env env i = record {
  urls = override (env (codes "SUBNG_INSERT_URLS")) (λ v. some (comma_list v)) i.urls;
  prepend = override (env (codes "SUBNG_INSERT_PREPEND")) parse_bool i.prepend;
  enabled = override (env (codes "SUBNG_INSERT_ENABLED")) parse_bool i.enabled;
}

-- `applyEnv`: each variable sets a field of its own.
unfoldable pub apply_env : (Text → Text) → (Text → Option ℤ) → Config → Config
apply_env env parse_duration cfg = record {
  listen = override (env (codes "SUBNG_LISTEN")) some cfg.listen;
  api_access_token = override (env (codes "SUBNG_API_ACCESS_TOKEN")) some cfg.api_access_token;
  fetch = fetch_env env parse_duration cfg.fetch;
  rate_limit = rate_limit_env env cfg.rate_limit;
  insert = insert_env env cfg.insert;
  default_config_url =
      override (trim_space (env (codes "SUBNG_DEFAULT_CONFIG_URL"))) some cfg.default_config_url;
}

-- The tests of `isSpecialAddr` behind `Unmap`.
unfoldable pub is_special_unmapped : Addr → Bool
is_special_unmapped addr =
    is_loopback addr
    || is_private addr
    || is_link_local_unicast addr
    || is_link_local_multicast addr
    || is_interface_local_multicast addr
    || is_multicast addr
    || is_unspecified addr
    || contains cgnat_prefix addr
    || contains reserved_prefix addr

unfoldable pub is_special_addr : Addr → Bool
is_special_addr addr = is_special_unmapped (unmap addr)

-- The address of a prefix, and the number of bits of its kind.
abbrev pub addr_of : Prefix → Addr
addr_of p = if p.is_v4 then v4 p.base else v6 p.base []

abbrev pub width : Prefix → ℕ
width p = if p.is_v4 then 32 else 128

-- `Prefix.Masked`.
unfoldable pub masked : Prefix → Prefix
masked p = record p { base = p.base - p.base % 2 ^ (width p - p.bits) }

-- `netip.PrefixFrom(a, a.BitLen())`, which drops the zone.
unfoldable pub host_prefix : Addr → Option Prefix
host_prefix invalid = none
host_prefix (v4 x) = some (record { is_v4 = true; base = x; bits = 32 })
host_prefix (v6 x zone) = some (record { is_v4 = false; base = x; bits = 128 })

module _ (parse_prefix : Text → Option Prefix) (parse_addr : Text → Option Addr) where
  -- `parseCIDROrIP`.
  unfoldable pub parse_cidr_or_ip : Text → Option Prefix
  parse_cidr_or_ip raw =
      let trimmed = trim_space raw in
      if same trimmed [] then none else elim (parse_prefix trimmed) [
        | some p ↦ some (masked p)
        | none ↦ elim (parse_addr trimmed) [ none ↦ none | some a ↦ host_prefix a ]
      ]

  -- `PrivateCIDRs`: what does not parse is left out.
  unfoldable pub prefixes_of : List Text → List Prefix
  prefixes_of [] = []
  prefixes_of (raw ∷ raws) =
      let rest = prefixes_of raws in elim (parse_cidr_or_ip raw) [ none ↦ rest | some p ↦ p ∷ rest ]

  unfoldable pub private_cidrs : Fetch → List Prefix
  private_cidrs f = prefixes_of f.allow_private_cidrs
