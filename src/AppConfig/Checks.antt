-- ===== src/AppConfig/Checks.antt =====
-- `Validate` and `Load`: which configurations the program starts with.
pub mod Special
pub mod Sound
use subconverter_ng.AppConfig.{
  Config, Fetch, RateLimit, Insert, default, default_timeout, apply_env, is_special_addr, addr_of,
  parse_cidr_or_ip,
}
use subconverter_ng.Common.{
  ℕ, zero, suc, Bool, true, false, not, ◌&&◌, ◌||◌, Option, none, some, List, [], ◌∷◌, Text, codes,
  same, has, ltb, if◌then◌else◌, ℤ, pos, negsuc,
}
use subconverter_ng.Ssrf.{Addr, Prefix}
use subconverter_ng.Strings.{trim_space, to_lower}
use subconverter_ng.Urls.{Url}

-- What is wrong with a configuration, beside the messages.
pub data Invalid : Type 0 where
  empty_listen negative_timeout negative_rate negative_burst : Invalid
  bad_cidr wide_cidr bad_trusted_proxy bad_insert_url : Text → Invalid
  bad_proxy bad_flare_solverr bad_default_config empty_insert_url : Invalid

-- The first error of a sequence of checks, of which an earlier one returns at once.
unfoldable pub first_error : List (Option Invalid) → Option Invalid
first_error [] = none
first_error (none ∷ rest) = first_error rest
first_error (some e ∷ rest) = some e

abbrev pub fails_if : Bool → Invalid → Option Invalid
fails_if true e = some e
fails_if false e = none

abbrev pub is_negative : ℤ → Bool
is_negative (pos n) = false
is_negative (negsuc n) = true

-- A loop that checks each entry of a list.
unfoldable pub check_each : (Text → Option Invalid) → List Text → Option Invalid
check_each check [] = none
check_each check (x ∷ xs) =
    let rest = check_each check xs in elim (check x) [ none ↦ rest | some e ↦ some e ]

-- The prefix is of no fewer bits than its kind asks for, and its address is special.
unfoldable pub is_narrow : Prefix → Bool
is_narrow p = not (ltb p.bits (if p.is_v4 then 8 else 16)) && is_special_addr (addr_of p)

-- The proxy, the FlareSolverr endpoint and the config URL that are set have a known scheme.
unfoldable pub check_scheme :
    (Text → Option Url) → (Text → Text) → List Text → Invalid → Text → Option Invalid
check_scheme parse_url fold schemes e raw = if same raw [] then none else elim (parse_url raw) [
  | none ↦ some e
  | some u ↦ fails_if (not (has schemes (fold u.scheme))) e
]

abbrev pub web_schemes : List Text
web_schemes = codes "http" ∷ codes "https" ∷ []

abbrev pub proxy_schemes : List Text
proxy_schemes = codes "http" ∷ codes "https" ∷ codes "socks5" ∷ codes "socks5h" ∷ []

unfoldable pub check_insert_url : (Text → Option Url) → Text → Option Invalid
check_insert_url parse_url raw =
    let trimmed = trim_space raw in
    if same trimmed [] then some empty_insert_url else elim (parse_url trimmed) [
      | none ↦ some (bad_insert_url raw)
      | some u ↦
          fails_if (not (has web_schemes (to_lower u.scheme)) || same u.host [])
            (bad_insert_url raw)
    ]

module _ (parse_url : Text → Option Url) (parse_prefix : Text → Option Prefix)
    (parse_addr : Text → Option Addr) where
  unfoldable pub check_cidr : Text → Option Invalid
  check_cidr raw = elim (parse_cidr_or_ip parse_prefix parse_addr raw) [
    | none ↦ some (bad_cidr raw)
    | some p ↦ fails_if (not (is_narrow p)) (wide_cidr raw)
  ]

  unfoldable pub check_trusted_proxy : Text → Option Invalid
  check_trusted_proxy raw =
      let trimmed = trim_space raw in
      if same trimmed [] then none else elim (parse_prefix trimmed) [
        | some p ↦ none
        | none ↦ elim (parse_addr trimmed) [ some a ↦ none | none ↦ some (bad_trusted_proxy raw) ]
      ]

  -- `Validate`; `none` is a configuration with no error.
  unfoldable pub validate : Config → Option Invalid
  validate c = first_error (
      fails_if (same (trim_space c.listen) []) empty_listen
      ∷ fails_if (is_negative c.fetch.timeout) negative_timeout
      ∷ check_each check_cidr c.fetch.allow_private_cidrs
      ∷ fails_if (is_negative c.rate_limit.requests_per_minute) negative_rate
      ∷ fails_if (is_negative c.rate_limit.burst) negative_burst
      ∷ check_each check_trusted_proxy c.rate_limit.trusted_proxies
      ∷ check_scheme parse_url to_lower proxy_schemes bad_proxy c.fetch.proxy
      ∷ check_scheme parse_url (λ s. s) web_schemes bad_flare_solverr c.fetch.flare_solverr_url
      ∷ check_scheme parse_url (λ s. s) web_schemes bad_default_config c.default_config_url
      ∷ check_each (check_insert_url parse_url) c.insert.urls
      ∷ [])

-- What reading the configuration file gives.
pub data File : Type 0 where
  missing unreadable : File
  contents : Text → File

-- Why `Load` fails.
pub data LoadError : Type 0 where
  not_read not_yaml : LoadError
  invalid_config : Invalid → LoadError

pub data Loaded : Type 0 where
  loaded : Config → Loaded
  load_error : LoadError → Loaded

-- A number that is left at 0 takes its default.
abbrev pub backfill : ℤ → ℤ → ℤ
backfill d (pos zero) = d
backfill d (pos (suc n)) = pos (suc n)
backfill d (negsuc n) = negsuc n

unfoldable pub backfilled : Config → Config
backfilled c = record c {
  fetch = record c.fetch { timeout = backfill default_timeout c.fetch.timeout };
  rate_limit = record c.rate_limit {
    requests_per_minute = backfill (pos 30) c.rate_limit.requests_per_minute;
    burst = backfill (pos 10) c.rate_limit.burst;
  };
}

module _ (parse_url : Text → Option Url) (parse_prefix : Text → Option Prefix)
    (parse_addr : Text → Option Addr) (env : Text → Text) (parse_duration : Text → Option ℤ)
    (unmarshal : Text → Config → Option Config) where
  -- `Load` behind the reading of the file.
  unfoldable pub finish_load : Config → Loaded
  finish_load read =
      let c = backfilled (apply_env env parse_duration read) in
      elim (validate parse_url parse_prefix parse_addr c) [
        | none ↦ loaded c
        | some e ↦ load_error (invalid_config e)
      ]

  -- `Load`; with no path the file counts as missing.
  unfoldable pub load : File → Loaded
  load missing = finish_load default
  load unreadable = load_error not_read
  load (contents text) = elim (unmarshal text default) [
    | none ↦ load_error not_yaml
    | some c ↦ finish_load c
  ]
