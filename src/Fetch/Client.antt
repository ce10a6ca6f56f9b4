-- ===== src/Fetch/Client.antt =====
-- internal/fetch/fetch.go: `New`, the client of a request.
--
-- The transport is what `New` decides of it: the egress and the proxy that may be dialled at an
-- internal address. `url.Parse` and `netip.ParseAddr` are arguments.
pub mod Egress
use subconverter_ng.Cache.{Cache, new_cache, default_cache_ttl}
use subconverter_ng.Common.{
  ℕ, zero, suc, Bool, true, false, not, ◌&&◌, ◌||◌, Option, none, some, List, [], ◌∷◌, Text, codes,
  same, if◌then◌else◌, ℤ, pos, negsuc,
}
use subconverter_ng.Ssrf.Policy.{Refusal, validate_url}
use subconverter_ng.Ssrf.{Addr, Prefix}
use subconverter_ng.Strings.{equal_fold}
use subconverter_ng.Urls.{Url}

pub record Options : Type 0 where
  pub user_agent : Text
  pub proxy : Text
  pub flare_solverr_url : Text
  pub timeout : ℤ
  pub max_retries : ℤ
  pub cache_ttl : ℤ
  pub cache : Option Cache
  pub allow_private_ips : Bool
  pub allow_private_cidrs : List Prefix
  pub trusted_proxy : Text

-- The proxy of the transport; `none` is the environment's.
pub record Client : Type 0 where
  pub opts : Options
  pub proxy : Option Url
  pub trusted_proxy_host : Text
  pub cache : Option Cache

-- Why `New` fails, beside the messages.
pub data ClientError : Type 0 where
  invalid_proxy : ClientError
  blocked_proxy : Refusal → ClientError

pub data Built : Type 0 where
  built : Client → Built
  not_built : ClientError → Built

abbrev pub default_user_agent : Text
default_user_agent = codes "clash.meta/1.18.0 mihomo/1.18.0"

-- A number that is 0 takes its default.
abbrev pub or_default : ℤ → ℤ → ℤ
or_default d (pos zero) = d
or_default d (pos (suc n)) = pos (suc n)
or_default d (negsuc n) = negsuc n

unfoldable pub with_defaults : Options → Options
with_defaults o = record o {
  user_agent = if same o.user_agent [] then default_user_agent else o.user_agent;
  timeout = or_default (pos 30000000000) o.timeout;
  max_retries = or_default (pos 2) o.max_retries;
}

-- The cache, with its TTL: a negative TTL disables it, and 0 is the default.
unfoldable pub wire_cache : ℤ → Option Cache → Option Cache
wire_cache (negsuc n) shared = none
wire_cache (pos zero) none = some (new_cache (pos default_cache_ttl))
wire_cache (pos (suc n)) none = some (new_cache (pos (suc n)))
wire_cache (pos zero) (some c) = some (record c { ttl = default_cache_ttl })
wire_cache (pos (suc n)) (some c) = some (record c { ttl = suc n })

abbrev pub proxy_schemes : List Text
proxy_schemes = codes "http" ∷ codes "https" ∷ codes "socks5" ∷ codes "socks5h" ∷ []

-- The proxy is the one that the operator configured.
unfoldable pub is_operators : Options → Bool
is_operators o = not (same o.trusted_proxy []) && same o.proxy o.trusted_proxy

-- `socks5h` is `socks5` to the transport.
unfoldable pub transport_url : Url → Url
transport_url u =
    if equal_fold u.scheme (codes "socks5h") then record u { scheme = codes "socks5" } else u

module _ (parse_url : Text → Option Url) (parse_addr : Text → Option Addr) where
  -- `ValidateProxyURL`.
  unfoldable pub validate_proxy_url : Text → Bool → List Prefix → Option Refusal
  validate_proxy_url raw allow_private allow =
      validate_url parse_url parse_addr raw allow_private allow proxy_schemes

  -- The check of a proxy that is not the operator's.
  unfoldable pub check_proxy : Options → Option Refusal
  check_proxy o =
      if not o.allow_private_ips && not (is_operators o)
      then validate_proxy_url o.proxy false o.allow_private_cidrs
      else none

  unfoldable pub new_client : Options → Built
  new_client opts =
      let o = with_defaults opts in
      let cache = wire_cache o.cache_ttl o.cache in
      if same o.proxy []
      then built (record { opts = o; proxy = none; trusted_proxy_host = []; cache = cache })
      else elim (parse_url o.proxy) [
        | none ↦ not_built invalid_proxy
        | some u ↦ elim (check_proxy o) [
          | some why ↦ not_built (blocked_proxy why)
          | none ↦ built (record {
            opts = o;
            proxy = some (transport_url u);
            trusted_proxy_host = if is_operators o then u.hostname else [];
            cache = cache;
          })
        ]
      ]
