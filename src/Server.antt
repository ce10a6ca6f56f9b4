-- ===== src/Server.antt =====
-- internal/server/server.go: the HTTP server's state, its routes and what stands in front of them.
--
-- A handler takes the instant of the request, the request and the server, and gives the server and
-- the response. The query and the header are those that `net/http` has parsed, their keys in the
-- canonical form; `net.SplitHostPort`, `netip.ParseAddr` and `netip.ParsePrefix` are arguments.
pub mod Params
pub mod Sub
pub mod Admission
pub mod Start
pub mod Client
use subconverter_ng.AppConfig.{Config}
use subconverter_ng.Cache.{Cache, Header, new_cache}
use subconverter_ng.Common.{
  ℕ, ◌/◌, Bool, true, false, not, ◌&&◌, ◌||◌, Option, none, some, List, [], ◌∷◌, ◌++◌, Text, codes,
  same, ltb, ◌==◌, if◌then◌else◌, drop, ℤ, pos, negsuc,
}
use subconverter_ng.Urls.{first_value}
use subconverter_ng.Convert.Run.{RunError}
use subconverter_ng.Fetch.Client.{ClientError}
use subconverter_ng.Fetch.{flush_cache}
use subconverter_ng.RateLimit.{Limiter, new_limiter, allow}
use subconverter_ng.Ssrf.Policy.{Refusal}
use subconverter_ng.Ssrf.{Addr, invalid, v4, v6, Prefix, unmap, contains}
use subconverter_ng.Strings.Decimal.{itoa_nat}
use subconverter_ng.Strings.{trim_space, to_lower, has_prefix, split}

pub record Server : Type 0 where
  pub cfg : Config
  pub version : Text
  pub cache : Option Cache
  pub limiter : Option Limiter
  pub trusted_cidrs : List Prefix
  pub trusted_ips : List Addr

pub record Request : Type 0 where
  pub path : Text
  pub remote_addr : Text
  pub query : List (Text × List Text)
  pub header : Header

-- What a message says that quotes an error.
pub data Problem : Type 0 where
  bad_proxy : Refusal → Problem
  bad_client : ClientError → Problem
  bad_run : RunError → Problem

pub data Body : Type 0 where
  text : Text → Body
  problem : Problem → Body

pub record Response : Type 0 where
  pub status : ℕ
  pub header : List (Text × Text)
  pub body : Body

abbrev pub Handler : Type 0
Handler = ℕ → Request → Server → Server × Response

abbrev pub text_plain : Text × Text
text_plain = (codes "Content-Type", codes "text/plain; charset=utf-8")

-- `http.Error`, less the header against sniffing.
abbrev pub http_error : ℕ → Body → Response
http_error status body = record { status = status; header = text_plain ∷ []; body = body }

abbrev pub ok_text : Text → Response
ok_text s = record { status = 200; header = text_plain ∷ []; body = text s }

-- The proxies that are trusted, by prefix and by address.
abbrev pub Trusted : Type 0
Trusted = List Prefix × List Addr

abbrev pub add_prefix : Prefix → Trusted → Trusted
add_prefix p (cidrs, ips) = (p ∷ cidrs, ips)

abbrev pub add_address : Addr → Trusted → Trusted
add_address a (cidrs, ips) = (cidrs, a ∷ ips)

-- A negative TTL disables the cache.
abbrev pub cache_of : ℤ → Option Cache
cache_of (pos n) = some (new_cache (pos n))
cache_of (negsuc n) = none

unfoldable pub server_of : Config → Trusted → Server
server_of cfg (cidrs, ips) = record {
  cfg = cfg;
  version = codes "dev";
  cache = cache_of cfg.fetch.cache_ttl;
  limiter =
      if cfg.rate_limit.enabled
      then some (new_limiter cfg.rate_limit.requests_per_minute cfg.rate_limit.burst)
      else none;
  trusted_cidrs = cidrs;
  trusted_ips = ips;
}

module _ (parse_prefix : Text → Option Prefix) (parse_addr : Text → Option Addr) where
  -- The loop of `New` over the trusted proxies; `none` is its panic.
  unfoldable pub trusted_of : List Text → Option Trusted
  trusted_of [] = some ([], [])
  trusted_of (r ∷ raws) =
      let rest = trusted_of raws in
      let raw = trim_space r in
      if same raw [] then rest else elim rest [
        | none ↦ none
        | some t ↦ elim (parse_prefix raw) [
          | some p ↦ some (add_prefix p t)
          | none ↦ elim (parse_addr raw) [ some a ↦ some (add_address a t) | none ↦ none ]
        ]
      ]

  -- `New`; `none` is its panic.
  unfoldable pub new : Config → Option Server
  new cfg = elim (trusted_of cfg.rate_limit.trusted_proxies) [
    | none ↦ none
    | some t ↦ some (server_of cfg t)
  ]

unfoldable pub with_version : Text → Server → Server
with_version v s = if same v [] then s else record s { version = v }

-- Equality of addresses, zones included.
unfoldable pub same_addr : Addr → Addr → Bool
same_addr invalid invalid = true
same_addr (v4 a) (v4 b) = a == b
same_addr (v6 a y) (v6 b z) = a == b && same y z
same_addr _ _ = false

unfoldable pub any_addr : List Addr → Addr → Bool
any_addr [] addr = false
any_addr (ip ∷ ips) addr = same_addr (unmap ip) addr || any_addr ips addr

unfoldable pub any_prefix : List Prefix → Addr → Bool
any_prefix [] addr = false
any_prefix (cidr ∷ cidrs) addr = contains cidr addr || any_prefix cidrs addr

-- `isTrustedProxy`; with no trusted proxies both loops are empty.
unfoldable pub is_trusted_proxy : (Text → Option Addr) → Server → Text → Bool
is_trusted_proxy parse_addr s host = elim (parse_addr host) [
  | none ↦ false
  | some a ↦ any_addr s.trusted_ips (unmap a) || any_prefix s.trusted_cidrs (unmap a)
]

-- The part of the header before its first comma.
abbrev pub first_part : List Text → Text
first_part [] = []
first_part (p ∷ ps) = p

-- The address that a trusted proxy forwards, or the proxy's.
unfoldable pub forwarded_ip : Header → Text → Text
forwarded_ip header remote =
    let first =
      trim_space (first_part (split b',' (first_value header (codes "X-Forwarded-For")))) in
    let real = trim_space (first_value header (codes "X-Real-Ip")) in
    if not (same first []) then first else if not (same real []) then real else remote

module _ (split_host_port : Text → Option Text) (parse_addr : Text → Option Addr) where
  unfoldable pub remote_host : Request → Text
  remote_host r = elim (split_host_port r.remote_addr) [ none ↦ r.remote_addr | some host ↦ host ]

  unfoldable pub client_ip : Server → Request → Text
  client_ip s r =
      if is_trusted_proxy parse_addr s (remote_host r)
      then forwarded_ip r.header (remote_host r)
      else remote_host r

  -- The seconds of the header `Retry-After`.
  abbrev pub retry_after : ℤ → Text
  retry_after (pos n) = if ltb 0 n && ltb 1 (60 / n) then itoa_nat (60 / n) else codes "1"
  retry_after (negsuc n) = codes "1"

  unfoldable pub too_many_requests : Server → Response
  too_many_requests s = record {
    status = 429;
    header =
        (codes "Retry-After", retry_after s.cfg.rate_limit.requests_per_minute) ∷ text_plain ∷ [];
    body = text (codes "rate limit exceeded\n");
  }

  unfoldable pub rate_limit : Handler → Handler
  rate_limit next now r s = elim s.limiter [
    | none ↦ next now r s
    | some l ↦
        let (l', ok) = allow now (client_ip s r) l in
        let s' : Server = record s { limiter = some l' } in
        if ok then next now r s' else (s', too_many_requests s)
  ]

-- The token of a header `Authorization`.
unfoldable pub bearer : Text → Text
bearer auth =
    if has_prefix (to_lower auth) (codes "bearer ")
    then trim_space (drop 7 auth)
    else trim_space auth

-- The token of a request: of its query, of its header `Authorization`, or of `X-API-Token`.
unfoldable pub token_of : Request → Text
token_of r =
    let query = first_value r.query (codes "token") in
    let auth = first_value r.header (codes "Authorization") in
    let token = if same query [] then (if same auth [] then [] else bearer auth) else query in
    if same token [] then first_value r.header (codes "X-Api-Token") else token

abbrev pub unauthorized : Response
unauthorized = record {
  status = 401;
  header = text_plain ∷ [];
  body = text (codes "unauthorized: invalid or missing API token\n");
}

unfoldable pub authenticate : Handler → Handler
authenticate next now r s =
    if same s.cfg.api_access_token []
    then next now r s
    else if same (token_of r) [] || not (same (token_of r) s.cfg.api_access_token)
    then (s, unauthorized)
    else next now r s

unfoldable pub handle_flush_cache : Handler
handle_flush_cache now r s =
    (record s { cache = flush_cache s.cache }, ok_text (codes "cache flushed\n"))

unfoldable pub handle_version : Handler
handle_version now r s = (s, ok_text (codes "subconverter-ng " ++ (s.version ++ codes "\n")))

abbrev pub handle_healthz : Handler
handle_healthz now r s = (s, ok_text (codes "ok\n"))

abbrev pub handle_readyz : Handler
handle_readyz now r s = (s, ok_text (codes "ready\n"))

-- The handlers that a request may reach.
pub data Route : Type 0 where
  sub flush_cache_route version_route healthz readyz web : Route

-- The root mux.
unfoldable pub route_of : Text → Route
route_of path =
    if same path (codes "/sub")
    then sub
    else if same path (codes "/flushcache")
    then flush_cache_route
    else if same path (codes "/version")
    then version_route
    else if same path (codes "/healthz")
    then healthz
    else if same path (codes "/readyz")
    then readyz
    else web

-- `Handler`, around the handler of conversions and the file server of the web page; `logging`
-- changes nothing.
unfoldable pub serve :
    (Text → Option Text) → (Text → Option Addr) → (Request → Response) → Handler → Handler
serve split_host_port parse_addr pages handle_sub now r s = elim (route_of r.path) [
  | sub ↦ authenticate (rate_limit split_host_port parse_addr handle_sub) now r s
  | flush_cache_route ↦
      authenticate (rate_limit split_host_port parse_addr handle_flush_cache) now r s
  | version_route ↦ handle_version now r s
  | healthz ↦ handle_healthz now r s
  | readyz ↦ handle_readyz now r s
  | web ↦ (s, pages r)
]
