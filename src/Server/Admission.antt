-- ===== src/Server/Admission.antt =====
-- Which requests pass the token check and the rate limit.
pub mod Rate
use subconverter_ng.Cache.{Cache}
use subconverter_ng.Common.{
  ℕ, ◌+◌, ◌-◌, ◌*◌, ◌≤◌, ◌≡◌, ◌≢◌, ◌⊎◌, inl, inr, refl, sym, ap, ◌∙◌, subst, Bool, true, false, not,
  ◌&&◌, ◌||◌, ◌==◌, Option, none, some, List, [], ◌∷◌, Text, codes, same, same_iff, same_ne,
  if◌then◌else◌, Bool-cases, Option-cases, arith,
}
use subconverter_ng.Fetch.{flush_cache}
use subconverter_ng.RateLimit.Valid.{IsValid}
use subconverter_ng.RateLimit.Window.{Event, request, served, InWindow, served-window}
use subconverter_ng.RateLimit.{Limiter, token, allow}
use subconverter_ng.Server.{
  Server, Request, Response, Handler, client_ip, rate_limit, too_many_requests, token_of,
  unauthorized, authenticate, handle_flush_cache, Route, sub, flush_cache_route, version_route,
  healthz, readyz, web, route_of, serve,
}
use subconverter_ng.Ssrf.{Addr}

-- The routes behind the token check.
abbrev pub is_guarded : Route → Bool
is_guarded sub = true
is_guarded flush_cache_route = true
is_guarded _ = false

-- No token is configured, or the request has it.
abbrev pub is_authorized : Server → Request → Bool
is_authorized s r =
    same s.cfg.api_access_token []
    || (not (same (token_of r) []) && same (token_of r) s.cfg.api_access_token)

-- The response is neither the refusal of a token nor that of the rate limit.
abbrev pub is_answered : Response → Bool
is_answered resp = not (resp.status == 401) && not (resp.status == 429)

-- A handler that changes nothing but the cache, and refuses no request as the two checks do.
pub record IsInner (next : Handler) : Type 0 where
  pub keeps :
      (now : ℕ) (r : Request) (s : Server)
      → (c : Option Cache) × ((next now r s).0 ≡ record s { cache = c })
  pub answers : (now : ℕ) (r : Request) (s : Server) → is_answered (next now r s).1 ≡ true

authenticate_lem :
    (next : Handler) (now : ℕ) (r : Request) (s : Server)
    → authenticate next now r s ≡ (if is_authorized s r then next now r s else (s, unauthorized))
unfolding authenticate
authenticate_lem next now r s =
    choice (same s.cfg.api_access_token []) (same (token_of r) [])
      (same (token_of r) s.cfg.api_access_token)
  where
    choice :
        (a b d : Bool)
        → (if a then next now r s else if b || not d then (s, unauthorized) else next now r s)
          ≡ (if a || (not b && d) then next now r s else (s, unauthorized))
    choice true b d = refl
    choice false true d = refl
    choice false false true = refl
    choice false false false = refl

handle_flush_cache-IsInner : IsInner handle_flush_cache
unfolding handle_flush_cache
handle_flush_cache-IsInner = record {
  keeps = λ now r s. (flush_cache s.cache, refl);
  answers = λ now r s. refl;
}

module _ (split_host_port : Text → Option Text) (parse_addr : Text → Option Addr)
    (pages : Request → Response) (handle_sub : Handler) where
  abbrev server_step : Handler
  server_step = serve split_host_port parse_addr pages handle_sub

  -- A conversion or a flush without the configured token is refused with 401, and changes nothing:
  -- not the cache, and not the buckets of the rate limit either.
  pub serve-unauthorized :
      (now : ℕ) (r : Request) (s : Server)
      → (r.path ≡ codes "/sub") ⊎ (r.path ≡ codes "/flushcache")
      → s.cfg.api_access_token ≢ []
      → token_of r ≢ s.cfg.api_access_token
      → server_step now r s ≡ (s, unauthorized)
  unfolding serve
  serve-unauthorized now r s path n h = refused path
    where
      closed : is_authorized s r ≡ false
      closed = rw (same_ne n, same_ne h) (last (not (same (token_of r) [])))
        where
          last : (b : Bool) → (b && false) ≡ false
          last b = ground arith

      routed :
          (route : Route)
          → is_guarded route ≡ true
          → route_of r.path ≡ route
          → server_step now r s ≡ (s, unauthorized)
      routed sub g e = rw (e, serve) (authenticate_lem _ now r s ∙ rw closed)
      routed flush_cache_route g e = rw (e, serve) (authenticate_lem _ now r s ∙ rw closed)
      routed version_route g e = cc
      routed healthz g e = cc
      routed readyz g e = cc
      routed web g e = cc

      refused :
          (r.path ≡ codes "/sub") ⊎ (r.path ≡ codes "/flushcache")
          → server_step now r s ≡ (s, unauthorized)
      refused (inl p) = routed sub refl (unfold route_of in unfold same in ap route_of p)
      refused (inr p) =
          routed flush_cache_route refl (unfold route_of in unfold same in ap route_of p)
