-- ===== src/Server/Admission/Rate.antt =====
-- The rate limit as the clients of the server meet it.
use native.Mathlib.Nat.{zero-add}
use subconverter_ng.Cache.{Cache}
use subconverter_ng.Common.{
  ℕ, ◌+◌, ◌-◌, ◌*◌, ◌≤◌, ◌≡◌, inl, inr, refl, sym, ◌∙◌, subst, subst⁻¹, Bool, true, false, ◌&&◌,
  Option, some, List, [], ◌∷◌, Text, same, if◌then◌else◌, Bool-cases, arith,
}
use subconverter_ng.RateLimit.Valid.{IsValid}
use subconverter_ng.RateLimit.Window.{Event, request, served, InWindow, served-window}
use subconverter_ng.RateLimit.{Limiter, token, allow}
use subconverter_ng.Server.Admission.{
  is_guarded, is_authorized, is_answered, IsInner, authenticate_lem, handle_flush_cache-IsInner,
}
use subconverter_ng.Server.{
  Server, Request, Response, Handler, is_trusted_proxy, client_ip, rate_limit, too_many_requests,
  unauthorized, authenticate, handle_flush_cache, Route, sub, flush_cache_route, version_route,
  healthz, readyz, web, route_of, serve, handle_version,
}
use subconverter_ng.Ssrf.{Addr}

module _ (split_host_port : Text → Option Text) (parse_addr : Text → Option Addr)
    (pages : Request → Response) (handle_sub : Handler) where
  abbrev step : Handler
  step = serve split_host_port parse_addr pages handle_sub

  -- Whether a request is a conversion or a flush of the client, and it was answered.
  abbrev pub answers_client : Text → ℕ → Request → Server → Bool
  answers_client k now r s =
      is_guarded (route_of r.path)
      && same (client_ip split_host_port parse_addr s r) k
      && is_answered (step now r s).1

  -- How many conversions and flushes of the client are answered in a run of requests.
  unfoldable pub answered : Text → List (ℕ × Request) → Server → ℕ
  answered k [] s = 0
  answered k ((now, r) ∷ rs) s =
      (if answers_client k now r s then 1 else 0) + answered k rs (step now r s).0

  -- The requests stand in the order of time, from `start` to `end`.
  abbrev pub Timely : ℕ → ℕ → List (ℕ × Request) → Type 0
  Timely start end [] = start ≤ end
  Timely start end ((now, r) ∷ rs) = (start ≤ now) × Timely now end rs

  -- The calls of the limiter that the requests make.
  events : Server → List (ℕ × Request) → List Event
  events s [] = []
  events s ((now, r) ∷ rs) =
      let rest = events s rs in
      if is_guarded (route_of r.path) && is_authorized s r
      then request now (client_ip split_host_port parse_addr s r) ∷ rest
      else rest

  InWindow-earlier : (a b end : ℕ) (es : List Event) → a ≤ b → InWindow b end es → InWindow a end es
  InWindow-earlier a b end [] h w = omega arith
  InWindow-earlier a b end (e ∷ es) h w = (omega (arith, w.0), w.1)

  events-InWindow :
      (s : Server) (start end : ℕ) (rs : List (ℕ × Request))
      → Timely start end rs
      → InWindow start end (events s rs)
  unfolding events
  events-InWindow s start end [] w = w
  events-InWindow s start end ((now, r) ∷ rs) (h, w) =
      elim (Bool-cases (is_guarded (route_of r.path) && is_authorized s r)) [
        | inl t ↦ rw t (h, events-InWindow s now end rs w)
        | inr f ↦ rw f (InWindow-earlier start now end _ h (events-InWindow s now end rs w))
      ]

  -- The server with this cache and this limiter.
  abbrev at : Server → Option Cache → Limiter → Server
  at s c l = record s { cache = c; limiter = some l }

  -- What a request does, given the call of the limiter that it makes: the server afterwards, and
  -- whether it is answered.
  abbrev Limits : Server → ℕ → Request → Limiter → Server × Response → Type 0
  Limits s now r l (t, resp) =
      (c : Option Cache) × (t ≡ at s c (allow now (client_ip split_host_port parse_addr s r) l).0)
      × (is_answered resp ≡ (allow now (client_ip split_host_port parse_addr s r) l).1)

  at_client :
      (s : Server) (c : Option Cache) (l : Limiter) (r : Request)
      → client_ip split_host_port parse_addr (at s c l) r ≡ client_ip split_host_port parse_addr s r
  unfolding client_ip is_trusted_proxy
  at_client s c l r = refl

  rate_limit_at :
      (next : Handler) (now : ℕ) (r : Request) (s : Server) (c : Option Cache) (l : Limiter)
      → rate_limit split_host_port parse_addr next now r (at s c l) ≡ (
          let call = allow now (client_ip split_host_port parse_addr s r) l in
          if call.1
          then next now r (at s c call.0)
          else (at s c call.0, too_many_requests split_host_port parse_addr (at s c l)))
  unfolding rate_limit client_ip is_trusted_proxy
  rate_limit_at next now r s c l = refl

  rate_limit-Limits :
      (next : Handler) (now : ℕ) (r : Request) (s : Server) (c : Option Cache) (l : Limiter)
      → IsInner next
      → Limits s now r l (rate_limit split_host_port parse_addr next now r (at s c l))
  unfolding too_many_requests
  rate_limit-Limits next now r s c l inner =
      subst⁻¹ (Limits s now r l) (rate_limit_at next now r s c l) (ends call refl)
    where
      call : Limiter × Bool
      call = allow now (client_ip split_host_port parse_addr s r) l

      ends :
          (a : Limiter × Bool)
          → call ≡ a
          → Limits s now r l (
              if call.1
              then next now r (at s c call.0)
              else (at s c call.0, too_many_requests split_host_port parse_addr (at s c l)))
      ends (l', true) e =
          let (d, k) = inner.keeps now r (at s c l') in rw e (d, k, inner.answers now r (at s c l'))
      ends (l', false) e = rw e (c, refl, refl)

  uncounted : (b : Bool) (n m : ℕ) → n ≡ m → (if b && false then 1 else 0) + n ≡ m
  uncounted true n m e = omega (arith, e)
  uncounted false n m e = omega (arith, e)

  -- The handler of a guarded route.
  inner_of : Route → Handler
  inner_of sub = handle_sub
  inner_of _ = handle_flush_cache

  serve_guarded :
      (now : ℕ) (r : Request) (s : Server) (route : Route)
      → route_of r.path ≡ route
      → is_guarded route ≡ true
      → step now r s ≡ authenticate (rate_limit split_host_port parse_addr (inner_of route)) now r s
  unfolding serve inner_of
  serve_guarded now r s sub e g = rw (e, serve) refl
  serve_guarded now r s flush_cache_route e g = rw (e, serve) refl
  serve_guarded now r s version_route e g = cc
  serve_guarded now r s healthz e g = cc
  serve_guarded now r s readyz e g = cc
  serve_guarded now r s web e g = cc

  serve_open :
      (now : ℕ) (r : Request) (s : Server) (route : Route)
      → route_of r.path ≡ route
      → is_guarded route ≡ false
      → (step now r s).0 ≡ s
  unfolding serve handle_version
  serve_open now r s sub e g = cc
  serve_open now r s flush_cache_route e g = cc
  serve_open now r s version_route e g = rw (e, serve) refl
  serve_open now r s healthz e g = rw (e, serve) refl
  serve_open now r s readyz e g = rw (e, serve) refl
  serve_open now r s web e g = rw (e, serve) refl

  module _ (inner : IsInner handle_sub) where
    inner_of-IsInner : (route : Route) → IsInner (inner_of route)
    unfolding inner_of
    inner_of-IsInner sub = inner
    inner_of-IsInner flush_cache_route = handle_flush_cache-IsInner
    inner_of-IsInner version_route = handle_flush_cache-IsInner
    inner_of-IsInner healthz = handle_flush_cache-IsInner
    inner_of-IsInner readyz = handle_flush_cache-IsInner
    inner_of-IsInner web = handle_flush_cache-IsInner

    serve-Limits :
        (now : ℕ) (r : Request) (s : Server) (c : Option Cache) (l : Limiter)
        → is_guarded (route_of r.path) ≡ true
        → is_authorized s r ≡ true
        → Limits s now r l (step now r (at s c l))
    serve-Limits now r s c l g a =
        subst⁻¹ (Limits s now r l) passed
          (rate_limit-Limits next now r s c l (inner_of-IsInner (route_of r.path)))
      where
        next : Handler
        next = inner_of (route_of r.path)

        passed : step now r (at s c l) ≡ rate_limit split_host_port parse_addr next now r (at s c l)
        passed =
            serve_guarded now r (at s c l) (route_of r.path) refl g
            ∙ authenticate_lem _ now r (at s c l)
            ∙ rw a

    serve_refused :
        (now : ℕ) (r : Request) (s : Server) (c : Option Cache) (l : Limiter)
        → is_guarded (route_of r.path) ≡ true
        → is_authorized s r ≡ false
        → step now r (at s c l) ≡ (at s c l, unauthorized)
    serve_refused now r s c l g a =
        serve_guarded now r (at s c l) (route_of r.path) refl g
        ∙ authenticate_lem _ now r (at s c l)
        ∙ rw a

    answered-served :
        (k : Text) (rs : List (ℕ × Request)) (s : Server) (c : Option Cache) (l : Limiter)
        → answered k rs (at s c l) ≡ served k (events s rs) l
    unfolding answered events served
    answered-served k [] s c l = refl
    answered-served k ((now, r) ∷ rs) s c l = elim (Bool-cases (is_guarded (route_of r.path))) [
      | inr g ↦
          rw (g, serve_open now r (at s c l) (route_of r.path) refl g, zero-add)
            (answered-served k rs s c l)
      | inl g ↦ elim (Bool-cases (is_authorized s r)) [
        | inl a ↦
            let (d, e, q) = serve-Limits now r s c l g a in
            rw (
              g,
              a,
              e,
              q,
              at_client s c l r,
              answered-served k rs s d (allow now (client_ip split_host_port parse_addr s r) l).0,
            )
        | inr a ↦
            rw (g, a, serve_refused now r s c l g a) (uncounted _ _ _ (answered-served k rs s c l))
      ]
    ]

    -- The rate limit of the server: in a window of time no longer than the TTL of a bucket, whatever
    -- the other clients ask for and however many requests are refused, a client is answered at most
    -- as many conversions and flushes as the burst and what the rate refills in the window make.
    pub answered-window :
        (k : Text) (start end : ℕ) (rs : List (ℕ × Request)) (s : Server) (l : Limiter)
        → s.limiter ≡ some l
        → IsValid l
        → Timely start end rs
        → end - start ≤ l.ttl
        → answered k rs s * token ≤ l.burst * token + l.refill * (end - start)
    answered-window k start end rs s l limited v w short =
        subst
          (λ o.
            answered k rs (record s { limiter = o }) * token
            ≤ l.burst * token + l.refill * (end - start))
          (sym limited)
          (rw (answered-served k rs s s.cache l)
            (served-window k start end (events s rs) l v (events-InWindow s start end rs w) short))
