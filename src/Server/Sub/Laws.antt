-- ===== src/Server/Sub/Laws.antt =====
-- What a conversion request may change, and which status it ends with.
use subconverter_ng.Cache.{Cache, Header}
use subconverter_ng.Common.{
  ℕ, ◌≡◌, ◌⊎◌, inl, inr, refl, sym, ap, ◌∙◌, true, false, Option, none, some, List, [], Text, codes,
  same, negsuc, Bool-cases, Option-cases,
}
use subconverter_ng.Convert.Run.{
  Outcome, converted, failed, unsupported_target, no_subscription_url, no_nodes, config_unreachable,
  not_rendered, subscription_failed,
}
use subconverter_ng.Generators.{Rendered}
use subconverter_ng.Convert.Targets.{Generator}
use subconverter_ng.Emoji.{EmojiRule, Compile}
use subconverter_ng.ExtConfig
use subconverter_ng.Fetch.Client.{
  Client, Built, built, not_built, new_client, with_defaults, wire_cache, check_proxy,
}
use subconverter_ng.Fetch.Client as FetchClient
use subconverter_ng.Fetch.{flush_cache}
use subconverter_ng.Node.{Node}
use subconverter_ng.Parser.{Parsed}
use subconverter_ng.Pipeline.Filters
use subconverter_ng.Server.Params.{bool_param}
use subconverter_ng.Server.Sub.{
  get, no_cache, success, write_user_error, respond, flushed, share_back, client_options,
  check_user_proxy, convert_with, convert_request, handle_sub,
}
use subconverter_ng.Server.Admission.{is_answered, IsInner}
use subconverter_ng.Server.{Server, Request, Response, Handler, http_error, problem, bad_client}
use subconverter_ng.Ssrf.{Addr, Prefix}
use subconverter_ng.Urls.{Url}

-- A client has a cache only if it was given a TTL that is not negative.
new_client-no_cache :
    (parse_url : Text → Option Url) (parse_addr : Text → Option Addr) (opts : FetchClient.Options)
    (c : Client) (n : ℕ)
    → opts.cache_ttl ≡ negsuc n
    → new_client parse_url parse_addr opts ≡ built c
    → c.cache ≡ none
unfolding new_client with_defaults wire_cache
new_client-no_cache parse_url parse_addr opts c n t h = elim (Bool-cases (same opts.proxy [])) [
  | inl e ↦ sym (cache_eq (rw e at h)) ∙ wired
  | inr e ↦ elim (Option-cases (parse_url opts.proxy)) [
    | inl z ↦ cc (rw (e, z) at h)
    | inr (u, z) ↦ elim (Option-cases (check_proxy parse_url parse_addr (with_defaults opts))) [
      | inr (why, y) ↦ cc (rw (e, z, y) at h)
      | inl y ↦ sym (cache_eq (rw (e, z, y) at h)) ∙ wired
    ]
  ]
]
  where
    wired : wire_cache opts.cache_ttl opts.cache ≡ none
    wired = rw t

    cache_eq : {a b : Client} → built a ≡ built b → a.cache ≡ b.cache
    cache_eq e = ap (λ x. elim x [ built k ↦ k.cache | not_built w ↦ none ]) e

-- The statuses of the handler.
abbrev pub IsSubStatus : ℕ → Type 0
IsSubStatus n = (n ≡ 200) ⊎ (n ≡ 400) ⊎ (n ≡ 422) ⊎ (n ≡ 424)

respond-IsSubStatus : (r : Request) (o : Outcome) → IsSubStatus (respond r o).status
unfolding respond success write_user_error
respond-IsSubStatus r (converted out diag) = inl refl
respond-IsSubStatus r (failed unsupported_target) = inr (inr (inr refl))
respond-IsSubStatus r (failed no_subscription_url) = inr (inr (inr refl))
respond-IsSubStatus r (failed no_nodes) = inr (inr (inl refl))
respond-IsSubStatus r (failed config_unreachable) = inr (inr (inr refl))
respond-IsSubStatus r (failed not_rendered) = inr (inr (inr refl))
respond-IsSubStatus r (failed (subscription_failed i)) = inr (inr (inr refl))

IsSubStatus-is_answered : (resp : Response) → IsSubStatus resp.status → is_answered resp ≡ true
IsSubStatus-is_answered resp (inl e) = rw e refl
IsSubStatus-is_answered resp (inr (inl e)) = rw e refl
IsSubStatus-is_answered resp (inr (inr (inl e))) = rw e refl
IsSubStatus-is_answered resp (inr (inr (inr e))) = rw e refl

-- The server with another cache.
abbrev uncached : Option Cache → Server → Server
uncached c s = record s { cache = c }

-- The two servers differ in their caches at most.
abbrev pub OnlyCache : Server → Server → Type 0
OnlyCache s t = (c : Option Cache) × (t ≡ record s { cache = c })

share_back-OnlyCache : (c after : Option Cache) (s : Server) → OnlyCache s (share_back c after s)
share_back-OnlyCache none after s = (s.cache, refl)
share_back-OnlyCache (some c) after s = (after, refl)

flushed-OnlyCache : (r : Request) (s : Server) → OnlyCache s (flushed r s)
unfolding flushed
flushed-OnlyCache r s = elim (Bool-cases (bool_param (get r (codes "flushcache")) false)) [
  | inl t ↦ (flush_cache s.cache, rw t)
  | inr f ↦ (s.cache, rw f)
]

module _ (parse_prefix : Text → Option Prefix) (parse_addr : Text → Option Addr)
    (parse_url : Text → Option Url)
    (network : Client → (Text → Option (Text × Header)) × Option Cache)
    (orders : Request → List ℕ × List ℕ) (parse : Text → Option Parsed) (compile : Compile)
    (default_emoji : List EmojiRule)
    (generate : Generator → List Node → ExtConfig.Config → Filters.Options → Option Rendered) where
  abbrev Sub : Type 0
  Sub = Request → Server → Server × Response

  abbrev request_end : Sub
  request_end =
      convert_request parse_prefix parse_addr parse_url network orders parse compile default_emoji
        generate

  abbrev Ends : Request → Server → Server × Response → Type 0
  Ends r s (t, resp) = OnlyCache s t × IsSubStatus resp.status × (no_cache r ≡ true → t ≡ s)

  convert_with-Ends :
      (c : Client) (r : Request) (s : Server)
      → (no_cache r ≡ true → c.cache ≡ none)
      → Ends r s (
          convert_with parse_prefix parse_addr parse_url network orders parse compile default_emoji
            generate c r s)
  unfolding convert_with
  convert_with-Ends c r s n = (
    share_back-OnlyCache c.cache (network c).1 s,
    respond-IsSubStatus r _,
    λ b. ap (λ o. share_back o (network c).1 s) (n b),
  )

  convert_request-Ends : (r : Request) (s : Server) → Ends r s (request_end r s)
  unfolding convert_request
  convert_request-Ends r s =
      elim (Option-cases (check_user_proxy parse_prefix parse_addr parse_url r s)) [
        | inr (why, z) ↦ rw (z, convert_request) ((s.cache, refl), inr (inl refl), λ b. refl)
        | inl z ↦ rw (z, convert_request) (building _ refl)
      ]
    where
      building :
          (b : Built)
          → new_client parse_url parse_addr (client_options parse_prefix parse_addr r s) ≡ b
          → Ends r s (elim b [
            | not_built e ↦ (s, http_error 400 (problem (bad_client e)))
            | built c ↦
                convert_with parse_prefix parse_addr parse_url network orders parse compile
                  default_emoji generate c r s
          ])
      building (not_built e) h = ((s.cache, refl), inr (inl refl), λ b. refl)
      building (built c) h = convert_with-Ends c r s (λ b.
          new_client-no_cache parse_url parse_addr (client_options parse_prefix parse_addr r s) c 0
            (unfold client_options in rw b) h)

  abbrev handler : Handler
  handler =
      handle_sub parse_prefix parse_addr parse_url network orders parse compile default_emoji
        generate

  -- Whatever the query and the network, a conversion request changes nothing of the server but its
  -- cache, and ends with status 200, 400, 422 or 424: never with a 5xx, which a reverse proxy would
  -- replace by a page of its own.
  pub handle_sub-IsSubStatus :
      (now : ℕ) (r : Request) (s : Server)
      → OnlyCache s (handler now r s).0 × IsSubStatus (handler now r s).1.status
  unfolding handle_sub
  handle_sub-IsSubStatus now r s = elim (Bool-cases (same (get r (codes "url")) [])) [
    | inl t ↦ rw t ((s.cache, refl), inr (inl refl))
    | inr f ↦
        let (c, e) = flushed-OnlyCache r s in
        let ((d, o), status, _) = convert_request-Ends r (flushed r s) in
        rw f ((d, o ∙ ap (uncached d) e), status)
  ]

  pub handle_sub-IsInner : IsInner handler
  handle_sub-IsInner = record {
    keeps = λ now r s. (handle_sub-IsSubStatus now r s).0;
    answers =
        λ now r s. IsSubStatus-is_answered (handler now r s).1 (handle_sub-IsSubStatus now r s).1;
  }

  -- A request that bypasses the cache leaves the server as it is, or as clearing the cache leaves
  -- it where the request asks for that too.
  pub handle_sub-no_cache :
      (now : ℕ) (r : Request) (s : Server)
      → no_cache r ≡ true
      → ((handler now r s).0 ≡ s) ⊎ ((handler now r s).0 ≡ flushed r s)
  unfolding handle_sub
  handle_sub-no_cache now r s b = elim (Bool-cases (same (get r (codes "url")) [])) [
    | inl t ↦ inl (rw t)
    | inr f ↦ inr (rw f ((convert_request-Ends r (flushed r s)).2 b))
  ]
