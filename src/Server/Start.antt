-- ===== src/Server/Start.antt =====
-- A server starts with every configuration that is loaded.
use subconverter_ng.AppConfig.Checks.Sound.{load-IsReady}
use subconverter_ng.AppConfig.Checks.{check_trusted_proxy, File, loaded, load}
use subconverter_ng.AppConfig.{Config}
use subconverter_ng.Common.{
  ◌≡◌, refl, inl, inr, Bool, true, false, Option, none, some, List, [], ◌∷◌, Text, same,
  if◌then◌else◌, All, ℤ, Bool-cases, Option-cases,
}
use subconverter_ng.RateLimit.Valid.{IsValid, new_limiter-IsValid}
use subconverter_ng.RateLimit.{Limiter, new_limiter}
use subconverter_ng.Server.{Server, Trusted, add_prefix, add_address, server_of, trusted_of, new}
use subconverter_ng.Ssrf.{Addr, Prefix}
use subconverter_ng.Strings.{trim_space}
use subconverter_ng.Urls.{Url}

-- The limiter of a server, if it has one, is valid.
abbrev pub IsLimited : Option Limiter → Type 0
IsLimited none = Unit
IsLimited (some l) = IsValid l

module _ (parse_url : Text → Option Url) (parse_prefix : Text → Option Prefix)
    (parse_addr : Text → Option Addr) where
  trusted_of-some :
      (raws : List Text)
      → All (λ raw. check_trusted_proxy parse_url parse_prefix parse_addr raw ≡ none) raws
      → (t : Trusted) × (trusted_of parse_prefix parse_addr raws ≡ some t)
  unfolding trusted_of check_trusted_proxy
  trusted_of-some [] h = (([], []), refl)
  trusted_of-some (r ∷ raws) (h, k) =
      let (t, e) = trusted_of-some raws k in
      elim (Bool-cases (same (trim_space r) [])) [
        | inl b ↦ (t, rw (b, e))
        | inr b ↦ elim (Option-cases (parse_prefix (trim_space r))) [
          | inr (p, z) ↦ (add_prefix p t, rw (b, e, z) refl)
          | inl z ↦ elim (Option-cases (parse_addr (trim_space r))) [
            | inr (a, y) ↦ (add_address a t, rw (b, e, z, y) refl)
            | inl y ↦ cc (rw (b, z, y) at h)
          ]
        ]
      ]

  module _ (env : Text → Text) (parse_duration : Text → Option ℤ)
      (unmarshal : Text → Config → Option Config) where
    -- With whatever configuration `Load` gives, `New` does not panic: the server has that
    -- configuration, and its limiter is valid if it has one.
    pub new-load :
        (file : File) (c : Config)
        → load parse_url parse_prefix parse_addr env parse_duration unmarshal file ≡ loaded c
        → (s : Server) × (new parse_prefix parse_addr c ≡ some s)
          × (s.cfg ≡ c)
          × IsLimited s.limiter
    unfolding new server_of
    new-load file c h =
        let ready =
          load-IsReady parse_url parse_prefix parse_addr env parse_duration unmarshal file c h in
        let (t, e) = trusted_of-some c.rate_limit.trusted_proxies ready.sound.trusted in
        (server_of c t, rw (e, new) refl, refl, limited c.rate_limit.enabled)
      where
        limited :
            (b : Bool)
            → IsLimited (
                if b
                then some (new_limiter c.rate_limit.requests_per_minute c.rate_limit.burst)
                else none)
        limited true = new_limiter-IsValid _ _
        limited false = tt
