-- ===== src/AppConfig/Checks/Sound.antt =====
-- What the other parts may rely on in a configuration that was loaded.
use subconverter_ng.AppConfig.Checks.{
  Invalid, wide_cidr, first_error, fails_if, is_negative, check_each, is_narrow, check_cidr,
  check_trusted_proxy, validate, loaded, backfill, backfilled, finish_load, load, File, missing,
  unreadable, contents,
}
use subconverter_ng.AppConfig.Checks.Special.{BeginsSpecial, is_narrow-BeginsSpecial}
use subconverter_ng.AppConfig.{Config, default, apply_env, parse_cidr_or_ip, prefixes_of}
use subconverter_ng.Common.{
  zero, suc, ◌≡◌, refl, subst, inl, inr, Bool, true, false, not, Option, none, some, List, [], ◌∷◌,
  Text, All, length, ℤ, pos, negsuc, arith, Option-cases,
}
use subconverter_ng.Ssrf.{Addr, Prefix}
use subconverter_ng.Urls.{Url}

-- A sequence of checks finds nothing exactly when none of them does.
abbrev NoErrors : List (Option Invalid) → Type 0
NoErrors [] = Unit
NoErrors (o ∷ os) = (o ≡ none) × NoErrors os

first_error-none : (os : List (Option Invalid)) → first_error os ≡ none → NoErrors os
unfolding first_error
first_error-none [] h = tt
first_error-none (none ∷ os) h = (refl, first_error-none os h)
first_error-none (some e ∷ os) h = cc

check_each-none :
    (check : Text → Option Invalid) (xs : List Text)
    → check_each check xs ≡ none
    → All (λ x. check x ≡ none) xs
unfolding check_each
check_each-none check [] h = tt
check_each-none check (x ∷ xs) h = elim (Option-cases (check x)) [
  | inl z ↦ (z, check_each-none check xs (rw (z, check_each) at h))
  | inr (e, z) ↦ cc (rw (z, check_each) at h)
]

fails_if-none : (b : Bool) (e : Invalid) → fails_if b e ≡ none → b ≡ false
fails_if-none true e h = cc
fails_if-none false e h = refl

module _ (parse_url : Text → Option Url) (parse_prefix : Text → Option Prefix)
    (parse_addr : Text → Option Addr) where
  -- Every entry of the allow list is a prefix that begins in special address space, and none is
  -- lost.
  abbrev pub IsAllowList : List Text → Type 0
  IsAllowList raws =
      All BeginsSpecial (prefixes_of parse_prefix parse_addr raws)
      × (length (prefixes_of parse_prefix parse_addr raws) ≡ length raws)

  check_cidr-none :
      (raw : Text)
      → check_cidr parse_url parse_prefix parse_addr raw ≡ none
      → (p : Prefix) × (parse_cidr_or_ip parse_prefix parse_addr raw ≡ some p) × BeginsSpecial p
  unfolding check_cidr
  check_cidr-none raw h = elim (Option-cases (parse_cidr_or_ip parse_prefix parse_addr raw)) [
    | inl z ↦ cc (rw (z, check_cidr) at h)
    | inr (p, z) ↦ (
      p,
      z,
      is_narrow-BeginsSpecial p
          (narrow p (fails_if-none (not (is_narrow p)) (wide_cidr raw) (rw (z, check_cidr) at h))),
    )
  ]
    where
      narrow : (p : Prefix) → not (is_narrow p) ≡ false → is_narrow p ≡ true
      narrow p k = ground (arith, is_narrow p)

  prefixes_of-IsAllowList :
      (raws : List Text)
      → All (λ raw. check_cidr parse_url parse_prefix parse_addr raw ≡ none) raws
      → IsAllowList raws
  unfolding prefixes_of
  prefixes_of-IsAllowList [] h = (tt, refl)
  prefixes_of-IsAllowList (raw ∷ raws) h =
      let (p, e, n) = check_cidr-none raw h.0 in
      let (a, l) = prefixes_of-IsAllowList raws h.1 in rw (e, prefixes_of) ((n, a), rw l)

  -- What the program relies on in its configuration.
  pub record IsSound (c : Config) : Type 0 where
    pub allow_list : IsAllowList c.fetch.allow_private_cidrs
    pub trusted :
        All
          (λ raw. check_trusted_proxy parse_url parse_prefix parse_addr raw ≡ none)
          c.rate_limit.trusted_proxies
    pub rate : is_negative c.rate_limit.requests_per_minute ≡ false
    pub burst : is_negative c.rate_limit.burst ≡ false
    pub timeout : is_negative c.fetch.timeout ≡ false

  validate-IsSound : (c : Config) → validate parse_url parse_prefix parse_addr c ≡ none → IsSound c
  unfolding validate
  validate-IsSound c h =
      let (_, (t, (a, (r, (b, (p, _)))))) = first_error-none _ h in
      record {
        allow_list =
            prefixes_of-IsAllowList c.fetch.allow_private_cidrs
              (check_each-none (check_cidr parse_url parse_prefix parse_addr) _ a);
        trusted = check_each-none (check_trusted_proxy parse_url parse_prefix parse_addr) _ p;
        rate = fails_if-none _ _ r;
        burst = fails_if-none _ _ b;
        timeout = fails_if-none _ _ t;
      }

-- A number above 0.
abbrev pub IsPositive : ℤ → Type 0
IsPositive (pos zero) = ⊥
IsPositive (pos (suc n)) = Unit
IsPositive (negsuc n) = ⊥

backfill-IsPositive :
    (d k : ℤ) → IsPositive d → is_negative (backfill d k) ≡ false → IsPositive (backfill d k)
backfill-IsPositive d (pos zero) p h = p
backfill-IsPositive d (pos (suc n)) p h = tt
backfill-IsPositive d (negsuc n) p h = cc

module _ (parse_url : Text → Option Url) (parse_prefix : Text → Option Prefix)
    (parse_addr : Text → Option Addr) (env : Text → Text) (parse_duration : Text → Option ℤ)
    (unmarshal : Text → Config → Option Config) where
  -- A configuration with which the server can start, whose timeout and rate limit are above 0.
  pub record IsReady (c : Config) : Type 0 where
    pub sound : IsSound parse_url parse_prefix parse_addr c
    pub timeout : IsPositive c.fetch.timeout
    pub rate : IsPositive c.rate_limit.requests_per_minute
    pub burst : IsPositive c.rate_limit.burst

  backfilled-IsReady :
      (c : Config)
      → validate parse_url parse_prefix parse_addr (backfilled c) ≡ none
      → IsReady (backfilled c)
  backfilled-IsReady c h =
      let v = validate-IsSound parse_url parse_prefix parse_addr (backfilled c) h in
      record {
        sound = v;
        timeout = unfold backfilled in backfill-IsPositive _ c.fetch.timeout tt v.timeout;
        rate =
            unfold backfilled in backfill-IsPositive _ c.rate_limit.requests_per_minute tt v.rate;
        burst = unfold backfilled in backfill-IsPositive _ c.rate_limit.burst tt v.burst;
      }

  finish_load-IsReady :
      (read c : Config)
      → finish_load parse_url parse_prefix parse_addr env parse_duration unmarshal read ≡ loaded c
      → IsReady c
  unfolding finish_load
  finish_load-IsReady read c h =
      elim (Option-cases (validate parse_url parse_prefix parse_addr whole)) [
        | inr (e, z) ↦ cc (rw (z, finish_load) at h)
        | inl z ↦
            subst IsReady (same_config (rw (z, finish_load) at h))
              (backfilled-IsReady (apply_env env parse_duration read) z)
      ]
    where
      whole : Config
      whole = backfilled (apply_env env parse_duration read)

      same_config : loaded whole ≡ loaded c → whole ≡ c
      same_config e = cc

  pub load-IsReady :
      (file : File) (c : Config)
      → load parse_url parse_prefix parse_addr env parse_duration unmarshal file ≡ loaded c
      → IsReady c
  unfolding load
  load-IsReady missing c h = finish_load-IsReady default c h
  load-IsReady unreadable c h = cc
  load-IsReady (contents text) c h = elim (Option-cases (unmarshal text default)) [
    | inl z ↦ cc (rw (z, load) at h)
    | inr (read, z) ↦ finish_load-IsReady read c (rw (z, load) at h)
  ]
