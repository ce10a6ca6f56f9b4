-- ===== src/Ssrf/Policy.antt =====
-- `validateURLWithSchemes` and the redirect check. A URL is what `url.Parse` makes of it.
use subconverter_ng.Common.{
  ℕ, ◌<◌, arith, ◌≡◌, ◌⊎◌, inl, inr, Bool, true, false, ◌&&◌, not, All, Option, none, some, List,
  [], ◌∷◌, Text, codes, same, has, leb, if◌then◌else◌, Bool-cases, Option-cases,
}
use subconverter_ng.Ssrf.{Addr, Prefix, is_blocked_hostname, is_denied_ip}
use subconverter_ng.Strings.{to_lower}
use subconverter_ng.Urls.{Url}

-- Why a request is refused, beside the messages.
pub data Refusal : Type 0 where
  invalid_url unsupported_scheme missing_host blocked_ip blocked_redirect : Refusal
  too_many_redirects lookup_failed no_address dial_failed : Refusal

-- The refusal of a host by its name or, if it is written as an address, by its number.
unfoldable pub check_host : (Text → Option Addr) → List Prefix → Refusal → Text → Option Refusal
check_host parse_addr allow why host =
    if is_blocked_hostname host then some why else elim (parse_addr host) [
      | none ↦ none
      | some ip ↦ if is_denied_ip ip false allow then some why else none
    ]

-- The checks of `validateURLWithSchemes` behind `url.Parse`.
unfoldable pub check_url : (Text → Option Addr) → List Prefix → List Text → Url → Option Refusal
check_url parse_addr allow schemes u =
    if not (has schemes (to_lower u.scheme))
    then some unsupported_scheme
    else if same u.hostname []
    then some missing_host
    else check_host parse_addr allow blocked_ip u.hostname

-- `none` where the URL is let through.
unfoldable pub validate_url :
    (Text → Option Url)
    → (Text → Option Addr)
    → Text
    → Bool
    → List Prefix
    → List Text
    → Option Refusal
validate_url parse_url parse_addr raw allow_private allow schemes =
    if allow_private then none else elim (parse_url raw) [
      | none ↦ some invalid_url
      | some u ↦ check_url parse_addr allow schemes u
    ]

module _ (parse_addr : Text → Option Addr) (allow : List Prefix) where
  -- A host that no policy blocks by itself: no internal name, and no denied address.
  pub record IsOpenHost (host : Text) : Type 0 where
    pub open_name : is_blocked_hostname host ≡ false
    pub open_address : (ip : Addr) → parse_addr host ≡ some ip → is_denied_ip ip false allow ≡ false

  pub check_host-none :
      (why : Refusal) (host : Text) → check_host parse_addr allow why host ≡ none → IsOpenHost host
  unfolding check_host
  check_host-none why host h = elim (Bool-cases (is_blocked_hostname host)) [
    | inl t ↦ cc (rw t at h)
    | inr f ↦ record {
      open_name = f;
      open_address =
          λ ip e. address ip e (rw (f, e) at h) (Bool-cases (is_denied_ip ip false allow));
    }
  ]
    where
      address :
          (ip : Addr)
          → parse_addr host ≡ some ip
          → (if is_denied_ip ip false allow then some why else none) ≡ none
          → (is_denied_ip ip false allow ≡ true) ⊎ (is_denied_ip ip false allow ≡ false)
          → is_denied_ip ip false allow ≡ false
      address ip e k (inl t) = cc (rw t at k)
      address ip e k (inr f) = f

-- The refusal of the first denied address, if there is one.
unfoldable pub check_addresses : List Prefix → Refusal → List Addr → Option Refusal
check_addresses allow why [] = none
check_addresses allow why (ip ∷ ips) =
    let rest = check_addresses allow why ips in
    if is_denied_ip ip false allow then some why else rest

pub check_addresses-none :
    (allow : List Prefix) (why : Refusal) (ips : List Addr)
    → check_addresses allow why ips ≡ none
    → All (λ ip. is_denied_ip ip false allow ≡ false) ips
unfolding check_addresses
check_addresses-none allow why [] h = tt
check_addresses-none allow why (ip ∷ ips) h = elim (Bool-cases (is_denied_ip ip false allow)) [
  | inl t ↦ cc (rw t at h)
  | inr f ↦ (f, check_addresses-none allow why ips (rw f at h))
]

-- `safeCheckRedirect`: `via` is the number of requests made so far, and `resolve` the resolver.
unfoldable pub check_redirect :
    (Text → Option Addr)
    → (Text → Option (List Addr))
    → Bool
    → List Prefix
    → ℕ
    → Url
    → Option Refusal
check_redirect parse_addr resolve allow_private allow via u =
    let scheme = to_lower u.scheme in
    if leb 10 via
    then some too_many_redirects
    else if allow_private
    then none
    else if not (same scheme (codes "http")) && not (same scheme (codes "https"))
    then some blocked_redirect
    else if is_blocked_hostname u.hostname
    then some blocked_redirect
    else elim (parse_addr u.hostname) [
      | some ip ↦ if is_denied_ip ip false allow then some blocked_redirect else none
      | none ↦ elim (resolve u.hostname) [
        | none ↦ some lookup_failed
        | some ips ↦ check_addresses allow blocked_redirect ips
      ]
    ]

module _ (parse_addr : Text → Option Addr) (resolve : Text → Option (List Addr))
    (allow : List Prefix) where
  -- What the resolver gives for a host that is no address: addresses that are not denied.
  abbrev pub IsOpenName : Text → Type 0
  IsOpenName host =
      (parse_addr host ≡ none)
      → (ips : List Addr) × (resolve host ≡ some ips)
        × All (λ ip. is_denied_ip ip false allow ≡ false) ips

  -- A redirect is followed, while private addresses are not allowed, only below the tenth request
  -- and to a host that no policy blocks; and if the host is a name, it resolves, and to addresses
  -- that are not denied.
  pub check_redirect-none :
      (via : ℕ) (u : Url)
      → check_redirect parse_addr resolve false allow via u ≡ none
      → (via < 10) × IsOpenHost parse_addr allow u.hostname × IsOpenName u.hostname
  unfolding check_redirect
  check_redirect-none via u h = elim (Bool-cases (leb 10 via)) [
    | inl t ↦ cc (rw t at h)
    | inr f ↦
        elim (Bool-cases (
          not (same (to_lower u.scheme) (codes "http"))
          && not (same (to_lower u.scheme) (codes "https")))) [
            | inl t ↦ cc (rw (f, t) at h)
            | inr g ↦ elim (Bool-cases (is_blocked_hostname u.hostname)) [
              | inl t ↦ cc (rw (f, g, t) at h)
              | inr n ↦ elim (Option-cases (parse_addr u.hostname)) [
                | inr (ip, z) ↦ elim (Bool-cases (is_denied_ip ip false allow)) [
                  | inl t ↦ cc (rw (f, g, n, z, t) at h)
                  | inr d ↦
                      (ground arith, record { open_name = n; open_address = λ a e. cc }, λ e. cc)
                ]
                | inl z ↦ elim (Option-cases (resolve u.hostname)) [
                  | inl r ↦ cc (rw (f, g, n, z, r) at h)
                  | inr (ips, r) ↦ (
                    ground arith,
                    record { open_name = n; open_address = λ a e. cc },
                    λ e. (
                      ips,
                      r,
                      check_addresses-none allow blocked_redirect ips (rw (f, g, n, z, r) at h),
                    ),
                  )
                ]
              ]
            ]
          ]
  ]
