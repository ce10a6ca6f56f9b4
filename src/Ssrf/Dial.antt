-- ===== src/Ssrf/Dial.antt =====
-- `safeDialContext`: what is dialed, and in which order. The dialer is asked by host name or by a
-- resolved address, and gives a connection or fails.
use subconverter_ng.Common.{
  ◌≡◌, inl, inr, Bool, false, ◌||◌, ◌&&◌, not, Option, none, some, List, [], ◌∷◌, Text, same,
  if◌then◌else◌, All, Bool-cases, Option-cases,
}
use subconverter_ng.Ssrf.Policy.{
  Refusal, blocked_ip, lookup_failed, no_address, dial_failed, check_addresses,
  check_addresses-none,
}
use subconverter_ng.Ssrf.{Addr, Prefix, is_blocked_hostname, is_denied_ip}
use subconverter_ng.Strings.{equal_fold}

pub data Target : Type 0 where
  by_name : Text → Text → Target
  by_address : Addr → Text → Target

-- The attempts made, in order, and how the call ends.
pub record Outcome {ℓ} (C : Type ℓ) : Type ℓ where
  pub attempts : List Target
  pub connection : Option C
  pub refusal : Option Refusal

module _ {ℓ} {C : Type ℓ} where
  abbrev pub refused : Refusal → Outcome C
  refused why = record { attempts = []; connection = none; refusal = some why }

  -- One attempt.
  unfoldable pub dial_one : (Target → Option C) → Target → Outcome C
  dial_one dial t = elim (dial t) [
    | some c ↦ record { attempts = t ∷ []; connection = some c; refusal = none }
    | none ↦ record { attempts = t ∷ []; connection = none; refusal = some dial_failed }
  ]

  -- The loop over the checked addresses: until one connects.
  unfoldable pub dial_all : (Target → Option C) → Text → List Addr → Outcome C
  dial_all dial port [] = refused dial_failed
  dial_all dial port (ip ∷ ips) =
      let rest = dial_all dial port ips in
      elim (dial (by_address ip port)) [
        | some c ↦ record {
          attempts = by_address ip port ∷ [];
          connection = some c;
          refusal = none;
        }
        | none ↦ record rest { attempts = by_address ip port ∷ rest.attempts }
      ]

  -- What follows once the addresses of a name are known.
  unfoldable pub dial_resolved :
      (Target → Option C) → List Prefix → Text → Option (List Addr) → Outcome C
  dial_resolved dial allow port none = refused lookup_failed
  dial_resolved dial allow port (some []) = refused no_address
  dial_resolved dial allow port (some (ip ∷ ips)) =
      elim (check_addresses allow blocked_ip (ip ∷ ips)) [
        | some why ↦ refused why
        | none ↦ dial_all dial port (ip ∷ ips)
      ]

  module _ (parse_addr : Text → Option Addr) (resolve : Text → Option (List Addr))
      (dial : Target → Option C) where
    -- A dial of `host:port`; `trusted` is the operator's proxy host, if there is one.
    unfoldable pub safe_dial : Bool → List Prefix → Text → Text → Text → Outcome C
    safe_dial allow_private allow trusted host port =
        if allow_private || (not (same trusted []) && equal_fold host trusted)
        then dial_one dial (by_name host port)
        else if is_blocked_hostname host
        then refused blocked_ip
        else elim (parse_addr host) [
          | some ip ↦
              if is_denied_ip ip false allow
              then refused blocked_ip
              else dial_one dial (by_name host port)
          | none ↦ dial_resolved dial allow port (resolve host)
        ]

    -- What an attempt may be: an address that is not denied, or a host that is itself one.
    abbrev pub IsSafe : List Prefix → Target → Type 0
    IsSafe allow (by_address ip port) = is_denied_ip ip false allow ≡ false
    IsSafe allow (by_name host port) =
        (ip : Addr) × (parse_addr host ≡ some ip) × (is_denied_ip ip false allow ≡ false)

    dial_all-IsSafe :
        (allow : List Prefix) (port : Text) (ips : List Addr)
        → All (λ ip. is_denied_ip ip false allow ≡ false) ips
        → All (IsSafe allow) (dial_all dial port ips).attempts
    unfolding dial_all
    dial_all-IsSafe allow port [] h = tt
    dial_all-IsSafe allow port (ip ∷ ips) h = elim (Option-cases (dial (by_address ip port))) [
      | inl z ↦ rw (z, All) (h.0, dial_all-IsSafe allow port ips h.1)
      | inr (c, z) ↦ rw (z, All) (h.0, tt)
    ]

    dial_one-IsSafe :
        (allow : List Prefix) (t : Target)
        → IsSafe allow t
        → All (IsSafe allow) (dial_one dial t).attempts
    unfolding dial_one
    dial_one-IsSafe allow t h = elim (Option-cases (dial t)) [
      | inl z ↦ rw (z, All) (h, tt)
      | inr (c, z) ↦ rw (z, All) (h, tt)
    ]

    dial_resolved-IsSafe :
        (allow : List Prefix) (port : Text) (o : Option (List Addr))
        → All (IsSafe allow) (dial_resolved dial allow port o).attempts
    unfolding dial_resolved
    dial_resolved-IsSafe allow port none = tt
    dial_resolved-IsSafe allow port (some []) = tt
    dial_resolved-IsSafe allow port (some (ip ∷ ips)) =
        elim (Option-cases (check_addresses allow blocked_ip (ip ∷ ips))) [
          | inr (why, z) ↦ rw (z, All) tt
          | inl z ↦
              rw (z, All)
                (dial_all-IsSafe allow port (ip ∷ ips)
                  (check_addresses-none allow blocked_ip (ip ∷ ips) z))
        ]

    -- While private addresses are not allowed, a dial of any host but the trusted proxy attempts
    -- only addresses that are not denied and hosts that are themselves such an address, whatever
    -- the resolver answers.
    pub safe_dial-IsSafe :
        (allow : List Prefix) (trusted host port : Text)
        → (not (same trusted []) && equal_fold host trusted) ≡ false
        → All (IsSafe allow) (safe_dial false allow trusted host port).attempts
    unfolding safe_dial
    safe_dial-IsSafe allow trusted host port other = elim (Bool-cases (is_blocked_hostname host)) [
      | inl t ↦ rw (other, t) tt
      | inr f ↦ elim (Option-cases (parse_addr host)) [
        | inl z ↦ rw (other, f, z) (dial_resolved-IsSafe allow port (resolve host))
        | inr (ip, z) ↦ elim (Bool-cases (is_denied_ip ip false allow)) [
          | inl d ↦ rw (other, f, z, d) tt
          | inr d ↦ rw (other, f, z, d) (dial_one-IsSafe allow (by_name host port) (ip, z, d))
        ]
      ]
    ]
