-- ===== src/Server/Client.antt =====
-- Whom the server takes for the client of a request.
use subconverter_ng.Common.{
  ◌≡◌, ◌≢◌, inl, inr, true, Option, some, List, [], ◌∷◌, Text, ◌⊎◌, Bool-cases, Option-cases,
}
use subconverter_ng.Server.{
  Server, Request, same_addr, any_addr, any_prefix, is_trusted_proxy, remote_host, client_ip,
}
use subconverter_ng.Ssrf.{Addr, Prefix, contains, unmap}

-- Some entry of a list has a property.
abbrev pub Any {ℓ} : {A : Type ℓ} → (A → Type 0) → List A → Type 0
Any P [] = ⊥
Any P (x ∷ xs) = P x ⊎ Any P xs

-- The address is one of the trusted, or lies in one of the trusted prefixes.
abbrev pub IsTrusted : Server → Addr → Type 0
IsTrusted s a =
    Any (λ ip. same_addr (unmap ip) (unmap a) ≡ true) s.trusted_ips
    ⊎ Any (λ cidr. contains cidr (unmap a) ≡ true) s.trusted_cidrs

any_addr-Any :
    (ips : List Addr) (a : Addr)
    → any_addr ips a ≡ true
    → Any (λ ip. same_addr (unmap ip) a ≡ true) ips
unfolding any_addr
any_addr-Any [] a h = cc
any_addr-Any (ip ∷ ips) a h = elim (Bool-cases (same_addr (unmap ip) a)) [
  | inl t ↦ inl t
  | inr f ↦ inr (any_addr-Any ips a (rw f at h))
]

any_prefix-Any :
    (cidrs : List Prefix) (a : Addr)
    → any_prefix cidrs a ≡ true
    → Any (λ cidr. contains cidr a ≡ true) cidrs
unfolding any_prefix
any_prefix-Any [] a h = cc
any_prefix-Any (cidr ∷ cidrs) a h = elim (Bool-cases (contains cidr a)) [
  | inl t ↦ inl t
  | inr f ↦ inr (any_prefix-Any cidrs a (rw f at h))
]

is_trusted_proxy-IsTrusted :
    (parse_addr : Text → Option Addr) (s : Server) (host : Text)
    → is_trusted_proxy parse_addr s host ≡ true
    → (a : Addr) × (parse_addr host ≡ some a) × IsTrusted s a
unfolding is_trusted_proxy
is_trusted_proxy-IsTrusted parse_addr s host h = elim (Option-cases (parse_addr host)) [
  | inl z ↦ cc (rw (z, is_trusted_proxy) at h)
  | inr (a, z) ↦ (
    a,
    z,
    elim (Bool-cases (any_addr s.trusted_ips (unmap a))) [
      | inl t ↦ inl (any_addr-Any s.trusted_ips (unmap a) t)
      | inr f ↦ inr (any_prefix-Any s.trusted_cidrs (unmap a) (rw (z, is_trusted_proxy, f) at h))
    ],
  )
]

module _ (split_host_port : Text → Option Text) (parse_addr : Text → Option Addr) where
  -- A request whose client is not taken to be the host that it comes from comes from a trusted
  -- proxy: the host is an address that the configuration trusts, by itself or by a prefix. So the
  -- headers of any other request are ignored.
  pub client_ip-IsTrusted :
      (s : Server) (r : Request)
      → client_ip split_host_port parse_addr s r ≢ remote_host split_host_port parse_addr r
      → (a : Addr) × (parse_addr (remote_host split_host_port parse_addr r) ≡ some a)
        × IsTrusted s a
  unfolding client_ip
  client_ip-IsTrusted s r n = elim (Bool-cases (is_trusted_proxy parse_addr s host)) [
    | inl t ↦ is_trusted_proxy-IsTrusted parse_addr s host t
    | inr f ↦ absurd (n (rw f))
  ]
    where
      host : Text
      host = remote_host split_host_port parse_addr r
