-- ===== src/Ssrf.antt =====
-- internal/fetch/ssrf.go: the defence against requests to internal addresses.
--
-- An address is a number below 2^32 or 2^128, an IPv6 one with its zone. The predicates of
-- `net/netip` are written out on these numbers. `url.Parse`, `netip.ParseAddr`, the resolver and
-- the dialer are arguments.
pub mod Ranges
pub mod Policy
pub mod Dial
use subconverter_ng.Common.{
  ℕ, ◌+◌, ◌-◌, ◌*◌, ◌/◌, ◌%◌, ◌^◌, Bool, true, false, not, ◌&&◌, ◌||◌, Option, none, some, List, [],
  ◌∷◌, Text, codes, same, has, ltb, ◌==◌, if◌then◌else◌,
}
use subconverter_ng.Strings.{to_lower, trim_space, has_suffix, trim_suffix, equal_fold}

-- `netip.Addr`.
pub data Addr : Type 0 where
  invalid : Addr
  v4 : ℕ → Addr
  v6 : ℕ → Text → Addr

-- `netip.Prefix`: whether it is of IPv4, its address and its length.
pub record Prefix : Type 0 where
  pub is_v4 : Bool
  pub base : ℕ
  pub bits : ℕ

-- `Addr.Unmap`: an IPv4-mapped address as the IPv4 one.
unfoldable pub unmap : Addr → Addr
unmap invalid = invalid
unmap (v4 x) = v4 x
unmap (v6 x zone) = if x / 2 ^ 32 == 0xFFFF then v4 (x % 2 ^ 32) else v6 x zone

-- `Prefix.Contains`: never for an address with a zone.
unfoldable pub contains : Prefix → Addr → Bool
unfolding same
contains p invalid = false
contains p (v4 x) = p.is_v4 && p.base / 2 ^ (32 - p.bits) == x / 2 ^ (32 - p.bits)
contains p (v6 x zone) =
    not p.is_v4 && same zone [] && p.base / 2 ^ (128 - p.bits) == x / 2 ^ (128 - p.bits)

unfoldable pub is_loopback : Addr → Bool
is_loopback invalid = false
is_loopback (v4 x) = x / 2 ^ 24 == 127
is_loopback (v6 x zone) = x == 1

unfoldable pub is_private : Addr → Bool
is_private invalid = false
is_private (v4 x) = x / 2 ^ 24 == 10 || x / 2 ^ 20 == 0xAC1 || x / 2 ^ 16 == 0xC0A8
is_private (v6 x zone) = x / 2 ^ 121 == 0x7E

unfoldable pub is_link_local_unicast : Addr → Bool
is_link_local_unicast invalid = false
is_link_local_unicast (v4 x) = x / 2 ^ 16 == 0xA9FE
is_link_local_unicast (v6 x zone) = x / 2 ^ 118 == 0x3FA

-- The first 16 bits without the four of the flags.
unfoldable pub multicast_scope : ℕ → ℕ
multicast_scope x = (x / 2 ^ 120) * 16 + x / 2 ^ 112 % 16

unfoldable pub is_link_local_multicast : Addr → Bool
unfolding multicast_scope
is_link_local_multicast invalid = false
is_link_local_multicast (v4 x) = x / 2 ^ 8 == 0xE00000
is_link_local_multicast (v6 x zone) = multicast_scope x == 0xFF2

unfoldable pub is_interface_local_multicast : Addr → Bool
unfolding multicast_scope
is_interface_local_multicast invalid = false
is_interface_local_multicast (v4 x) = false
is_interface_local_multicast (v6 x zone) = multicast_scope x == 0xFF1

unfoldable pub is_multicast : Addr → Bool
is_multicast invalid = false
is_multicast (v4 x) = x / 2 ^ 28 == 0xE
is_multicast (v6 x zone) = x / 2 ^ 120 == 0xFF

unfoldable pub is_unspecified : Addr → Bool
unfolding same
is_unspecified invalid = false
is_unspecified (v4 x) = x == 0
is_unspecified (v6 x zone) = x == 0 && same zone []

abbrev pub v4_prefix : ℕ → ℕ → Prefix
v4_prefix base bits = record { is_v4 = true; base = base; bits = bits }

abbrev pub v6_prefix : ℕ → ℕ → Prefix
v6_prefix base bits = record { is_v4 = false; base = base; bits = bits }

-- The prefixes of the file, by their names.
abbrev pub cgnat_prefix : Prefix
cgnat_prefix = v4_prefix 0x64400000 10

abbrev pub this_host_prefix : Prefix
this_host_prefix = v4_prefix 0 8

abbrev pub reserved_prefix : Prefix
reserved_prefix = v4_prefix 0xF0000000 4

abbrev pub ietf_prefix : Prefix
ietf_prefix = v4_prefix 0xC0000000 24

abbrev pub testnet1_prefix : Prefix
testnet1_prefix = v4_prefix 0xC0000200 24

abbrev pub bench_prefix : Prefix
bench_prefix = v4_prefix 0xC6120000 15

abbrev pub testnet2_prefix : Prefix
testnet2_prefix = v4_prefix 0xC6336400 24

abbrev pub testnet3_prefix : Prefix
testnet3_prefix = v4_prefix 0xCB007100 24

abbrev pub ipv6_doc_prefix : Prefix
ipv6_doc_prefix = v6_prefix 0x20010DB8000000000000000000000000 32

abbrev pub ipv6_discard_prefix : Prefix
ipv6_discard_prefix = v6_prefix 0x01000000000000000000000000000000 64

abbrev pub is_broadcast : Addr → Bool
is_broadcast invalid = false
is_broadcast (v4 x) = x == 0xFFFFFFFF
is_broadcast (v6 x zone) = false

-- The tests behind `Unmap`, in the order of the source.
unfoldable pub is_special : Addr → Bool
unfolding is_loopback is_private is_link_local_unicast is_link_local_multicast
    is_interface_local_multicast is_multicast is_unspecified contains
is_special addr =
    is_loopback addr
    || is_private addr
    || is_link_local_unicast addr
    || is_link_local_multicast addr
    || is_interface_local_multicast addr
    || is_multicast addr
    || is_unspecified addr
    || is_broadcast addr
    || contains this_host_prefix addr
    || contains cgnat_prefix addr
    || contains reserved_prefix addr
    || contains ietf_prefix addr
    || contains testnet1_prefix addr
    || contains bench_prefix addr
    || contains testnet2_prefix addr
    || contains testnet3_prefix addr
    || contains ipv6_doc_prefix addr
    || contains ipv6_discard_prefix addr

unfoldable pub is_blocked_ip : Addr → Bool
unfolding unmap is_special
is_blocked_ip addr = elim (unmap addr) [
  | invalid ↦ true
  | v4 x ↦ is_special (v4 x)
  | v6 x z ↦ is_special (v6 x z)
]

unfoldable pub is_blocked_hostname : Text → Bool
unfolding to_lower trim_suffix trim_space same has_suffix
is_blocked_hostname host =
    let h = to_lower (trim_suffix (trim_space host) (codes ".")) in
    same h (codes "localhost")
    || has_suffix h (codes ".localhost")
    || has_suffix h (codes ".local")
    || has_suffix h (codes ".internal")
    || has_suffix h (codes ".lan")
    || has_suffix h (codes ".home.arpa")

-- The loop over the operator's prefixes.
unfoldable pub any_contains : List Prefix → Addr → Bool
unfolding contains
any_contains [] addr = false
any_contains (p ∷ ps) addr = contains p addr || any_contains ps addr

unfoldable pub is_denied_ip : Addr → Bool → List Prefix → Bool
unfolding is_blocked_ip unmap any_contains
is_denied_ip addr allow_private allow =
    if allow_private
    then false
    else if not (is_blocked_ip addr)
    then false
    else not (any_contains allow (unmap addr))
