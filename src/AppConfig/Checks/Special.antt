-- ===== src/AppConfig/Checks/Special.antt =====
-- What the allow list of private prefixes holds, the IPv4 part as ranges of numbers.
use subconverter_ng.AppConfig.Checks.{is_narrow}
use subconverter_ng.AppConfig.{is_special_addr, is_special_unmapped}
use subconverter_ng.Common.{
  ℕ, ◌≤◌, ◌≡◌, refl, sym, ◌∙◌, ◌⊎◌, inl, inr, Bool, true, false, ◌||◌, List, [], ◌∷◌, ◌/◌, ◌^◌,
  ◌==◌, arith, Bool-cases,
}
use subconverter_ng.Ssrf.Ranges.{
  within, in_ranges, block24, block20, block16, block28, prefix22, prefix28, or,
}
use subconverter_ng.Ssrf.{
  v4, v6, Prefix, unmap, is_loopback, is_private, is_link_local_unicast, is_link_local_multicast,
  is_interface_local_multicast, is_multicast, is_unspecified, contains,
}

-- The IPv4 ranges in which a prefix may begin: loopback, the private networks, link-local,
-- multicast, the unspecified address, those of carriers, and the reserved ones.
abbrev pub special_ranges : List (ℕ × ℕ)
special_ranges =
    (0x7F000000, 0x7FFFFFFF)
    ∷ (0x0A000000, 0x0AFFFFFF)
    ∷ (0xAC100000, 0xAC1FFFFF)
    ∷ (0xC0A80000, 0xC0A8FFFF)
    ∷ (0xA9FE0000, 0xA9FEFFFF)
    ∷ (0xE0000000, 0xEFFFFFFF)
    ∷ (0x00000000, 0x00000000)
    ∷ (0x64400000, 0x647FFFFF)
    ∷ (0xF0000000, 0xFFFFFFFF)
    ∷ []

chain :
    (a b c d e f g h i j : Bool)
    → (f ≡ true → g ≡ true)
    → (a || (b || c || d) || e || f || false || g || h || i || j)
      ≡ (a || (b || (c || (d || (e || (g || (h || (i || (j || false)))))))))
chain a b c d e f g h i j x = ground arith

only_zero : (x : ℕ) → (x == 0) ≡ within 0 0 x
only_zero x = ground arith

pub is_special_addr-in_ranges : (x : ℕ) → is_special_addr (v4 x) ≡ in_ranges special_ranges x
unfolding is_special_addr is_special_unmapped unmap in_ranges is_loopback is_private
    is_link_local_unicast is_link_local_multicast is_interface_local_multicast is_multicast
    is_unspecified contains
is_special_addr-in_ranges x =
    chain (x / 2 ^ 24 == 127) (x / 2 ^ 24 == 10) (x / 2 ^ 20 == 0xAC1) (x / 2 ^ 16 == 0xC0A8)
      (x / 2 ^ 16 == 0xA9FE) (x / 2 ^ 8 == 0xE00000) (x / 2 ^ 28 == 0xE) (x == 0)
      (0x191 == x / 2 ^ 22) (0xF == x / 2 ^ 28) (λ t. ground arith)
    ∙ or (block24 127 x) (
        or (block24 10 x) (
          or (block20 0xAC1 x) (
            or (block16 0xC0A8 x) (
              or (block16 0xA9FE x) (
                or (block28 0xE x) (
                  or (only_zero x)
                    (or (prefix22 0x191 x) (or (prefix28 0xF x) (refl {a = false})))))))))

-- An IPv4 prefix of 8 bits or more that begins in one of the ranges, or an IPv6 prefix of 16 bits
-- or more whose first address the program takes for special.
abbrev pub BeginsSpecial : Prefix → Type 0
BeginsSpecial p =
    ((p.is_v4 ≡ true) × (8 ≤ p.bits) × (in_ranges special_ranges p.base ≡ true))
    ⊎ ((p.is_v4 ≡ false) × (16 ≤ p.bits) × (is_special_addr (v6 p.base []) ≡ true))

pub is_narrow-BeginsSpecial : (p : Prefix) → is_narrow p ≡ true → BeginsSpecial p
unfolding is_narrow
is_narrow-BeginsSpecial p h = elim (Bool-cases p.is_v4) [
  | inl t ↦
      let k = rw (t, is_narrow) at h in
      inl (t, ground (arith, k), sym (is_special_addr-in_ranges p.base) ∙ ground (arith, k))
  | inr f ↦ let k = rw (f, is_narrow) at h in inr (f, ground (arith, k), ground (arith, k))
]
