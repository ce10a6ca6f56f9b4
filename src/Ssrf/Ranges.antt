-- ===== src/Ssrf/Ranges.antt =====
-- The blocked addresses as ranges, independently of how the source tests for them.
use subconverter_ng.Common.{
  ℕ, ◌+◌, ◌*◌, ◌/◌, ◌%◌, ◌^◌, ◌<◌, ◌≡◌, refl, ◌∙◌, Bool, true, false, ◌&&◌, ◌||◌, List, [], ◌∷◌,
  Text, leb, ◌==◌, ==_iff, ap, arith,
}
use subconverter_ng.Ssrf.{Addr, v4, v6, unmap, is_special, is_blocked_ip}

abbrev pub within : ℕ → ℕ → ℕ → Bool
within lo hi x = leb lo x && leb x hi

unfoldable pub in_ranges : List (ℕ × ℕ) → ℕ → Bool
in_ranges [] x = false
in_ranges ((lo, hi) ∷ rs) x = within lo hi x || in_ranges rs x

-- The IPv4 ranges that are not of the public internet, from the first address to the last.
abbrev pub internal_ranges : List (ℕ × ℕ)
internal_ranges =
    (0x7F000000, 0x7FFFFFFF)
    ∷ (0x0A000000, 0x0AFFFFFF)
    ∷ (0xAC100000, 0xAC1FFFFF)
    ∷ (0xC0A80000, 0xC0A8FFFF)
    ∷ (0xA9FE0000, 0xA9FEFFFF)
    ∷ (0xE0000000, 0xEFFFFFFF)
    ∷ (0x00000000, 0x00FFFFFF)
    ∷ (0x64400000, 0x647FFFFF)
    ∷ (0xF0000000, 0xFFFFFFFF)
    ∷ (0xC0000000, 0xC00000FF)
    ∷ (0xC0000200, 0xC00002FF)
    ∷ (0xC6120000, 0xC613FFFF)
    ∷ (0xC6336400, 0xC63364FF)
    ∷ (0xCB007100, 0xCB0071FF)
    ∷ []

-- The addresses of one prefix are those from its first to its last.
pub block24 : (k x : ℕ) → (x / 2 ^ 24 == k) ≡ within (k * 2 ^ 24) (k * 2 ^ 24 + 0xFFFFFF) x
block24 k x = ground arith

pub block16 : (k x : ℕ) → (x / 2 ^ 16 == k) ≡ within (k * 2 ^ 16) (k * 2 ^ 16 + 0xFFFF) x
block16 k x = ground arith

pub block20 : (k x : ℕ) → (x / 2 ^ 20 == k) ≡ within (k * 2 ^ 20) (k * 2 ^ 20 + 0xFFFFF) x
block20 k x = ground arith

pub block28 : (k x : ℕ) → (x / 2 ^ 28 == k) ≡ within (k * 2 ^ 28) (k * 2 ^ 28 + 0xFFFFFFF) x
block28 k x = ground arith

prefix8 : (k x : ℕ) → (k == x / 2 ^ 8) ≡ within (k * 2 ^ 8) (k * 2 ^ 8 + 0xFF) x
prefix8 k x = ground arith

prefix17 : (k x : ℕ) → (k == x / 2 ^ 17) ≡ within (k * 2 ^ 17) (k * 2 ^ 17 + 0x1FFFF) x
prefix17 k x = ground arith

pub prefix22 : (k x : ℕ) → (k == x / 2 ^ 22) ≡ within (k * 2 ^ 22) (k * 2 ^ 22 + 0x3FFFFF) x
prefix22 k x = ground arith

prefix24 : (k x : ℕ) → (k == x / 2 ^ 24) ≡ within (k * 2 ^ 24) (k * 2 ^ 24 + 0xFFFFFF) x
prefix24 k x = ground arith

pub prefix28 : (k x : ℕ) → (k == x / 2 ^ 28) ≡ within (k * 2 ^ 28) (k * 2 ^ 28 + 0xFFFFFFF) x
prefix28 k x = ground arith

-- The tests of the source against those of the table: three of them are parts of others.
chain :
    (a b c d e f g h i j k l m n o p q : Bool)
    → (f ≡ true → g ≡ true)
    → (h ≡ true → j ≡ true)
    → (i ≡ true → l ≡ true)
    → (a
        || (b || c || d)
        || e
        || f
        || false
        || g
        || h
        || i
        || j
        || k
        || l
        || m
        || n
        || o
        || p
        || q
        || false
        || false)
      ≡ (a
          || (b
              || (c
                  || (d
                      || (e
                          || (g
                              || (j || (k || (l || (m || (n || (o || (p || (q || false))))))))))))))
chain a b c d e f g h i j k l m n o p q x y z = ground arith

pub or : {a b c d : Bool} → a ≡ b → c ≡ d → (a || c) ≡ (b || d)
or p q = cc

-- An IPv4 address is special to the source exactly when it lies in one of the ranges.
is_special-in_ranges : (x : ℕ) → is_special (v4 x) ≡ in_ranges internal_ranges x
unfolding is_special in_ranges
is_special-in_ranges x =
    chain (x / 2 ^ 24 == 127) (x / 2 ^ 24 == 10) (x / 2 ^ 20 == 0xAC1) (x / 2 ^ 16 == 0xC0A8)
      (x / 2 ^ 16 == 0xA9FE) (x / 2 ^ 8 == 0xE00000) (x / 2 ^ 28 == 0xE) (x == 0) (x == 0xFFFFFFFF)
      (0 == x / 2 ^ 24) (0x191 == x / 2 ^ 22) (0xF == x / 2 ^ 28) (0xC00000 == x / 2 ^ 8)
      (0xC00002 == x / 2 ^ 8) (0x6309 == x / 2 ^ 17) (0xC63364 == x / 2 ^ 8) (0xCB0071 == x / 2 ^ 8)
      (λ t. ground arith) (λ t. ground arith) (λ t. ground arith)
    ∙ (or (block24 127 x) (
        or (block24 10 x) (
          or (block20 0xAC1 x) (
            or (block16 0xC0A8 x) (
              or (block16 0xA9FE x) (
                or (block28 0xE x) (
                  or (prefix24 0 x) (
                    or (prefix22 0x191 x) (
                      or (prefix28 0xF x) (
                        or (prefix8 0xC00000 x) (
                          or (prefix8 0xC00002 x) (
                            or (prefix17 0x6309 x) (
                              or (prefix8 0xC63364 x)
                                (or (prefix8 0xCB0071 x) (refl {a = false})))))))))))))))

blocked_unmap : (a : Addr) (x : ℕ) → unmap a ≡ v4 x → is_blocked_ip a ≡ is_special (v4 x)
unfolding is_blocked_ip
blocked_unmap a x e = rw (e, is_blocked_ip)

unmap_mapped : (x : ℕ) (zone : Text) → x < 2 ^ 32 → unmap (v6 (0xFFFF * 2 ^ 32 + x) zone) ≡ v4 x
unfolding unmap
unmap_mapped x zone h =
    rw ((==_iff ((0xFFFF * 2 ^ 32 + x) / 2 ^ 32) 0xFFFF).1 (omega arith)) (ap v4 low)
  where
    low : (0xFFFF * 2 ^ 32 + x) % 2 ^ 32 ≡ x
    low = omega arith

blocked_mapped :
    (x : ℕ) (zone : Text)
    → x < 2 ^ 32
    → is_blocked_ip (v6 (0xFFFF * 2 ^ 32 + x) zone) ≡ is_special (v4 x)
blocked_mapped x zone h = blocked_unmap (v6 (0xFFFF * 2 ^ 32 + x) zone) x (unmap_mapped x zone h)

-- An IPv4 address is blocked exactly when it lies in one of the ranges, whether it is written as
-- an IPv4 address or mapped into IPv6, with a zone or without.
pub is_blocked_ip-in_ranges :
    (x : ℕ) (zone : Text)
    → x < 2 ^ 32
    → (is_blocked_ip (v4 x) ≡ in_ranges internal_ranges x)
      × (is_blocked_ip (v6 (0xFFFF * 2 ^ 32 + x) zone) ≡ in_ranges internal_ranges x)
is_blocked_ip-in_ranges x zone h = (
  unfold is_blocked_ip in is_special-in_ranges x,
  blocked_mapped x zone h ∙ is_special-in_ranges x,
)
