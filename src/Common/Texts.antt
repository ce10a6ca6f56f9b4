-- ===== src/Common/Texts.antt =====
-- A Go string as its list of code points, equality of texts, and sets of texts as lists.
use Prim.Native.Nat.{ℕ, suc, ◌≤◌}
use Prim.Native.Char.{code}
use Prim.Native.String.{String}
use mathlib.Core.Path.{◌≡◌, ◌∙◌, refl}
use mathlib.Core.Logic.{◌↔◌, ◌≢◌, inl, inr}
use mathlib.Core.Bool.{Bool, true, false, ◌&&◌, ◌||◌}
use mathlib.Core.List.{List, [], ◌∷◌, ◌++◌}
use native.Mathlib.Omega.{arith}
use subconverter_ng.Common.Tests.{if◌then◌else◌, ◌==◌, Bool-cases}
use subconverter_ng.Common.Lists.{length}

abbrev pub Text : Type 0
Text = List ℕ

-- The code points of a literal.
abbrev pub codes : String → Text
codes String.[] = []
codes (String.◌∷◌ c s) = code c ∷ codes s

-- `a == b` on strings.
unfoldable pub same : Text → Text → Bool
same [] [] = true
same (x ∷ a) (y ∷ b) = x == y && same a b
same _ _ = false

pub same_iff : (a b : Text) → (same a b ≡ true) ↔ (a ≡ b)
unfolding same
same_iff [] [] = ground arith
same_iff (x ∷ a) (y ∷ b) = ground (arith, same_iff a b)
same_iff [] (y ∷ b) = ground arith
same_iff (x ∷ a) [] = ground arith

pub same_self : (a : Text) → same a a ≡ true
same_self a = (same_iff a a).1 refl

pub same_comm : (a b : Text) → same a b ≡ same b a
unfolding same
same_comm [] [] = refl
same_comm (x ∷ a) (y ∷ b) = ground (arith, same_comm a b)
same_comm [] (y ∷ b) = refl
same_comm (x ∷ a) [] = refl

-- Whether a set of strings, kept as a list, holds `x`.
unfoldable pub has : List Text → Text → Bool
unfolding same
has [] x = false
has (y ∷ ys) x = same y x || has ys x

-- No text stands twice.
abbrev pub Distinct : List Text → Type 0
Distinct [] = Unit
Distinct (x ∷ xs) = (has xs x ≡ false) × Distinct xs

pub has-append : (xs ys : List Text) (x : Text) → has (xs ++ ys) x ≡ (has xs x || has ys x)
unfolding has
has-append [] ys x = refl
has-append (y ∷ xs) ys x = ground (arith, has-append xs ys x)

-- Removes the first occurrence.
remove : Text → List Text → List Text
remove x [] = []
remove x (y ∷ ys) = if same y x then ys else y ∷ remove x ys

has-remove : (x z : Text) (ys : List Text) → has ys z ≡ true → x ≢ z → has (remove x ys) z ≡ true
unfolding has remove
has-remove x z [] h n = h
has-remove x z (y ∷ ys) h n = ground (arith, same_iff y x, same_iff y z, has-remove x z ys)

length-remove :
    (x : Text) (ys : List Text) → has ys x ≡ true → suc (length (remove x ys)) ≡ length ys
unfolding has remove
length-remove x [] h = ground arith
length-remove x (y ∷ ys) h = ground (arith, length-remove x ys)

-- Every text of the first list is in the second.
abbrev pub Within : List Text → List Text → Type 0
Within [] ys = Unit
Within (x ∷ xs) ys = (has ys x ≡ true) × Within xs ys

Within-remove :
    (x : Text) (xs ys : List Text) → has xs x ≡ false → Within xs ys → Within xs (remove x ys)
unfolding has
Within-remove x [] ys d w = tt
Within-remove x (z ∷ xs) ys d w =
    let ne : x ≢ z = ground (arith, same_iff z x) in
    (has-remove x z ys w.0 ne, Within-remove x xs ys (ground arith) w.1)

-- The pigeonhole principle: distinct texts of a list are no more than its entries.
pub Distinct-length-le : (xs ys : List Text) → Distinct xs → Within xs ys → length xs ≤ length ys
Distinct-length-le [] ys d w = omega arith
Distinct-length-le (x ∷ xs) ys d w = omega (
  arith,
  length-remove x ys w.0,
  Distinct-length-le xs (remove x ys) d.1 (Within-remove x xs ys d.0 w.1),
)

Within-cons : (x : Text) (xs ys : List Text) → Within xs ys → Within xs (x ∷ ys)
unfolding has
Within-cons x [] ys w = tt
Within-cons x (z ∷ xs) ys w = ground (arith, Within-cons x xs ys w.1)

pub Within-self : (xs : List Text) → Within xs xs
unfolding has
Within-self [] = tt
Within-self (x ∷ xs) = (rw (same_self x), Within-cons x xs xs (Within-self xs))

pub same_ne : {a b : Text} → a ≢ b → same a b ≡ false
same_ne {a} {b} h = elim (Bool-cases (same a b)) [
  | inl t ↦ absurd (h ((same_iff a b).0 t))
  | inr f ↦ f
]

pub has-concat : (xs : List Text) (y x : Text) → has (xs ++ (y ∷ [])) x ≡ (has xs x || same y x)
has-concat xs y x = has-append xs (y ∷ []) x ∙ unfold has in ground (arith, has xs x)

pub Distinct-concat :
    (xs : List Text) (y : Text) → Distinct xs → has xs y ≡ false → Distinct (xs ++ (y ∷ []))
unfolding has
Distinct-concat [] y d h = (refl, tt)
Distinct-concat (x ∷ xs) y d h = (
  has-concat xs y x ∙ ground (arith, d, same_iff x y, same_iff y x),
  Distinct-concat xs y d.1 (ground arith),
)
