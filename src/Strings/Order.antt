-- ===== src/Strings/Order.antt =====
-- `sort.SliceStable` by a text, and `sort.Strings`. A stable sort has one result, which insertion
-- sort gives too; the order of UTF-8 bytes is that of code points.
use subconverter_ng.Common.{
  suc, Bool, true, false, ◌&&◌, ◌||◌, List, [], ◌∷◌, Text, ltb, ◌==◌, if◌then◌else◌, length, ◌≡◌,
  refl, arith, Bool-cases, inl, inr, ap, ◌∙◌,
}

-- `a < b` on strings.
unfoldable pub text_lt : Text → Text → Bool
text_lt a [] = false
text_lt [] (d ∷ b) = true
text_lt (c ∷ a) (d ∷ b) = ltb c d || c == d && text_lt a b

module _ {ℓ} {A : Type ℓ} (key : A → Text) where
  -- Puts an element before the first one that is greater.
  unfoldable pub place : A → List A → List A
  unfolding text_lt
  place x [] = x ∷ []
  place x (y ∷ ys) = if text_lt (key y) (key x) then y ∷ place x ys else x ∷ y ∷ ys

  unfoldable pub sort_by : List A → List A
  unfolding place
  sort_by [] = []
  sort_by (x ∷ xs) = place x (sort_by xs)

  abbrev below : A → List A → Bool
  below x [] = true
  below x (y ∷ ys) = if text_lt (key y) (key x) then false else true

  -- No element stands before a smaller one.
  abbrev pub IsSorted : List A → Type 0
  IsSorted [] = Unit
  IsSorted (x ∷ xs) = (below x xs ≡ true) × IsSorted xs

  text_lt_asym : (a b : Text) → text_lt a b ≡ true → text_lt b a ≡ false
  unfolding text_lt
  text_lt_asym [] [] h = ground arith
  text_lt_asym [] (d ∷ b) h = refl
  text_lt_asym (c ∷ a) [] h = ground arith
  text_lt_asym (c ∷ a) (d ∷ b) h = ground (arith, text_lt_asym a b)

  below-place :
      (x z : A) (ys : List A)
      → below z ys ≡ true
      → text_lt (key x) (key z) ≡ false
      → below z (place x ys) ≡ true
  unfolding place
  below-place x z [] h k = rw k
  below-place x z (y ∷ ys) h k = ground arith

  place-IsSorted : (x : A) (ys : List A) → IsSorted ys → IsSorted (place x ys)
  unfolding place
  place-IsSorted x [] h = (refl, tt)
  place-IsSorted x (y ∷ ys) h = elim (Bool-cases (text_lt (key y) (key x))) [
    | inl t ↦
        rw t (below-place x y ys h.0 (text_lt_asym (key y) (key x) t), place-IsSorted x ys h.1)
    | inr f ↦ rw f (rw f, h)
  ]

  pub sort_by-IsSorted : (xs : List A) → IsSorted (sort_by xs)
  unfolding sort_by
  sort_by-IsSorted [] = tt
  sort_by-IsSorted (x ∷ xs) = place-IsSorted x (sort_by xs) (sort_by-IsSorted xs)

  length-place : (x : A) (ys : List A) → length (place x ys) ≡ suc (length ys)
  unfolding place
  length-place x [] = refl
  length-place x (y ∷ ys) = ground (arith, length-place x ys)

  pub length-sort_by : (xs : List A) → length (sort_by xs) ≡ length xs
  unfolding sort_by
  length-sort_by [] = refl
  length-sort_by (x ∷ xs) = length-place x (sort_by xs) ∙ ap suc (length-sort_by xs)
