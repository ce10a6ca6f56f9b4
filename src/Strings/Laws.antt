-- ===== src/Strings/Laws.antt =====
-- Laws of the text functions that the parsers rest on.
use subconverter_ng.Common.{
  ℕ, ◌≡◌, ◌≢◌, refl, inl, inr, Bool, true, false, none, some, All, ◌∙◌, List, [], ◌∷◌, ◌++◌, Text,
  same, ltb, ◌||◌, arith, ◌==◌, ==_iff, Bool-cases,
}
use subconverter_ng.Strings.Decimal.{AreDigits}
use subconverter_ng.Strings.{
  trim_right, attach, split, cut, cut_at, cut_last, cut_text, has_prefix, drop_prefix, join,
}

-- A trailing character of the kind makes no difference to a right trim.
pub trim_right-concat :
    (p : ℕ → Bool) (s : Text) (c : ℕ) → p c ≡ true → trim_right p (s ++ (c ∷ [])) ≡ trim_right p s
unfolding trim_right same
trim_right-concat p [] c h = rw h
trim_right-concat p (d ∷ s) c h = rw (trim_right-concat p s c h)

attach-ne-nil : (c : ℕ) (ps : List Text) → attach c ps ≢ []
unfolding attach
attach-ne-nil c [] e = cc
attach-ne-nil c (p ∷ ps) e = cc

split-ne-nil : (sep : ℕ) (a : Text) → split sep a ≢ []
unfolding split
split-ne-nil sep [] e = cc
split-ne-nil sep (c ∷ a) e = elim (Bool-cases (c == sep)) [
  | inl t ↦ cc ((rw t at e))
  | inr f ↦ attach-ne-nil c (split sep a) (rw f at e)
]

attach-append : (c : ℕ) (ps qs : List Text) → ps ≢ [] → attach c (ps ++ qs) ≡ attach c ps ++ qs
unfolding attach
attach-append c [] qs n = absurd (n refl)
attach-append c (p ∷ ps) qs n = refl

-- The parts of two texts with the separator between them are the parts of each.
pub split-append : (sep : ℕ) (a b : Text) → split sep (a ++ (sep ∷ b)) ≡ split sep a ++ split sep b
unfolding split
split-append sep [] b = rw ((==_iff sep sep).1 refl)
split-append sep (c ∷ a) b = elim (Bool-cases (c == sep)) [
  | inl t ↦ rw (t, split-append sep a b)
  | inr f ↦
      rw (f, split-append sep a b)
        (attach-append c (split sep a) (split sep b) (split-ne-nil sep a))
]

-- A text with no separator in it is its only part.
abbrev pub Lacks : ℕ → Text → Type 0
Lacks sep [] = Unit
Lacks sep (c ∷ s) = ((c == sep) ≡ false) × Lacks sep s

pub split-Lacks : (sep : ℕ) (s : Text) → Lacks sep s → split sep s ≡ s ∷ []
unfolding split attach
split-Lacks sep [] h = refl
split-Lacks sep (c ∷ s) h = rw (h.0, split-Lacks sep s h.1)

pub cut-Lacks : (sep : ℕ) (a b : Text) → Lacks sep a → cut sep (a ++ (sep ∷ b)) ≡ some (a, b)
unfolding cut
cut-Lacks sep [] b h = rw ((==_iff sep sep).1 refl)
cut-Lacks sep (c ∷ a) b h = rw (h.0, cut-Lacks sep a b h.1)

-- Where a text is cut, if what stands before the place has nothing to cut at.
pub cut_at-All :
    (p : ℕ → Bool) (a : Text) (c : ℕ) (b : Text)
    → All (λ d. p d ≡ false) a
    → p c ≡ true
    → cut_at p (a ++ (c ∷ b)) ≡ some (a, c ∷ b)
unfolding cut_at
cut_at-All p [] c b h t = rw t
cut_at-All p (d ∷ a) c b h t = rw (h.0, cut_at-All p a c b h.1 t)

pub cut_at-none : (p : ℕ → Bool) (a : Text) → All (λ d. p d ≡ false) a → cut_at p a ≡ none
unfolding cut_at
cut_at-none p [] h = refl
cut_at-none p (d ∷ a) h = rw (h.0, cut_at-none p a h.1)

pub cut-none : (sep : ℕ) (a : Text) → Lacks sep a → cut sep a ≡ none
unfolding cut
cut-none sep [] h = refl
cut-none sep (c ∷ a) h = rw (h.0, cut-none sep a h.1)

cut_last-none : (sep : ℕ) (a : Text) → Lacks sep a → cut_last sep a ≡ none
unfolding cut_last
cut_last-none sep [] h = refl
cut_last-none sep (c ∷ a) h = rw (cut_last-none sep a h.1, cut_last) (rw h.0)

pub cut_last-Lacks :
    (sep : ℕ) (a b : Text) → Lacks sep b → cut_last sep (a ++ (sep ∷ b)) ≡ some (a, b)
unfolding cut_last
cut_last-Lacks sep [] b h = rw (cut_last-none sep b h, cut_last) (rw ((==_iff sep sep).1 refl))
cut_last-Lacks sep (c ∷ a) b h = rw (cut_last-Lacks sep a b h, cut_last)

pub has_prefix-append : (pre s : Text) → has_prefix (pre ++ s) pre ≡ true
unfolding has_prefix
has_prefix-append [] s = refl
has_prefix-append (c ∷ pre) s = rw ((==_iff c c).1 refl, has_prefix-append pre s)

pub drop_prefix-append : (pre s : Text) → drop_prefix (pre ++ s) pre ≡ s
unfolding drop_prefix
drop_prefix-append [] s = refl
drop_prefix-append (c ∷ pre) s = drop_prefix-append pre s

-- A text is cut at the first place of a pattern whose first character does not stand before it.
pub cut_text-Lacks :
    (d : ℕ) (pat a b : Text) → Lacks d a → cut_text (d ∷ pat) (a ++ ((d ∷ pat) ++ b)) ≡ some (a, b)
unfolding cut_text has_prefix drop_prefix
cut_text-Lacks d pat [] b h =
    rw ((==_iff d d).1 refl, has_prefix-append pat b, drop_prefix-append pat b)
cut_text-Lacks d pat (c ∷ a) b h = rw (h.0, cut_text-Lacks d pat a b h.1)

-- Parts with no separator in them come back from their join.
pub split-join :
    (sep : ℕ) (p : Text) (ps : List Text)
    → All (Lacks sep) (p ∷ ps)
    → split sep (join (sep ∷ []) (p ∷ ps)) ≡ p ∷ ps
unfolding join
split-join sep p [] h = split-Lacks sep p h.0
split-join sep p (q ∷ ps) h =
    split-append sep p (join (sep ∷ []) (q ∷ ps))
    ∙ rw (split-Lacks sep p h.0, split-join sep q ps h.1)

pub Lacks-append : (c : ℕ) (a b : Text) → Lacks c a → Lacks c b → Lacks c (a ++ b)
Lacks-append c [] b h k = k
Lacks-append c (d ∷ a) b h k = (h.0, Lacks-append c a b h.1 k)

-- A number has no character but digits.
pub AreDigits-Lacks :
    (c : ℕ) (s : Text) → (ltb c b'0' || ltb b'9' c) ≡ true → AreDigits s → Lacks c s
AreDigits-Lacks c [] h d = tt
AreDigits-Lacks c (x ∷ s) h d = (ground (arith, h, d.0, d.1), AreDigits-Lacks c s h d.2)
