-- ===== src/Parser/Schemes.antt =====
-- Which links have a parser, and which one it is.
use subconverter_ng.Common.{
  ◌≡◌, refl, inl, inr, Bool, true, false, not, ◌&&◌, ◌||◌, Option, none, some, List, [], ◌∷◌, Text,
  same, same_iff, has, lookup, arith, Bool-cases, Option-cases,
}
use subconverter_ng.Parser.{Protocol, scheme_order, registry, first_scheme, match_scheme, dispatch}
use subconverter_ng.Node.{Node}
use subconverter_ng.Strings.{to_lower, has_prefix}

-- Of two texts that a third begins with, one begins with the other.
prefixes_comparable :
    (s a b : Text)
    → has_prefix s a ≡ true
    → has_prefix s b ≡ true
    → (has_prefix a b || has_prefix b a) ≡ true
unfolding has_prefix
prefixes_comparable s [] [] h k = refl
prefixes_comparable s [] (d ∷ b) h k = refl
prefixes_comparable s (c ∷ a) [] h k = refl
prefixes_comparable [] (c ∷ a) (d ∷ b) h k = cc
prefixes_comparable (e ∷ s) (c ∷ a) (d ∷ b) h k = ground (arith, prefixes_comparable s a b)

-- Whether a text and the others of a list begin differently.
unfoldable stands_apart : Text → List Text → Bool
stands_apart t [] = true
stands_apart t (u ∷ us) = (same u t || not (has_prefix u t || has_prefix t u)) && stands_apart t us

unfoldable all_apart : List Text → List Text → Bool
all_apart [] us = true
all_apart (t ∷ ts) us = stands_apart t us && all_apart ts us

schemes_apart : all_apart scheme_order scheme_order ≡ true
unfolding all_apart stands_apart same has_prefix
schemes_apart = refl

all_apart-has :
    (ts us : List Text) (t : Text)
    → all_apart ts us ≡ true
    → has ts t ≡ true
    → stands_apart t us ≡ true
unfolding all_apart has
all_apart-has [] us t h k = cc
all_apart-has (x ∷ ts) us t h k = elim (Bool-cases (same x t)) [
  | inl e ↦ rw (← (same_iff x t).0 e) (ground arith)
  | inr n ↦ all_apart-has ts us t (ground arith) (ground arith)
]

-- In a list where all begin differently, the first that fits is the only one.
first_scheme-apart :
    (us : List Text) (lower t : Text)
    → stands_apart t us ≡ true
    → has us t ≡ true
    → has_prefix lower t ≡ true
    → first_scheme us lower ≡ t
unfolding first_scheme stands_apart has
first_scheme-apart [] lower t a h p = cc
first_scheme-apart (u ∷ us) lower t a h p = elim (Bool-cases (same u t)) [
  | inl e ↦ rw ((same_iff u t).0 e, p) refl
  | inr n ↦ elim (Bool-cases (has_prefix lower u)) [
    | inl q ↦ ground (arith, prefixes_comparable lower u t q p)
    | inr q ↦ rw q (first_scheme-apart us lower t (ground arith) (ground arith) p)
  ]
]

match_scheme-eq :
    (s t : Text) → has scheme_order t ≡ true → has_prefix (to_lower s) t ≡ true → match_scheme s ≡ t
unfolding match_scheme
match_scheme-eq s t h p =
    first_scheme-apart scheme_order (to_lower s) t
      (all_apart-has scheme_order scheme_order t schemes_apart h) h p

-- Whether every scheme of a list is named, and has a parser.
unfoldable is_registered : Text → Bool
is_registered t = not (same t []) && elim (lookup t registry) [ none ↦ false | some p ↦ true ]

unfoldable all_registered : List Text → Bool
all_registered [] = true
all_registered (t ∷ ts) = is_registered t && all_registered ts

schemes_registered : all_registered scheme_order ≡ true
unfolding all_registered is_registered lookup same
schemes_registered = refl

all_registered-has :
    (ts : List Text) (t : Text)
    → all_registered ts ≡ true
    → has ts t ≡ true
    → is_registered t ≡ true
unfolding all_registered has
all_registered-has [] t h k = cc
all_registered-has (x ∷ ts) t h k = elim (Bool-cases (same x t)) [
  | inl e ↦ rw (← (same_iff x t).0 e) (ground arith)
  | inr n ↦ all_registered-has ts t (ground arith) (ground arith)
]

is_registered_lem :
    (t : Text)
    → is_registered t ≡ true
    → (same t [] ≡ false) × ((p : Protocol) × (lookup t registry ≡ some p))
unfolding is_registered
is_registered_lem t h = elim (Option-cases (lookup t registry)) [
  | inl z ↦ cc (none_fails (not (same t [])) (rw (z, is_registered) at h))
  | inr (p, z) ↦ (ground arith, (p, z))
]
  where
    none_fails : (b : Bool) → (b && false) ≡ true → false ≡ true
    none_fails b k = ground arith

dispatch_lem :
    (link : Protocol → Text → Option Node) (s t : Text) (p : Protocol)
    → match_scheme s ≡ t
    → same t [] ≡ false
    → lookup t registry ≡ some p
    → dispatch link s ≡ link p s
unfolding dispatch
dispatch_lem link s t p m n e = rw (m, n, dispatch, e)

-- A link is taken for the one scheme that it begins with, in any case of its letters, so the order
-- of the schemes settles nothing; and the scheme has a parser, which the link is given to.
pub dispatch_unique :
    (link : Protocol → Text → Option Node) (s t : Text)
    → has scheme_order t ≡ true
    → has_prefix (to_lower s) t ≡ true
    → (match_scheme s ≡ t)
      × ((p : Protocol) × (lookup t registry ≡ some p) × (dispatch link s ≡ link p s))
dispatch_unique link s t h k =
    let (n, (p, e)) =
      is_registered_lem t (all_registered-has scheme_order t schemes_registered h) in
    (match_scheme-eq s t h k, (p, e, dispatch_lem link s t p (match_scheme-eq s t h k) n e))
