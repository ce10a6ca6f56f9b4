-- ===== src/Pipeline/Protocols/Laws.antt =====
-- A list of protocols gives each canonical name once, in order, and excludes it in every spelling.
use subconverter_ng.Common.{
  ◌≡◌, ◌≢◌, refl, ◌∙◌, inl, inr, true, false, ◌||◌, List, [], ◌∷◌, Text, same, same_self, same_iff,
  same_ne, has, has-concat, Distinct-concat, Distinct, arith, Bool-cases,
}
use subconverter_ng.Pipeline.Protocols.{
  wrapping, canonical_protocol, add_canonical, add_token, add_tokens, tokens, parse_protocols,
  is_excluded,
}
use subconverter_ng.Strings.Order.{text_lt, place, sort_by, IsSorted, sort_by-IsSorted}
use subconverter_ng.Strings.{trim_space, trim_set, to_lower}

-- What a token of a list stands for, without its brackets and quotes.
abbrev pub stripped : Text → Text
stripped raw = trim_set wrapping (trim_space raw)

add_token_lem :
    (seen : List Text) (t : Text)
    → add_token seen t ≡ add_canonical (stripped t) (canonical_protocol (stripped t)) seen
unfolding add_token
add_token_lem seen t = refl

add_canonical-Distinct :
    (t c : Text) (seen : List Text) → Distinct seen → Distinct (add_canonical t c seen)
unfolding add_canonical
add_canonical-Distinct t c seen d = elim (Bool-cases (same t [] || same c [] || has seen c)) [
  | inl e ↦ rw e d
  | inr e ↦ rw e (Distinct-concat seen c d (ground arith))
]

add_canonical-has :
    (t c : Text) (seen : List Text) (x : Text)
    → has seen x ≡ true
    → has (add_canonical t c seen) x ≡ true
unfolding add_canonical
add_canonical-has t c seen x h = elim (Bool-cases (same t [] || same c [] || has seen c)) [
  | inl e ↦ rw e h
  | inr e ↦ rw e (has-concat seen c x ∙ rw h)
]

add_canonical_self :
    (t c : Text) (seen : List Text)
    → same t [] ≡ false
    → same c [] ≡ false
    → has (add_canonical t c seen) c ≡ true
unfolding add_canonical
add_canonical_self t c seen a b = elim (Bool-cases (has seen c)) [
  | inl e ↦ rw (a, b, e) e
  | inr e ↦ rw (a, b, e) (has-concat seen c c ∙ rw (e, same_self c))
]

add_tokens-Distinct : (seen ts : List Text) → Distinct seen → Distinct (add_tokens seen ts)
unfolding add_tokens
add_tokens-Distinct seen [] d = d
add_tokens-Distinct seen (t ∷ ts) d = add_tokens-Distinct (add_token seen t) ts (
    rw (add_token_lem seen t)
      (add_canonical-Distinct (stripped t) (canonical_protocol (stripped t)) seen d))

add_tokens-has :
    (seen ts : List Text) (x : Text) → has seen x ≡ true → has (add_tokens seen ts) x ≡ true
unfolding add_tokens
add_tokens-has seen [] x h = h
add_tokens-has seen (t ∷ ts) x h = add_tokens-has (add_token seen t) ts x (
    rw (add_token_lem seen t)
      (add_canonical-has (stripped t) (canonical_protocol (stripped t)) seen x h))

add_tokens_mem :
    (seen ts : List Text) (t : Text)
    → has ts t ≡ true
    → same (stripped t) [] ≡ false
    → same (canonical_protocol (stripped t)) [] ≡ false
    → has (add_tokens seen ts) (canonical_protocol (stripped t)) ≡ true
unfolding add_tokens has
add_tokens_mem seen [] t m a b = absurd (ground arith)
add_tokens_mem seen (u ∷ ts) t m a b = elim (Bool-cases (same u t)) [
  | inl e ↦ add_tokens-has (add_token seen u) ts (canonical_protocol (stripped t)) (
      rw ((same_iff u t).0 e, add_token_lem seen t)
        (add_canonical_self (stripped t) (canonical_protocol (stripped t)) seen a b))
  | inr n ↦ add_tokens_mem (add_token seen u) ts t (ground arith) a b
]

has-place : (x y : Text) (ys : List Text) → has (place (λ t. t) y ys) x ≡ (same y x || has ys x)
unfolding place has
has-place x y [] = refl
has-place x y (z ∷ ys) = ground (arith, has-place x y ys)

has-sort_by : (x : Text) (ys : List Text) → has (sort_by (λ t. t) ys) x ≡ has ys x
unfolding sort_by has
has-sort_by x [] = refl
has-sort_by x (y ∷ ys) = has-place x y (sort_by (λ t. t) ys) ∙ rw (has-sort_by x ys)

place-Distinct :
    (y : Text) (ys : List Text) → Distinct ys → has ys y ≡ false → Distinct (place (λ t. t) y ys)
unfolding place has
place-Distinct y [] d h = (refl, tt)
place-Distinct y (z ∷ ys) d h = elim (Bool-cases (text_lt z y)) [
  | inl t ↦ rw t (
    has-place z y ys ∙ ground (arith, d, same_iff y z, same_iff z y),
    place-Distinct y ys d.1 (ground arith),
  )
  | inr f ↦ rw f (unfold has in h, d)
]

sort_by-Distinct : (ys : List Text) → Distinct ys → Distinct (sort_by (λ t. t) ys)
unfolding sort_by
sort_by-Distinct [] d = tt
sort_by-Distinct (y ∷ ys) d =
    place-Distinct y (sort_by (λ t. t) ys) (sort_by-Distinct ys d.1) (has-sort_by y ys ∙ d.0)

-- `ParseProtocols` gives each name once, in the order of the names.
pub parse_protocols-Distinct :
    (raw : List Text) → Distinct (parse_protocols raw) × IsSorted (λ t. t) (parse_protocols raw)
unfolding parse_protocols
parse_protocols-Distinct raw = (
  sort_by-Distinct (add_tokens [] (tokens raw)) (add_tokens-Distinct [] (tokens raw) tt),
  sort_by-IsSorted (λ t. t) (add_tokens [] (tokens raw)),
)

-- A token of the list excludes every node whose type is another spelling of the same protocol,
-- brackets, quotes, case and surrounding space of either aside.
pub parse_protocols-excludes :
    (raw : List Text) (t typ : Text)
    → has (tokens raw) t ≡ true
    → stripped t ≢ []
    → canonical_protocol (stripped t) ≢ []
    → canonical_protocol (to_lower (trim_space typ)) ≡ canonical_protocol (stripped t)
    → is_excluded (parse_protocols raw) typ ≡ true
unfolding is_excluded parse_protocols
parse_protocols-excludes raw t typ m a b e = rw (
  e,
  has-sort_by (canonical_protocol (stripped t)) (add_tokens [] (tokens raw)),
  add_tokens_mem [] (tokens raw) t m (same_ne a) (same_ne b),
)
