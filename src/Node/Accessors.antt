-- ===== src/Node/Accessors.antt =====
-- internal/generator/common.go: the typed readers of a node's mapping. The numeric types of the
-- source are one here, that of the integers.
use subconverter_ng.Common.{
  zero, suc, ◌≡◌, refl, ◌∙◌, Bool, true, false, Option, none, some, List, [], ◌∷◌, ◌++◌, Text,
  codes, same, same_self, lookup, lookup-insert, if◌then◌else◌, ℤ, pos, negsuc,
}
use subconverter_ng.Node.{
  Value, str, num, flag, arr, bag, Items, nil, cons, Fields, end, Bag, Node, set, set_raw,
}
use subconverter_ng.Strings.Decimal.{itoa, atoi}
use subconverter_ng.Strings.{first_non_empty, is_on, split, trim_space}

-- `cs`.
unfoldable pub text_of : Option Value → Text
text_of (some (str s)) = s
text_of (some (num k)) = itoa k
text_of _ = []

unfoldable pub cs : Bag → Text → Text
cs m k = text_of (lookup k m)

-- `cb`.
unfoldable pub is_true : Option Value → Bool
is_true (some (flag b)) = b
is_true (some (str s)) = is_on s
is_true (some (num (pos zero))) = false
is_true (some (num (pos (suc n)))) = true
is_true (some (num (negsuc n))) = true
is_true _ = false

unfoldable pub cb : Bag → Text → Bool
cb m k = is_true (lookup k m)

-- `cmap`.
unfoldable pub cmap : Bag → Text → Fields
cmap m k = elim (lookup k m) [ some (bag fs) ↦ fs | _ ↦ end ]

-- `ci`: a text that is no number reads as 0.
unfoldable pub int_of : Option Value → ℤ
int_of (some (num k)) = k
int_of (some (str s)) = if (atoi (trim_space s)).is_ok then (atoi (trim_space s)).value else pos 0
int_of _ = pos 0

unfoldable pub ci : Bag → Text → ℤ
ci m k = int_of (lookup k m)

-- The numbers that texts give, without those that are none.
unfoldable pub numbers : List Text → List ℤ
numbers [] = []
numbers (p ∷ ps) =
    let rest = numbers ps in
    if (atoi (trim_space p)).is_ok then (atoi (trim_space p)).value ∷ rest else rest

unfoldable pub reserved_items : Items → List ℤ
reserved_items nil = []
reserved_items (cons (num k) xs) = k ∷ reserved_items xs
reserved_items (cons (str s) xs) = numbers (s ∷ []) ++ reserved_items xs
reserved_items (cons _ xs) = reserved_items xs

unfoldable pub parse_reserved : Value → List ℤ
parse_reserved (arr xs) = reserved_items xs
parse_reserved (str s) = numbers (split b',' s)
parse_reserved _ = []

unfoldable pub get_sni : Bag → Text
get_sni c = first_non_empty (cs c (codes "servername") ∷ cs c (codes "sni") ∷ [])

lookup-set_raw : (key : Text) (v : Value) (n : Node) → lookup key (set_raw key v n).clash ≡ some v
unfolding set_raw
lookup-set_raw key v n = lookup-insert key key v n.clash ∙ rw (same_self key) refl

-- What a parser sets under a key that is not taken is what a generator reads there: a text, the
-- empty one too, which is not stored, a number, and a truth value.
pub cs-set :
    (key s : Text) (k : ℤ) (b : Bool) (n : Node)
    → lookup key n.clash ≡ none
    → (cs (set key (str s) n).clash key ≡ s)
      × (ci (set key (num k) n).clash key ≡ k)
      × (cb (set key (flag b) n).clash key ≡ b)
unfolding cs ci cb set text_of int_of is_true
cs-set key s k b n free =
    (text s, rw (lookup-set_raw key (num k) n) refl, rw (lookup-set_raw key (flag b) n) refl)
  where
    text : (s : Text) → text_of (lookup key (set key (str s) n).clash) ≡ s
    text [] = unfold same in rw free refl
    text (c ∷ s) = unfold same in rw (lookup-set_raw key (str (c ∷ s)) n) refl
