-- ===== src/Strings.antt =====
-- The functions of Go's `strings`, `unicode`, `sort` and `strconv` that the program calls, over
-- texts of code points.
--
-- A text is valid UTF-8 in the source. A letter outside ASCII keeps its case under `lower` and
-- `upper`, but for the two that Go lowers to an ASCII letter, so that a comparison of a lowered
-- text with an ASCII name comes out as in the source. White space is that of `unicode.IsSpace`.
pub mod Laws
pub mod Decimal
pub mod Order
use subconverter_ng.Common.{
  ℕ, zero, suc, ◌+◌, ◌-◌, Bool, true, false, not, ◌&&◌, ◌||◌, Option, none, some, List, [], ◌∷◌,
  ◌++◌, map, Text, codes, same, ltb, leb, ◌==◌, if◌then◌else◌,
}

-- `unicode.IsSpace`.
unfoldable pub is_space : ℕ → Bool
is_space c =
    (leb 9 c && leb c 13)
    || c == 32
    || c == 0x85
    || c == 0xA0
    || c == 0x1680
    || (leb 0x2000 c && leb c 0x200A)
    || c == 0x2028
    || c == 0x2029
    || c == 0x202F
    || c == 0x205F
    || c == 0x3000

module _ (p : ℕ → Bool) where
  -- `strings.TrimLeftFunc`.
  unfoldable pub trim_left : Text → Text
  trim_left [] = []
  trim_left (c ∷ s) = if p c then trim_left s else c ∷ s

  -- `strings.TrimRightFunc`.
  unfoldable pub trim_right : Text → Text
  trim_right [] = []
  trim_right (c ∷ s) = let rest = trim_right s in if p c && same rest [] then [] else c ∷ rest

  unfoldable pub trim_func : Text → Text
  unfolding trim_left trim_right
  trim_func s = trim_right (trim_left s)

  -- The pieces of a text between the characters of a kind, none of them empty:
  -- `strings.FieldsFunc`. The first argument is the piece being read.
  unfoldable pub fields_from : Text → Text → List Text
  fields_from [] [] = []
  fields_from (d ∷ piece) [] = (d ∷ piece) ∷ []
  fields_from [] (c ∷ s) = fields_from (if p c then [] else c ∷ []) s
  fields_from (d ∷ piece) (c ∷ s) =
      let stop = (d ∷ piece) ∷ fields_from [] s in
      let go = fields_from ((d ∷ piece) ++ (c ∷ [])) s in if p c then stop else go

unfoldable pub trim_space : Text → Text
unfolding trim_func is_space
trim_space = trim_func is_space

-- Whether a character is in a set of characters.
unfoldable pub in_set : Text → ℕ → Bool
in_set [] c = false
in_set (d ∷ ds) c = d == c || in_set ds c

-- `strings.Trim(s, cutset)`.
unfoldable pub trim_set : Text → Text → Text
unfolding trim_func in_set
trim_set cutset = trim_func (in_set cutset)

unfoldable pub fields : Text → List Text
unfolding fields_from is_space
fields s = fields_from is_space [] s

unfoldable pub fields_func : (ℕ → Bool) → Text → List Text
unfolding fields_from
fields_func p s = fields_from p [] s

-- `unicode.ToLower`.
unfoldable pub lower_char : ℕ → ℕ
lower_char c =
    if leb b'A' c && leb c b'Z'
    then c + 32
    else if c == 0x130
    then b'i'
    else if c == 0x212A
    then b'k'
    else c

unfoldable pub to_lower : Text → Text
unfolding lower_char
to_lower s = map lower_char s

unfoldable pub upper_char : ℕ → ℕ
upper_char c =
    if leb b'a' c && leb c b'z'
    then c - 32
    else if c == 0x131
    then b'I'
    else if c == 0x17F
    then b'S'
    else c

unfoldable pub to_upper : Text → Text
unfolding upper_char
to_upper s = map upper_char s

-- The ASCII letter that stands for a character and for all that fold to it.
unfoldable pub fold_char : ℕ → ℕ
fold_char c =
    if leb b'a' c && leb c b'z'
    then c - 32
    else if c == 0x17F
    then b'S'
    else if c == 0x212A
    then b'K'
    else c

-- `strings.EqualFold`, of which one text is ASCII.
unfoldable pub equal_fold : Text → Text → Bool
unfolding fold_char same
equal_fold s t = same (map fold_char s) (map fold_char t)

unfoldable pub has_prefix : Text → Text → Bool
has_prefix s [] = true
has_prefix [] (d ∷ pre) = false
has_prefix (c ∷ s) (d ∷ pre) = c == d && has_prefix s pre

unfoldable pub drop_prefix : Text → Text → Text
drop_prefix s [] = s
drop_prefix [] (d ∷ pre) = []
drop_prefix (c ∷ s) (d ∷ pre) = drop_prefix s pre

unfoldable pub trim_prefix : Text → Text → Text
unfolding has_prefix drop_prefix
trim_prefix s pre = if has_prefix s pre then drop_prefix s pre else s

unfoldable pub has_suffix : Text → Text → Bool
unfolding same
has_suffix [] suf = same [] suf
has_suffix (c ∷ s) suf = same (c ∷ s) suf || has_suffix s suf

-- `strings.TrimSuffix`.
unfoldable pub trim_suffix : Text → Text → Text
unfolding same
trim_suffix [] suf = []
trim_suffix (c ∷ s) suf = if same (c ∷ s) suf then [] else c ∷ trim_suffix s suf

unfoldable pub contains : Text → Text → Bool
unfolding has_prefix
contains [] pat = has_prefix [] pat
contains (c ∷ s) pat = has_prefix (c ∷ s) pat || contains s pat

-- `strings.Cut` at a text: what stands before its first occurrence, and after it.
unfoldable pub cut_text : Text → Text → Option (Text × Text)
unfolding has_prefix drop_prefix
cut_text pat [] = if has_prefix [] pat then some ([], []) else none
cut_text pat (c ∷ s) =
    let rest = cut_text pat s in
    if has_prefix (c ∷ s) pat
    then some ([], drop_prefix (c ∷ s) pat)
    else elim rest [ none ↦ none | some e ↦ some (c ∷ e.0, e.1) ]

-- `strings.Cut` at a character that passes a test, which the part behind still begins with.
unfoldable pub cut_at : (ℕ → Bool) → Text → Option (Text × Text)
cut_at p [] = none
cut_at p (c ∷ s) =
    let rest = cut_at p s in
    if p c then some ([], c ∷ s) else elim rest [ none ↦ none | some e ↦ some (c ∷ e.0, e.1) ]

-- `strings.Cut` at a character.
unfoldable pub cut : ℕ → Text → Option (Text × Text)
cut sep [] = none
cut sep (c ∷ s) =
    let rest = cut sep s in
    if c == sep then some ([], s) else elim rest [ none ↦ none | some e ↦ some (c ∷ e.0, e.1) ]

-- The parts before and after the last occurrence of a character.
unfoldable pub cut_last : ℕ → Text → Option (Text × Text)
cut_last sep [] = none
cut_last sep (c ∷ s) = elim (cut_last sep s) [
  | some e ↦ some (c ∷ e.0, e.1)
  | none ↦ if c == sep then some ([], s) else none
]

-- `strings.Split` at a character: a text has one part more than occurrences.
unfoldable pub attach : ℕ → List Text → List Text
attach c [] = (c ∷ []) ∷ []
attach c (p ∷ ps) = (c ∷ p) ∷ ps

unfoldable pub split : ℕ → Text → List Text
unfolding attach
split sep [] = [] ∷ []
split sep (c ∷ s) = if c == sep then [] ∷ split sep s else attach c (split sep s)

unfoldable pub join : Text → List Text → Text
join sep [] = []
join sep (p ∷ []) = p
join sep (p ∷ q ∷ ps) = p ++ (sep ++ join sep (q ∷ ps))

-- `strings.ReplaceAll` of a character by a text.
unfoldable pub replace_char : ℕ → Text → Text → Text
replace_char old new [] = []
replace_char old new (c ∷ s) = (if c == old then new else c ∷ []) ++ replace_char old new s

-- `strings.ContainsAny`.
unfoldable pub contains_any : Text → Text → Bool
unfolding in_set
contains_any [] chars = false
contains_any (c ∷ s) chars = in_set chars c || contains_any s chars

-- The first text that is not empty, or the empty one.
unfoldable pub first_non_empty : List Text → Text
unfolding same
first_non_empty [] = []
first_non_empty (s ∷ ss) = if same s [] then first_non_empty ss else s

-- The strings that mean "on", and those that mean "off".
unfoldable pub is_on : Text → Bool
unfolding to_lower trim_space same
is_on s =
    let t = to_lower (trim_space s) in
    same t (codes "1") || same t (codes "true") || same t (codes "yes") || same t (codes "on")

unfoldable pub is_off : Text → Bool
unfolding to_lower trim_space same
is_off s =
    let t = to_lower (trim_space s) in
    same t (codes "0") || same t (codes "false") || same t (codes "no") || same t (codes "off")
