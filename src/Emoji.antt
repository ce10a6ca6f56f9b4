-- ===== src/Emoji.antt =====
-- internal/emoji/emoji.go: emoji in node names. A compiled pattern is a `Regex`: the engine is Go's
-- `regexp`, and the program asks only whether a text matches and for a text with its matches
-- replaced.
use subconverter_ng.Common.{
  ℕ, Bool, not, ◌&&◌, ◌||◌, Option, none, some, List, [], ◌∷◌, ◌++◌, Text, codes, leb, ◌==◌, same,
  if◌then◌else◌, keep_if,
}
use subconverter_ng.Strings.{trim_space, trim_right, has_prefix, cut_last, fields, join}

pub record Regex : Type 0 where
  pub matches : Text → Bool
  pub replace_all : Text → Text → Text

-- `regexp.Compile`: `none` for a pattern that does not compile.
abbrev pub Compile : Type 0
Compile = Text → Option Regex

pub record EmojiRule : Type 0 where
  pub pattern : Regex
  pub emoji : Text

-- One line of a rule list: a comment, a blank line or a line that is no rule gives none.
unfoldable pub parse_rule : Compile → Text → Option EmojiRule
parse_rule compile raw =
    let line = trim_space (trim_right (λ c. c == b'\r') raw) in
    if same line []
      || has_prefix line (codes "#")
      || has_prefix line (codes ";")
      || has_prefix line (codes "//")
    then none
    else elim (cut_last b',' line) [
      | none ↦ none
      | some (before, behind) ↦
          let em = trim_space behind in
          if same before [] || same em [] then none else elim (compile (trim_space before)) [
            | none ↦ none
            | some re ↦ some (record { pattern = re; emoji = em })
          ]
    ]

unfoldable pub parse_rules : Compile → List Text → List EmojiRule
unfolding parse_rule
parse_rules compile [] = []
parse_rules compile (l ∷ ls) = elim (parse_rule compile l) [
  | none ↦ parse_rules compile ls
  | some r ↦ r ∷ parse_rules compile ls
]

unfoldable pub is_emoji_rune : ℕ → Bool
is_emoji_rune r =
    (leb 0x1F1E6 r && leb r 0x1F1FF)
    || (leb 0x1F300 r && leb r 0x1FAFF)
    || (leb 0x1F000 r && leb r 0x1F02F)
    || (leb 0x2600 r && leb r 0x27BF)
    || (leb 0x2B00 r && leb r 0x2BFF)
    || (leb 0xFE00 r && leb r 0xFE0F)
    || r == 0x200D
    || r == 0x20E3
    || r == 0xFEFF

unfoldable pub remove_emoji : Text → Text
unfolding is_emoji_rune
remove_emoji name = join (codes " ") (fields (keep_if (λ r. not (is_emoji_rune r)) name))

unfoldable pub add_emoji : List EmojiRule → Text → Text
add_emoji [] name = name
add_emoji (r ∷ rs) name =
    if r.pattern.matches name then r.emoji ++ (b' ' ∷ name) else add_emoji rs name
