-- ===== src/Pipeline/Renames.antt =====
-- internal/generator/clash.go: the rename rules of an external config, compiled.
use subconverter_ng.Common.{
  Bool, false, ◌&&◌, Option, none, some, List, [], ◌∷◌, Text, same, leb, ◌==◌, if◌then◌else◌,
}
use subconverter_ng.Emoji.{Compile}
use subconverter_ng.Pipeline.Filters.{RenameRule}
use subconverter_ng.Strings.{cut}

unfoldable pub starts_with_digit : Text → Bool
starts_with_digit [] = false
starts_with_digit (c ∷ s) = leb b'0' c && leb c b'9'

-- `backrefSlash.ReplaceAllString`: a `\N` becomes a `$N`.
unfoldable pub backref_slash : Text → Text
backref_slash [] = []
backref_slash (c ∷ s) =
    let rest = backref_slash s in
    if c == b'\\' && starts_with_digit s then b'$' ∷ rest else c ∷ rest

-- One entry: with no `@`, with no pattern or with one that does not compile it gives none.
unfoldable pub compile_rename_rule : Compile → Text → Option RenameRule
compile_rename_rule compile line = elim (cut b'@' line) [
  | none ↦ none
  | some (pat, repl) ↦ if same pat [] then none else elim (compile pat) [
    | none ↦ none
    | some re ↦ some (record { pattern = re; replace = backref_slash repl })
  ]
]

unfoldable pub compile_rename_rules : Compile → List Text → List RenameRule
compile_rename_rules compile [] = []
compile_rename_rules compile (line ∷ raw) =
    let rest = compile_rename_rules compile raw in
    elim (compile_rename_rule compile line) [ none ↦ rest | some r ↦ r ∷ rest ]
