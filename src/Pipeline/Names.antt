-- ===== src/Pipeline/Names.antt =====
-- internal/generator/common.go: `uniquifyNames`, which gives every node a name of its own.
pub mod Distinct
use subconverter_ng.Common.{
  ℕ, zero, suc, ◌+◌, Bool, true, false, Option, none, some, List, [], ◌∷◌, ◌++◌, Text, has, length,
  if◌then◌else◌, ◌>>=◌,
}
use subconverter_ng.Node.{Node, rename}
use subconverter_ng.Strings.Decimal.{itoa_nat}

-- The name that is tried as number `i`.
unfoldable pub candidate : Text → ℕ → Text
unfolding itoa_nat
candidate name i = name ++ (b' ' ∷ itoa_nat i)

-- `for i := 2; ; i++`: the first candidate that is free. `none` means that the fuel ran out.
unfoldable pub probe : ℕ → List Text → Text → ℕ → Option Text
unfolding candidate has
probe zero seen name i = none
probe (suc fuel) seen name i =
    let rest = probe fuel seen name (i + 1) in
    if has seen (candidate name i) then rest else some (candidate name i)

-- One node: the name that it takes, and the names that are seen then. The fuel is one more than
-- the names that can be in the way.
unfoldable pub free_name : List Text → Text → Option Text
unfolding probe has
free_name seen name = if has seen name then probe (suc (length seen)) seen name 2 else some name

unfoldable pub uniquify_from : List Text → List Node → Option (List Node)
unfolding free_name rename
uniquify_from seen [] = some []
uniquify_from seen (n ∷ ns) = elim (free_name seen n.name) [
  | none ↦ none
  | some name ↦ elim (uniquify_from (name ∷ seen) ns) [
    | none ↦ none
    | some rest ↦ some ((if has seen n.name then rename name n else n) ∷ rest)
  ]
]

unfoldable pub uniquify_names : List Node → Option (List Node)
unfolding uniquify_from
uniquify_names ns = uniquify_from [] ns
