-- ===== src/Groups.antt =====
-- internal/generator/clash.go: `resolveSelectors` and `buildGroups`, shared by every generator.
pub mod Members
pub mod Rendered
use subconverter_ng.Common.{
  ℕ, Bool, true, false, ◌||◌, Option, none, some, List, [], ◌∷◌, ◌++◌, Text, codes, same, has, ℤ,
  if◌then◌else◌,
}
use subconverter_ng.Emoji.{Regex, Compile}
use subconverter_ng.ExtConfig.{ProxyGroup, literal}
use subconverter_ng.Node.{Node}

-- The closure `add`; `seen` has the members of `out`.
unfoldable pub add_member : Text → List Text → List Text
unfolding same has
add_member name out = if same name [] || has out name then out else out ++ (name ∷ [])

unfoldable pub add_names : List Text → List Text → List Text
unfolding add_member
add_names [] out = out
add_names (n ∷ ns) out = add_names ns (add_member n out)

-- The nodes that a pattern matches.
unfoldable pub add_matching : Regex → List Node → List Text → List Text
unfolding add_member
add_matching re [] out = out
add_matching re (n ∷ ns) out =
    add_matching re ns (if re.matches n.name then add_member n.name out else out)

-- One selector: a literal, every node, or a pattern; one that does not compile selects nothing.
unfoldable pub add_selector : Compile → List Node → List Text → Text → List Text → List Text
unfolding literal add_member add_names add_matching same
add_selector compile nodes all_names sel out = elim (literal sel) [
  | some name ↦ add_member name out
  | none ↦
      if same sel (codes ".*")
      then add_names all_names out
      else elim (compile sel) [ none ↦ out | some re ↦ add_matching re nodes out ]
]

unfoldable pub resolve_from : Compile → List Node → List Text → List Text → List Text → List Text
unfolding add_selector
resolve_from compile nodes all_names [] out = out
resolve_from compile nodes all_names (s ∷ ss) out =
    resolve_from compile nodes all_names ss (add_selector compile nodes all_names s out)

unfoldable pub resolve_selectors : Compile → List Text → List Node → List Text → List Text
unfolding resolve_from
resolve_selectors compile selectors nodes all_names =
    resolve_from compile nodes all_names selectors []

-- `groupOut`.
pub record GroupOut : Type 0 where
  pub name : Text
  pub typ : Text
  pub proxies : List Text
  pub url : Text
  pub interval : ℤ
  pub timeout : ℤ
  pub tolerance : ℤ

abbrev pub direct : Text
direct = codes "DIRECT"

-- A group with the members found for it.
abbrev pub group_with : ProxyGroup → List Text → GroupOut
group_with d members = record {
  name = d.name;
  typ = d.typ;
  proxies = members;
  url = d.test_url;
  interval = d.interval;
  timeout = d.timeout;
  tolerance = d.tolerance;
}

-- The groups, and the names of those that matched nothing.
unfoldable pub build_groups :
    Compile → List ProxyGroup → List Node → List Text → List GroupOut × List Text
unfolding resolve_selectors
build_groups compile [] nodes all_names = ([], [])
build_groups compile (d ∷ ds) nodes all_names =
    let (rest, empty) = build_groups compile ds nodes all_names in
    elim (resolve_selectors compile d.selectors nodes all_names) [
      | [] ↦ (group_with d (direct ∷ []) ∷ rest, d.name ∷ empty)
      | m ∷ ms ↦ (group_with d (m ∷ ms) ∷ rest, empty)
    ]
