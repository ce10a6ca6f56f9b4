-- ===== src/Pipeline/Prepare.antt =====
-- internal/generator/common.go: `prepareNodes`, the pipeline as a whole.
--
-- Each node of the list is an object of its own, as the parsers make them, so renaming one in place
-- changes no other.
pub mod Stages
pub mod Laws
pub mod Tally
use subconverter_ng.Common.{
  ℕ, Bool, true, false, Option, none, some, List, [], ◌∷◌, ◌++◌, Text, codes, length, if◌then◌else◌,
}
use subconverter_ng.ExtConfig.{Config}
use subconverter_ng.Node.{Node, Bag, rename}
use subconverter_ng.Pipeline.Filters.{
  Options, filter_nodes, filter_deprecated, dedup, apply_node_options,
}
use subconverter_ng.Pipeline.Names.{uniquify_names}
use subconverter_ng.Pipeline.Protocols.{parse_protocols, filter_protocols}
use subconverter_ng.Strings.Order.{sort_by}
use subconverter_ng.Strings.{replace_char, contains_any}

unfoldable pub sanitize_node_name : Text → Text
unfolding replace_char
sanitize_node_name name = replace_char b'\n' (codes " ") (replace_char b'\r' [] name)

-- Takes the line breaks out of a node's name.
unfoldable pub sanitize : Node → Node
unfolding sanitize_node_name contains_any rename
sanitize n =
    if contains_any n.name (b'\r' ∷ b'\n' ∷ []) then rename (sanitize_node_name n.name) n else n

unfoldable pub sanitize_all : List Node → List Node
unfolding sanitize
sanitize_all [] = []
sanitize_all (n ∷ ns) = sanitize n ∷ sanitize_all ns

-- The first loop: without the nil nodes.
unfoldable pub clean : List (Option Node) → List Node
unfolding sanitize
clean [] = []
clean (none ∷ ns) = clean ns
clean (some n ∷ ns) = sanitize n ∷ clean ns

-- What the pipeline counts into `Result`.
pub record Counts : Type 0 where
  pub node_count : ℕ
  pub excluded_protocols : ℕ
  pub deprecated_dropped : ℕ
  pub duplicates : ℕ

unfoldable pub excluded_list : Option Config → Options → List Text
excluded_list none opts = opts.exclude_protocols
excluded_list (some cfg) opts = cfg.exclude_protocols ++ opts.exclude_protocols

-- The stage that excludes protocols, if any is named.
unfoldable pub exclude_stage : List Text → List Node → List Node × ℕ
unfolding parse_protocols filter_protocols
exclude_stage [] ns = (ns, 0)
exclude_stage (r ∷ raw) ns = filter_protocols (parse_protocols (r ∷ raw)) ns

unfoldable pub deprecated_stage : Bool → List Node → List Node × ℕ
unfolding filter_deprecated
deprecated_stage false ns = (ns, 0)
deprecated_stage true ns = filter_deprecated ns

unfoldable pub dedup_stage : (Bag → Option Text) → Bool → List Node → List Node × ℕ
unfolding dedup
dedup_stage marshal false ns = (ns, 0)
dedup_stage marshal true ns = dedup marshal ns

unfoldable pub sort_stage : Bool → List Node → List Node
unfolding sort_by
sort_stage false ns = ns
sort_stage true ns = sort_by (λ n. n.name) ns

-- The nodes that reach the naming stage, and the counts, of which the first waits for it.
unfoldable pub select_nodes :
    (Bag → Option Text) → List (Option Node) → Option Config → Options → List Node × Counts
unfolding clean excluded_list exclude_stage filter_nodes deprecated_stage dedup_stage sort_stage
select_nodes marshal nodes cfg opts =
    let (included, excluded) = exclude_stage (excluded_list cfg opts) (clean nodes) in
    let (current, dropped) = deprecated_stage opts.filter_deprecated (filter_nodes cfg included) in
    let (distinct, removed) = dedup_stage marshal opts.dedup current in
    (
      sort_stage opts.sort distinct,
      record {
        node_count = 0;
        excluded_protocols = excluded;
        deprecated_dropped = dropped;
        duplicates = removed;
      },
    )

-- `none` would mean that the loop of `uniquifyNames` ran out of fuel.
unfoldable pub prepare_nodes :
    (Bag → Option Text) → List (Option Node) → Option Config → Options → Option (List Node × Counts)
unfolding select_nodes apply_node_options sanitize_all uniquify_names
prepare_nodes marshal nodes cfg opts =
    let (selected, counts) = select_nodes marshal nodes cfg opts in
    elim (uniquify_names (sanitize_all (apply_node_options opts selected))) [
      | none ↦ none
      | some out ↦ some (out, record counts { node_count = length out })
    ]
