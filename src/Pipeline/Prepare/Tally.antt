-- ===== src/Pipeline/Prepare/Tally.antt =====
-- What becomes of every node of the input: it is selected, counted as dropped, or filtered out by a
-- remark.
use subconverter_ng.Common.{
  ◌+◌, ◌≡◌, refl, sym, inl, inr, Bool, true, false, not, ◌&&◌, Option, none, some, List, [], ◌∷◌,
  Text, has, length, keep_if, arith, Bool-cases,
}
use subconverter_ng.ExtConfig.{Config}
use subconverter_ng.Node.{Node, Bag}
use subconverter_ng.Pipeline.Filters.{Options, is_kept, filter_nodes}
use subconverter_ng.Pipeline.Prepare.Stages.{
  exclude_stage-count, deprecated_stage-count, dedup_stage-count, length-sort_stage,
}
use subconverter_ng.Pipeline.Prepare.{
  clean, sanitize, excluded_list, exclude_stage, deprecated_stage, dedup_stage, select_nodes,
}
use subconverter_ng.Pipeline.Protocols.{is_excluded, filter_loop, filter_protocols, parse_protocols}

-- The entries that are not nil.
abbrev pub is_present : Option Node → Bool
is_present none = false
is_present (some n) = true

length-clean :
    (nodes : List (Option Node)) → length (clean nodes) ≡ length (keep_if is_present nodes)
unfolding clean
length-clean [] = refl
length-clean (none ∷ nodes) = length-clean nodes
length-clean (some n ∷ nodes) = omega (arith, length-clean nodes)

-- The remarks of a config filter the node out.
unfoldable pub is_filtered : Option Config → Node → Bool
is_filtered none n = false
is_filtered (some cfg) n = not (is_kept cfg n)

module _ (excluded : List Text) (cfg : Option Config) where
  -- A node of the input whose protocol stays, but which the remarks of the config filter out.
  unfoldable pub is_unwanted : Option Node → Bool
  is_unwanted none = false
  is_unwanted (some n) = not (is_excluded excluded (sanitize n).typ) && is_filtered cfg (sanitize n)

filter_loop-keep_if :
    (excluded : List Text) (ns : List Node)
    → (filter_loop excluded ns).0 ≡ keep_if (λ n. not (is_excluded excluded n.typ)) ns
unfolding filter_loop
filter_loop-keep_if excluded [] = refl
filter_loop-keep_if excluded (n ∷ ns) = elim (Bool-cases (is_excluded excluded n.typ)) [
  | inl t ↦ rw t (filter_loop-keep_if excluded ns)
  | inr f ↦ rw (f, filter_loop-keep_if excluded ns) refl
]

keep_if-none : (ns : List Node) → keep_if (λ n. not (is_excluded [] n.typ)) ns ≡ ns
unfolding is_excluded has
keep_if-none [] = refl
keep_if-none (n ∷ ns) = rw (keep_if-none ns) refl

filter_protocols-keep_if :
    (excluded : List Text) (ns : List Node)
    → (filter_protocols excluded ns).0 ≡ keep_if (λ n. not (is_excluded excluded n.typ)) ns
unfolding filter_protocols
filter_protocols-keep_if [] ns = sym (keep_if-none ns)
filter_protocols-keep_if (e ∷ excluded) ns = filter_loop-keep_if (e ∷ excluded) ns

exclude_stage-keep_if :
    (raw : List Text) (ns : List Node)
    → (exclude_stage raw ns).0 ≡ keep_if (λ n. not (is_excluded (parse_protocols raw) n.typ)) ns
unfolding exclude_stage
exclude_stage-keep_if [] ns = unfold parse_protocols in sym (keep_if-none ns)
exclude_stage-keep_if (r ∷ raw) ns = filter_protocols-keep_if (parse_protocols (r ∷ raw)) ns

filter_nodes-count :
    (excluded : List Text) (cfg : Option Config) (nodes : List (Option Node))
    → length (filter_nodes cfg (keep_if (λ n. not (is_excluded excluded n.typ)) (clean nodes)))
        + length (keep_if (is_unwanted excluded cfg) nodes)
      ≡ length (keep_if (λ n. not (is_excluded excluded n.typ)) (clean nodes))
unfolding filter_nodes clean is_unwanted is_filtered
filter_nodes-count excluded none [] = refl
filter_nodes-count excluded (some c) [] = refl
filter_nodes-count excluded none (none ∷ nodes) = filter_nodes-count excluded none nodes
filter_nodes-count excluded (some c) (none ∷ nodes) = filter_nodes-count excluded (some c) nodes
filter_nodes-count excluded none (some n ∷ nodes) =
    ground (arith, filter_nodes-count excluded none nodes)
filter_nodes-count excluded (some c) (some n ∷ nodes) =
    ground (arith, filter_nodes-count excluded (some c) nodes)

module _ (marshal : Bag → Option Text) (nodes : List (Option Node)) (cfg : Option Config)
    (opts : Options) where
  -- Every node is accounted for: the selected ones, the three counts of what was dropped, and the
  -- nodes of no excluded protocol that the remarks of the config filter out are as many as the nodes
  -- of the input that are not nil.
  pub select_nodes-count :
      length (select_nodes marshal nodes cfg opts).0
        + (select_nodes marshal nodes cfg opts).1.duplicates
        + (select_nodes marshal nodes cfg opts).1.deprecated_dropped
        + (select_nodes marshal nodes cfg opts).1.excluded_protocols
        + length (keep_if (is_unwanted (parse_protocols (excluded_list cfg opts)) cfg) nodes)
      ≡ length (keep_if is_present nodes)
  unfolding select_nodes
  select_nodes-count =
      let raw = excluded_list cfg opts in
      let included = exclude_stage raw (clean nodes) in
      let current = deprecated_stage opts.filter_deprecated (filter_nodes cfg included.0) in
      let filtered : length (filter_nodes cfg included.0)
            + length (keep_if (is_unwanted (parse_protocols raw) cfg) nodes)
          ≡ length included.0 =
        rw (exclude_stage-keep_if raw (clean nodes))
          (filter_nodes-count (parse_protocols raw) cfg nodes) in
      omega (
        arith,
        filtered,
        length-clean nodes,
        length-sort_stage opts.sort (dedup_stage marshal opts.dedup current.0).0,
        dedup_stage-count marshal opts.dedup current.0,
        deprecated_stage-count opts.filter_deprecated (filter_nodes cfg included.0),
        exclude_stage-count raw (clean nodes),
      )
