-- ===== src/Pipeline/Prepare/Laws.antt =====
-- What the pipeline as a whole guarantees to the generators.
use subconverter_ng.Common.{
  ◌≡◌, ◌≢◌, ◌⊎◌, inl, inr, refl, sym, ◌∙◌, true, false, Option, some, List, [], ◌∷◌, Text, has,
  has-append, lookup, Distinct, length, All, arith, Option-cases,
}
use subconverter_ng.ExtConfig.{Config}
use subconverter_ng.Node.{Node, Bag}
use subconverter_ng.Pipeline.Filters.Laws.{SameNodes, SameNodes-trans, apply_node_options-SameNodes}
use subconverter_ng.Pipeline.Filters.{Options, apply_node_options}
use subconverter_ng.Pipeline.Names.Distinct.{names, uniquify_names-Distinct}
use subconverter_ng.Pipeline.Prepare.Stages.{
  All-stages, exclude_stage-excludes, sanitize_all-SameNodes, Renames-SameNodes,
}
use subconverter_ng.Pipeline.Prepare.{
  Counts, sanitize_all, clean, excluded_list, select_nodes, prepare_nodes,
}
use subconverter_ng.Pipeline.Protocols.Aliases.{tokens-has, parse_protocols-excludes_alias}
use subconverter_ng.Pipeline.Protocols.{
  is_excluded, is_separator, parse_protocols, protocol_aliases,
}
use subconverter_ng.Strings.{fields_func}

module _ (marshal : Bag → Option Text) (nodes : List (Option Node)) (cfg : Option Config)
    (opts : Options) where
  -- The nodes that the filters let through, in their order.
  abbrev pub selected : List Node
  selected = (select_nodes marshal nodes cfg opts).0

  -- The pipeline always ends with a list of nodes. Their names are distinct, the count is theirs,
  -- and node by node they have the types and endpoints of the selected nodes, with the mapping in
  -- step with the fields wherever it was.
  pub prepare_nodes-Distinct :
      (out : List Node) × (counts : Counts) × (prepare_nodes marshal nodes cfg opts
        ≡ some (out, counts))
      × Distinct (names out)
      × (counts.node_count ≡ length out)
      × SameNodes selected out
  unfolding prepare_nodes
  prepare_nodes-Distinct =
      let options = apply_node_options opts selected in
      let (out, named, distinct, renames) = uniquify_names-Distinct (sanitize_all options) in
      (
        out,
        record (select_nodes marshal nodes cfg opts).1 { node_count = length out },
        rw (named, prepare_nodes),
        distinct,
        refl,
        SameNodes-trans selected options out (apply_node_options-SameNodes opts selected) (
            SameNodes-trans options (sanitize_all options) out (sanitize_all-SameNodes options)
              (Renames-SameNodes [] (sanitize_all options) out renames)),
      )

  -- An entry of the config's list or of the request's.
  abbrev pub IsEntry : Text → Type 0
  IsEntry entry =
      ((c : Config) × (cfg ≡ some c) × (has c.exclude_protocols entry ≡ true))
      ⊎ (has opts.exclude_protocols entry ≡ true)

  excluded_list-has : (entry : Text) → IsEntry entry → has (excluded_list cfg opts) entry ≡ true
  unfolding excluded_list
  excluded_list-has entry (inl (c, e, h)) =
      rw (e, excluded_list)
        (has-append c.exclude_protocols opts.exclude_protocols entry ∙ ground (arith, h))
  excluded_list-has entry (inr h) = elim (Option-cases cfg) [
    | inl z ↦ rw (z, excluded_list) h
    | inr (c, z) ↦
        rw (z, excluded_list)
          (has-append c.exclude_protocols opts.exclude_protocols entry ∙ ground (arith, h))
  ]

  -- A name of a protocol that stands in an entry of the config's list or of the request's, alone or
  -- among others, excludes the protocol: no selected node has a type that the table of aliases gives
  -- for the same protocol.
  pub select_nodes-excludes :
      (entry alias protocol : Text)
      → IsEntry entry
      → has (fields_func is_separator entry) alias ≡ true
      → lookup alias protocol_aliases ≡ some protocol
      → All (λ n. lookup n.typ protocol_aliases ≢ some protocol) selected
  unfolding select_nodes
  select_nodes-excludes entry alias protocol i t a =
      All-stages (λ n. lookup n.typ protocol_aliases ≢ some protocol) marshal cfg
        opts.filter_deprecated opts.dedup opts.sort _
        (others _ (exclude_stage-excludes (excluded_list cfg opts) (clean nodes)))
    where
      excludes :
          (typ : Text)
          → lookup typ protocol_aliases ≡ some protocol
          → is_excluded (parse_protocols (excluded_list cfg opts)) typ ≡ true
      excludes typ z =
          parse_protocols-excludes_alias (excluded_list cfg opts) alias typ protocol
            (tokens-has (excluded_list cfg opts) entry alias (excluded_list-has entry i) t) a z

      others :
          (ns : List Node)
          → All (λ n. is_excluded (parse_protocols (excluded_list cfg opts)) n.typ ≡ false) ns
          → All (λ n. lookup n.typ protocol_aliases ≢ some protocol) ns
      others [] h = tt
      others (n ∷ ns) h = (λ z. cc (sym h.0 ∙ excludes n.typ z), others ns h.1)
