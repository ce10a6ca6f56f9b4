-- ===== src/Tests/Nodes.antt =====
-- Runs of the pipeline over nodes.
use subconverter_ng.Common.{
  ◌+◌, ◌≡◌, ◌≢◌, refl, true, false, Option, none, some, List, [], ◌∷◌, ◌++◌, Text, codes, same, has,
  All, Distinct, length, keep_if, lookup, inr, pos,
}
use subconverter_ng.ExtConfig.{default_config}
use subconverter_ng.Node.{Node, Bag, new_node}
use subconverter_ng.Pipeline.Filters.Laws.{
  dedup_lem, signatures, Covered, SameNodes, apply_node_options-SameNodes,
}
use subconverter_ng.Pipeline.Filters.{Options, dedup, apply_node_options}
use subconverter_ng.Pipeline.Names.Distinct.{names, Renames, uniquify_names-Distinct}
use subconverter_ng.Pipeline.Names.{uniquify_names}
use subconverter_ng.Pipeline.Prepare.Laws.{selected, prepare_nodes-Distinct, select_nodes-excludes}
use subconverter_ng.Pipeline.Prepare.Tally.{is_present, is_unwanted, select_nodes-count}
use subconverter_ng.Pipeline.Prepare.{Counts, excluded_list, select_nodes, prepare_nodes}
use subconverter_ng.Pipeline.Protocols.Laws.{stripped}
use subconverter_ng.Pipeline.Protocols.{
  parse_protocols, tokens, canonical_protocol, protocol_aliases, is_separator,
}
use subconverter_ng.Strings.{to_lower, trim_space, trim_set, fields_func}

abbrev hk : Node
hk = new_node (codes "ss") (codes "HK") (codes "h") (pos 443)

abbrev hk_again : Node
hk_again = new_node (codes "trojan") (codes "HK") (codes "g") (pos 8443)

abbrev wg : Node
wg = new_node (codes "wireguard") (codes "WG") (codes "w") (pos 51820)

abbrev ns : List Node
ns = hk ∷ hk_again ∷ wg ∷ []

abbrev parsed : List (Option Node)
parsed = some hk ∷ none ∷ some hk_again ∷ some wg ∷ []

abbrev marshal : Bag → Option Text
marshal bag = none

abbrev options : Options
options = record {
  sort = true;
  udp = true;
  tfo = false;
  skip_cert_verify = true;
  remove_emoji = false;
  add_emoji = false;
  emoji_rules = [];
  rename_rules = [];
  use_rule_providers = false;
  dedup = true;
  filter_deprecated = true;
  append_type = true;
  list_only = false;
  tailscale = false;
  exclude_protocols = codes "tuic,wg" ∷ [];
}

uniquify_names-Distinct_example :
    (out : List Node) × (uniquify_names ns ≡ some out) × Distinct (names out) × Renames [] ns out
uniquify_names-Distinct_example = uniquify_names-Distinct ns

dedup_lem_example :
    Distinct (signatures marshal (dedup marshal (ns ++ ns)).0)
    × Covered marshal []
        (signatures marshal (dedup marshal (ns ++ ns)).0)
        (signatures marshal (ns ++ ns))
    × (length (dedup marshal (ns ++ ns)).0 + (dedup marshal (ns ++ ns)).1 ≡ length (ns ++ ns))
dedup_lem_example = dedup_lem marshal (ns ++ ns)

apply_node_options-SameNodes_example : SameNodes ns (apply_node_options options ns)
apply_node_options-SameNodes_example = apply_node_options-SameNodes options ns

prepare_nodes-Distinct_example :
    (out : List Node) × (counts : Counts) × (prepare_nodes marshal parsed
        (some default_config)
        options
      ≡ some (out, counts))
    × Distinct (names out)
    × (counts.node_count ≡ length out)
    × SameNodes (selected marshal parsed (some default_config) options) out
prepare_nodes-Distinct_example = prepare_nodes-Distinct marshal parsed (some default_config) options

select_nodes-excludes_example :
    All
      (λ n. lookup n.typ protocol_aliases ≢ some (codes "wireguard"))
      (selected marshal parsed (some default_config) options)
unfolding has fields_func is_separator lookup same
select_nodes-excludes_example =
    select_nodes-excludes marshal parsed (some default_config) options (codes "tuic,wg")
      (codes "wg") (codes "wireguard") (inr refl) refl refl

select_nodes-count_example :
    length (select_nodes marshal parsed none options).0
      + (select_nodes marshal parsed none options).1.duplicates
      + (select_nodes marshal parsed none options).1.deprecated_dropped
      + (select_nodes marshal parsed none options).1.excluded_protocols
      + length (keep_if (is_unwanted (parse_protocols (excluded_list none options)) none) parsed)
    ≡ length (keep_if is_present parsed)
select_nodes-count_example = select_nodes-count marshal parsed none options

wg_named : codes "wireguard" ≢ []
wg_named e = cc

wg_stripped : stripped (codes "[WG]") ≡ codes "WG"
unfolding trim_set trim_space same
wg_stripped = refl

wg_short : codes "WG" ≢ []
wg_short e = cc

wg_token : has (tokens (codes "[WG]" ∷ [])) (codes "[WG]") ≡ true
unfolding tokens has
wg_token = refl

wg_canonical : canonical_protocol (stripped (codes "[WG]")) ≡ codes "wireguard"
unfolding canonical_protocol
wg_canonical = refl

wireguard_canonical :
    canonical_protocol (to_lower (trim_space (codes "WireGuard"))) ≡ codes "wireguard"
unfolding canonical_protocol
wireguard_canonical = refl
