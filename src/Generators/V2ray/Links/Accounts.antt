-- ===== src/Generators/V2ray/Links/Accounts.antt =====
-- What becomes of each node in a list of share links.
use subconverter_ng.Common.{
  ◌≡◌, refl, ◌⊎◌, inl, inr, Option, none, some, List, [], ◌∷◌, Text, codes, length, Option-cases,
}
use subconverter_ng.ExtConfig.{Config}
use subconverter_ng.Generators.V2ray.Links.{skip_note, node_share_link, share_links, generate_v2ray}
use subconverter_ng.Generators.{Rendered}
use subconverter_ng.Node.{Bag, Node}
use subconverter_ng.Parser.{Encoding, std}
use subconverter_ng.Pipeline.Filters.{Options}
use subconverter_ng.Pipeline.Prepare.{Counts, prepare_nodes}
use subconverter_ng.Pipeline.Prepare.Laws.{prepare_nodes-Distinct}
use subconverter_ng.Strings.{join}

module _ (encode64 : Encoding → Text → Text) (query_escape : Text → Text)
    (encode_query : List (Text × List Text) → Text) (userinfo : Text → Text → Text)
    (marshal_json : Bag → Text) where
  abbrev link_of : Node → Option Text
  link_of = node_share_link encode64 query_escape encode_query userinfo marshal_json

  -- Each node has its link among the links or its note among the skipped, in the order of the nodes.
  abbrev pub AreShared : List Node → List Text → List Text → Type 0
  AreShared [] links skipped = (links ≡ []) × (skipped ≡ [])
  AreShared (n ∷ ns) links skipped =
      ((l : Text) × (rest : List Text) × (link_of n ≡ some l)
        × (links ≡ l ∷ rest)
        × AreShared ns rest skipped)
      ⊎ ((rest : List Text) × (link_of n ≡ none)
          × (skipped ≡ skip_note n ∷ rest)
          × AreShared ns links rest)

  share_links-AreShared :
      (ns : List Node)
      → AreShared ns
          (share_links encode64 query_escape encode_query userinfo marshal_json ns).links
          (share_links encode64 query_escape encode_query userinfo marshal_json ns).skipped
  unfolding share_links
  share_links-AreShared [] = (refl, refl)
  share_links-AreShared (n ∷ ns) = elim (Option-cases (link_of n)) [
    | inl z ↦ rw (z, share_links) (inr (_, refl, refl, share_links-AreShared ns))
    | inr (l, z) ↦ rw (z, share_links) (inl (l, _, refl, refl, share_links-AreShared ns))
  ]

  -- The generator always gives an output, from the nodes that the pipeline prepares of its input,
  -- which are counted. The output is the encoding of one link to a line, and every prepared node has
  -- its link there or is reported as skipped, in the order of the nodes.
  pub generate_v2ray-AreShared :
      (marshal : Bag → Option Text) (nodes : List (Option Node)) (cfg : Option Config)
      (opts : Options)
      → (r : Rendered) × (prepared : List Node) × (counts : Counts) × (links : List Text)
        × (generate_v2ray encode64 query_escape encode_query userinfo marshal_json marshal nodes cfg
              opts
            ≡ some r)
        × (prepare_nodes marshal nodes cfg opts ≡ some (prepared, counts))
        × AreShared prepared links r.skipped_nodes
        × (r.output ≡ encode64 std (join (codes "\n") links))
        × (r.node_count ≡ length prepared)
        × (r.duplicates ≡ counts.duplicates)
        × (r.deprecated_dropped ≡ counts.deprecated_dropped)
        × (r.excluded_protocols ≡ counts.excluded_protocols)
  unfolding generate_v2ray
  generate_v2ray-AreShared marshal nodes cfg opts =
      let (prepared, counts, e, _, c, _) = prepare_nodes-Distinct marshal nodes cfg opts in
      let shared = share_links encode64 query_escape encode_query userinfo marshal_json prepared in
      (
        record {
          output = encode64 std (join (codes "\n") shared.links);
          content_type = codes "text/plain; charset=utf-8";
          node_count = counts.node_count;
          empty_groups = [];
          skipped_rules = [];
          skipped_nodes = shared.skipped;
          duplicates = counts.duplicates;
          deprecated_dropped = counts.deprecated_dropped;
          excluded_protocols = counts.excluded_protocols;
        },
        prepared,
        counts,
        shared.links,
        rw (e, generate_v2ray) refl,
        e,
        share_links-AreShared prepared,
        refl,
        c,
        refl,
        refl,
        refl,
      )
