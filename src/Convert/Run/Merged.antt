-- ===== src/Convert/Run/Merged.antt =====
-- The nodes of the insert sources and where they stand.
use subconverter_ng.Cache.{Header}
use subconverter_ng.Common.{
  ℕ, ◌≡◌, refl, sym, ◌⊎◌, inl, inr, Bool, true, false, Option, List, [], ◌∷◌, ◌++◌, append-nil,
  Text, if◌then◌else◌, length,
}
use subconverter_ng.Convert.Gather.{Gathered, gathered, source_failed}
use subconverter_ng.Convert.Gather.Refined.{
  AllComplete, fetch_in_turn, gather_in_turn, fetch_and_parse_all-in_turn,
}
use subconverter_ng.Convert.Run.{Request, merge_inserts, is_empty, all_nodes}
use subconverter_ng.Generators.{Rendered}
use subconverter_ng.Convert.Targets.{Generator}
use subconverter_ng.Emoji.{EmojiRule, Compile}
use subconverter_ng.ExtConfig.{Config}
use subconverter_ng.Node.{Node}
use subconverter_ng.Parser.{Parsed}
use subconverter_ng.Pipeline.Filters.{Options}

-- The nodes of the insert sources, of which a failure counts as none.
abbrev pub inserted_nodes : Gathered → List Node
inserted_nodes (source_failed i) = []
inserted_nodes (gathered inserts skipped userinfo) = inserts

module _ (fetch : Text → Option (Text × Header)) (parse : Text → Option Parsed) where
  -- The nodes of the insert sources, fetched one after the other.
  abbrev pub inserts_in_turn : Request → List Node
  inserts_in_turn req = inserted_nodes (fetch_in_turn fetch parse req.insert_urls)

  -- The nodes that are rendered: those of the insert sources stand in front if the request says so.
  abbrev pub IsMerged : Request → List Node → List Node → Type 0
  IsMerged req nodes all =
      ((req.insert_prepend ≡ true) × (all ≡ inserts_in_turn req ++ nodes))
      ⊎ ((req.insert_prepend ≡ false) × (all ≡ nodes ++ inserts_in_turn req))

module _ (fetch : Text → Option (Text × Header)) (parse : Text → Option Parsed) (compile : Compile)
    (default_emoji : List EmojiRule)
    (generate : Generator → List Node → Config → Options → Option Rendered) where
  pub all_nodes-IsMerged :
      (order : List ℕ) (req : Request) (nodes : List Node)
      → AllComplete order (length req.insert_urls)
      → IsMerged fetch parse req nodes
          (all_nodes fetch parse compile default_emoji generate order req nodes)
  unfolding all_nodes merge_inserts fetch_in_turn gather_in_turn
  all_nodes-IsMerged order req nodes all =
      rw (fetch_and_parse_all-in_turn fetch parse order req.insert_urls all)
        (merged req.insert_prepend req.insert_urls)
    where
      put : Bool → Gathered → (us : List Text) → List Node
      put b g us = if is_empty us then nodes else merge_inserts b nodes g

      merged_some :
          (b : Bool) (g : Gathered)
          → ((b ≡ true) × (merge_inserts b nodes g ≡ inserted_nodes g ++ nodes))
            ⊎ ((b ≡ false) × (merge_inserts b nodes g ≡ nodes ++ inserted_nodes g))
      merged_some true (source_failed i) = inl (refl, refl)
      merged_some false (source_failed i) = inr (refl, sym (append-nil nodes))
      merged_some true (gathered inserts skipped userinfo) = inl (refl, refl)
      merged_some false (gathered inserts skipped userinfo) = inr (refl, refl)

      merged :
          (b : Bool) (us : List Text)
          → ((b ≡ true)
              × (put b (fetch_in_turn fetch parse us) us
                  ≡ inserted_nodes (fetch_in_turn fetch parse us) ++ nodes))
            ⊎ ((b ≡ false)
                × (put b (fetch_in_turn fetch parse us) us
                    ≡ nodes ++ inserted_nodes (fetch_in_turn fetch parse us)))
      merged true [] = inl (refl, refl)
      merged false [] = inr (refl, sym (append-nil nodes))
      merged b (u ∷ us) = merged_some b (fetch_in_turn fetch parse (u ∷ us))
