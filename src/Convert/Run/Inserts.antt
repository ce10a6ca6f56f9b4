-- ===== src/Convert/Run/Inserts.antt =====
-- What a failure of the insert sources does to a run.
use subconverter_ng.Cache.{Header}
use subconverter_ng.Common.{
  ℕ, ◌≡◌, refl, ap, Bool, true, false, not, Option, List, [], Text, has, if◌then◌else◌,
}
use subconverter_ng.Convert.Gather.{gathered, source_failed, fetch_and_parse_all}
use subconverter_ng.Convert.Run.{
  Request, subscription_failed, no_subscription_url, unsupported_target, Outcome, failed,
  merge_inserts, is_empty, options_of, resolve_emoji, generated, with_nodes, all_nodes, run,
}
use subconverter_ng.Generators.{Rendered}
use subconverter_ng.Convert.Targets.{normalize_target, supported_targets, Generator}
use subconverter_ng.Emoji.{EmojiRule, Compile}
use subconverter_ng.ExtConfig.{Config}
use subconverter_ng.Node.{Node}
use subconverter_ng.Parser.{Parsed}
use subconverter_ng.Pipeline.Filters.{Options}

module _ (fetch : Text → Option (Text × Header)) (parse : Text → Option Parsed) (compile : Compile)
    (default_emoji : List EmojiRule)
    (generate : Generator → List Node → Config → Options → Option Rendered) where
  -- A run whose insert sources fail ends as one with no insert sources does: the failure is not one
  -- of the run.
  pub run-inserts_failed :
      (subs inserts : List ℕ) (req : Request) (i : ℕ)
      → fetch_and_parse_all fetch parse inserts req.insert_urls ≡ source_failed i
      → run fetch parse compile default_emoji generate subs inserts req
        ≡ run fetch parse compile default_emoji generate subs inserts
            (record req { insert_urls = [] })
  unfolding run all_nodes merge_inserts with_nodes generated options_of resolve_emoji
  run-inserts_failed subs inserts req i h = ap finish (λ t nodes. no_inserts nodes t)
    where
      none_fetched : (b : Bool) (nodes : List Node) → (if b then nodes else nodes) ≡ nodes
      none_fetched true nodes = refl
      none_fetched false nodes = refl

      no_inserts :
          (nodes : List Node)
          → all_nodes fetch parse compile default_emoji generate inserts req nodes ≡ nodes
      no_inserts nodes = rw (h, merge_inserts) (none_fetched (is_empty req.insert_urls) nodes)

      finish : (List Node → List Node) → Outcome
      finish merge =
          if not (has supported_targets (normalize_target req.target))
          then failed unsupported_target
          else if is_empty req.sub_urls
          then failed no_subscription_url
          else elim (fetch_and_parse_all fetch parse subs req.sub_urls) [
            | source_failed j ↦ failed (subscription_failed j)
            | gathered nodes skipped userinfo ↦
                with_nodes fetch parse compile default_emoji generate req (merge nodes) skipped
                  userinfo
          ]
