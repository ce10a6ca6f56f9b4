-- ===== src/Convert/Run.antt =====
-- internal/convert/convert.go: `Run`, a whole conversion, and `resolveEmoji`.
--
-- The client gives the same answer for a URL all through a run, and `generate` stands for the
-- generators. Messages are left out, so an error is its kind.
pub mod Flags
pub mod Merged
pub mod Laws
pub mod Inserts
use subconverter_ng.Cache.{Header}
use subconverter_ng.Common.{
  ℕ, Bool, true, false, ◌||◌, not, Option, none, some, List, [], ◌++◌, Text, same, has,
  if◌then◌else◌,
}
use subconverter_ng.Convert.Gather.{Gathered, gathered, source_failed, fetch_and_parse_all}
use subconverter_ng.Convert.Targets.{normalize_target, supported_targets, Generator, render}
use subconverter_ng.Emoji.{EmojiRule, Compile, parse_rules}
use subconverter_ng.ExtConfig.{Config, default_config, parse_config}
use subconverter_ng.Generators.{Rendered}
use subconverter_ng.Node.{Node}
use subconverter_ng.Parser.{Parsed}
use subconverter_ng.Pipeline.Filters.{Options}
use subconverter_ng.Pipeline.Renames.{compile_rename_rules}

pub record Request : Type 0 where
  pub target : Text
  pub sub_urls : List Text
  pub config_url : Text
  pub gen : Options
  pub emoji : Option Bool
  pub add_emoji : Option Bool
  pub remove_emoji : Option Bool
  pub no_cache : Bool
  pub insert_urls : List Text
  pub insert_prepend : Bool

pub record Diagnostics : Type 0 where
  pub node_count : ℕ
  pub skipped_lines : List Text
  pub empty_groups : List Text
  pub skipped_rules : List Text
  pub skipped_nodes : List Text
  pub duplicates : ℕ
  pub deprecated : ℕ
  pub excluded_protocols : ℕ
  pub content_type : Text
  pub subscription_userinfo : Text

-- Why a run fails, beside the messages; `no_nodes` is `ErrNoNodes`.
pub data RunError : Type 0 where
  unsupported_target no_subscription_url no_nodes config_unreachable not_rendered : RunError
  subscription_failed : ℕ → RunError

pub data Outcome : Type 0 where
  converted : Text → Diagnostics → Outcome
  failed : RunError → Outcome

-- A flag that is set replaces one of lower precedence.
abbrev pub unless_set : Bool → Option Bool → Bool
unless_set old none = old
unless_set old (some new) = new

-- Whether emoji are removed, and whether they are added.
unfoldable pub resolve_emoji : Config → Request → Bool × Bool
resolve_emoji cfg req =
    let add = unless_set (unless_set true cfg.add_emoji) req.add_emoji in
    let remove = unless_set (unless_set true cfg.remove_old_emoji) req.remove_emoji in
    elim req.emoji [ none ↦ (remove, add) | some e ↦ (true, e) ]

-- The nodes with those of the insert sources, of which a failure is not one of the run.
unfoldable pub merge_inserts : Bool → List Node → Gathered → List Node
merge_inserts prepend nodes (source_failed i) = nodes
merge_inserts prepend nodes (gathered inserts skipped userinfo) =
    if prepend then inserts ++ nodes else nodes ++ inserts

abbrev pub is_empty {ℓ} : {A : Type ℓ} → List A → Bool
is_empty [] = true
is_empty _ = false

unfoldable pub diagnostics : List Text → Text → Rendered → Diagnostics
diagnostics skipped userinfo r = record {
  node_count = r.node_count;
  skipped_lines = skipped;
  empty_groups = r.empty_groups;
  skipped_rules = r.skipped_rules;
  skipped_nodes = r.skipped_nodes;
  duplicates = r.duplicates;
  deprecated = r.deprecated_dropped;
  excluded_protocols = r.excluded_protocols;
  content_type = r.content_type;
  subscription_userinfo = userinfo;
}

module _ (compile : Compile) (default_emoji : List EmojiRule) where
  -- The options that the generator is called with.
  unfoldable pub options_of : Config → Request → Options
  options_of cfg req =
      let (remove, add) = resolve_emoji cfg req in
      record req.gen {
        rename_rules = compile_rename_rules compile cfg.rename_rules;
        remove_emoji = remove;
        add_emoji = add;
        emoji_rules =
            if add
            then (if is_empty cfg.emoji_rules
                then default_emoji
                else parse_rules compile cfg.emoji_rules)
            else req.gen.emoji_rules;
      }

module _ (fetch : Text → Option (Text × Header)) (parse : Text → Option Parsed) (compile : Compile)
    (default_emoji : List EmojiRule)
    (generate : Generator → List Node → Config → Options → Option Rendered) where
  -- The external config; `none` where it cannot be fetched.
  unfoldable pub external_config : Text → Option Config
  external_config url =
      if same url []
      then some default_config
      else elim (fetch url) [ none ↦ none | some (body, header) ↦ some (parse_config compile body) ]

  -- The generator's turn.
  unfoldable pub generated : Request → List Node → List Text → Text → Config → Outcome
  generated req nodes skipped userinfo cfg = elim (render (normalize_target req.target)) [
    | none ↦ failed unsupported_target
    | some g ↦ elim (generate g nodes cfg (options_of compile default_emoji cfg req)) [
      | none ↦ failed not_rendered
      | some r ↦ converted r.output (diagnostics skipped userinfo r)
    ]
  ]

  -- With the nodes of all the sources.
  unfoldable pub with_nodes : Request → List Node → List Text → Text → Outcome
  with_nodes req nodes skipped userinfo =
      if is_empty nodes then failed no_nodes else elim (external_config req.config_url) [
        | none ↦ failed config_unreachable
        | some cfg ↦ generated req nodes skipped userinfo cfg
      ]

  -- The insert sources are fetched if there are any, in an order of their own.
  unfoldable pub all_nodes : List ℕ → Request → List Node → List Node
  all_nodes order req nodes =
      if is_empty req.insert_urls
      then nodes
      else merge_inserts req.insert_prepend nodes
          (fetch_and_parse_all fetch parse order req.insert_urls)

  -- `subs` and `inserts` are the orders in which the goroutines of the sources complete.
  unfoldable pub run : List ℕ → List ℕ → Request → Outcome
  run subs inserts req =
      if not (has supported_targets (normalize_target req.target))
      then failed unsupported_target
      else if is_empty req.sub_urls
      then failed no_subscription_url
      else elim (fetch_and_parse_all fetch parse subs req.sub_urls) [
        | source_failed i ↦ failed (subscription_failed i)
        | gathered nodes skipped userinfo ↦
            with_nodes req (all_nodes inserts req nodes) skipped userinfo
      ]
