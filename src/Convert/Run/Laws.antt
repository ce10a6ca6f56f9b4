-- ===== src/Convert/Run/Laws.antt =====
-- With which outcome a run ends, and what has brought it about.
use subconverter_ng.Cache.{Header}
use subconverter_ng.Common.{
  ℕ, ◌≡◌, ◌≢◌, refl, sym, ◌∙◌, ◌⊎◌, inl, inr, Option, none, some, List, [], ◌∷◌, Text, same,
  same_iff, has, if◌then◌else◌, length, Bool-cases, Option-cases,
}
use subconverter_ng.Convert.Gather.{Gathered, gathered, source_failed}
use subconverter_ng.Convert.Gather.Refined.{AllComplete, fetch_in_turn, fetch_and_parse_all-in_turn}
use subconverter_ng.Convert.Run.Flags.{adds_emoji, removes_emoji, resolve_emoji_lem}
use subconverter_ng.Convert.Run.{
  Request, subscription_failed, no_subscription_url, unsupported_target, Outcome, no_nodes,
  config_unreachable, not_rendered, converted, failed, is_empty, diagnostics, options_of,
  external_config, generated, with_nodes, all_nodes, run,
}
use subconverter_ng.Generators.{Rendered}
use subconverter_ng.Convert.Targets.{
  normalize_target, supported_targets, Generator, render, render-none,
}
use subconverter_ng.Emoji.{EmojiRule, Compile, parse_rules}
use subconverter_ng.ExtConfig.{Config, default_config, parse_config}
use subconverter_ng.Node.{Node}
use subconverter_ng.Parser.{Parsed}
use subconverter_ng.Pipeline.Filters.{Options}
use subconverter_ng.Pipeline.Renames.{compile_rename_rules}
use subconverter_ng.Convert.Run.Merged.{IsMerged, all_nodes-IsMerged}

module _ (fetch : Text → Option (Text × Header)) (parse : Text → Option Parsed) (compile : Compile)
    (default_emoji : List EmojiRule)
    (generate : Generator → List Node → Config → Options → Option Rendered) where
  -- The config of a run: the default with no URL, and otherwise what the fetched text says.
  abbrev pub IsConfig : Text → Config → Type 0
  IsConfig url cfg =
      ((url ≡ []) × (cfg ≡ default_config))
      ⊎ ((body : Text) × (header : Header) × (fetch url ≡ some (body, header))
          × (cfg ≡ parse_config compile body))

  -- The options of the request with the rename rules, the emoji flags and the emoji rules that hold.
  abbrev pub resolved_options : Config → Request → Options
  resolved_options cfg req = record req.gen {
    rename_rules = compile_rename_rules compile cfg.rename_rules;
    remove_emoji = removes_emoji cfg req;
    add_emoji = adds_emoji cfg req;
    emoji_rules =
        if adds_emoji cfg req
        then (if is_empty cfg.emoji_rules
            then default_emoji
            else parse_rules compile cfg.emoji_rules)
        else req.gen.emoji_rules;
  }

  options_of_resolved :
      (cfg : Config) (req : Request)
      → options_of compile default_emoji cfg req ≡ resolved_options cfg req
  unfolding options_of
  options_of_resolved cfg req = rw (resolve_emoji_lem cfg req, options_of)

  -- What the generator is called with: the generator of the target, the nodes of the subscriptions
  -- and of the insert sources, which are some, and the config.
  pub record IsCall (req : Request) (generator : Generator) (all : List Node) (cfg : Config)
      (skipped : List Text) (userinfo : Text) : Type 0 where
    pub rendered : render (normalize_target req.target) ≡ some generator
    pub nodes : List Node
    pub fetched : fetch_in_turn fetch parse req.sub_urls ≡ gathered nodes skipped userinfo
    pub merged : IsMerged fetch parse req nodes all
    pub not_empty : all ≢ []
    pub config : IsConfig req.config_url cfg

  -- Each outcome with what has brought it about.
  abbrev pub IsOutcome : Request → Outcome → Type 0
  IsOutcome req (failed unsupported_target) = render (normalize_target req.target) ≡ none
  IsOutcome req (failed no_subscription_url) = req.sub_urls ≡ []
  IsOutcome req (failed (subscription_failed i)) =
      fetch_in_turn fetch parse req.sub_urls ≡ source_failed i
  IsOutcome req (failed no_nodes) =
      (nodes : List Node) × (skipped : List Text) × (userinfo : Text) × (fetch_in_turn fetch parse
          req.sub_urls
        ≡ gathered nodes skipped userinfo)
      × IsMerged fetch parse req nodes []
  IsOutcome req (failed config_unreachable) = (req.config_url ≢ []) × (fetch req.config_url ≡ none)
  IsOutcome req (failed not_rendered) =
      (g : Generator) × (all : List Node) × (cfg : Config) × (skipped : List Text)
      × (userinfo : Text) × IsCall req g all cfg skipped userinfo
      × (generate g all cfg (resolved_options cfg req) ≡ none)
  IsOutcome req (converted out diag) =
      (g : Generator) × (all : List Node) × (cfg : Config) × (skipped : List Text)
      × (userinfo : Text) × (r : Rendered) × IsCall req g all cfg skipped userinfo
      × (generate g all cfg (resolved_options cfg req) ≡ some r)
      × (out ≡ r.output)
      × (diag ≡ record {
        node_count = r.node_count;
        skipped_lines = skipped;
        empty_groups = r.empty_groups;
        skipped_rules = r.skipped_rules;
        skipped_nodes = r.skipped_nodes;
        duplicates = r.duplicates;
        deprecated = r.deprecated_dropped;
        excluded_protocols = r.excluded_protocols;
        content_type = r.content_type;
        subscription_userinfo = userinfo;
      })

  external_config-IsConfig :
      (url : Text) (cfg : Config)
      → external_config fetch parse compile default_emoji generate url ≡ some cfg
      → IsConfig url cfg
  unfolding external_config
  external_config-IsConfig url cfg h = elim (Bool-cases (same url [])) [
    | inl t ↦ inl ((same_iff url []).0 t, sym (held (rw t at h)))
    | inr f ↦ elim (Option-cases (fetch url)) [
      | inl z ↦ cc (rw (f, z) at h)
      | inr ((body, header), z) ↦ inr (body, header, z, sym (held (rw (f, z) at h)))
    ]
  ]
    where
      held : {a b : Config} → some a ≡ some b → a ≡ b
      held e = cc

  external_config-none :
      (url : Text)
      → external_config fetch parse compile default_emoji generate url ≡ none
      → (url ≢ []) × (fetch url ≡ none)
  unfolding external_config
  external_config-none url h = elim (Bool-cases (same url [])) [
    | inl t ↦ cc (rw t at h)
    | inr f ↦ elim (Option-cases (fetch url)) [
      | inl z ↦ (λ e. cc (sym f ∙ (same_iff url []).1 e), z)
      | inr ((body, header), z) ↦ cc (rw (f, z) at h)
    ]
  ]

  generated-IsOutcome :
      (req : Request) (nodes all : List Node) (skipped : List Text) (userinfo : Text) (cfg : Config)
      → fetch_in_turn fetch parse req.sub_urls ≡ gathered nodes skipped userinfo
      → IsMerged fetch parse req nodes all
      → all ≢ []
      → IsConfig req.config_url cfg
      → IsOutcome req
          (generated fetch parse compile default_emoji generate req all skipped userinfo cfg)
  unfolding generated diagnostics
  generated-IsOutcome req nodes all skipped userinfo cfg f m n c =
      elim (Option-cases (render (normalize_target req.target))) [
        | inl z ↦ rw (z, generated) z
        | inr (g, z) ↦
            let call : IsCall req g all cfg skipped userinfo = record {
              rendered = z;
              nodes = nodes;
              fetched = f;
              merged = m;
              not_empty = n;
              config = c;
            } in
            elim (Option-cases (generate g all cfg (resolved_options cfg req))) [
              | inl y ↦
                  rw (z, generated, options_of_resolved cfg req, y)
                    (g, all, cfg, skipped, userinfo, call, y)
              | inr (r, y) ↦
                  rw (z, generated, options_of_resolved cfg req, y)
                    (g, all, cfg, skipped, userinfo, r, call, y, refl, refl)
            ]
      ]

  with_nodes-IsOutcome :
      (req : Request) (nodes all : List Node) (skipped : List Text) (userinfo : Text)
      → fetch_in_turn fetch parse req.sub_urls ≡ gathered nodes skipped userinfo
      → IsMerged fetch parse req nodes all
      → IsOutcome req
          (with_nodes fetch parse compile default_emoji generate req all skipped userinfo)
  unfolding with_nodes
  with_nodes-IsOutcome req nodes [] skipped userinfo f m = (nodes, skipped, userinfo, f, m)
  with_nodes-IsOutcome req nodes (n ∷ all) skipped userinfo f m =
      elim (Option-cases
        (external_config fetch parse compile default_emoji generate req.config_url)) [
          | inl z ↦ rw (z, with_nodes) (external_config-none req.config_url z)
          | inr (cfg, z) ↦
              rw (z, with_nodes)
                (generated-IsOutcome req nodes (n ∷ all) skipped userinfo cfg f m (λ e. cc)
                  (external_config-IsConfig req.config_url cfg z))
        ]

  -- Whatever the order in which the goroutines of the subscriptions and of the insert sources
  -- complete, a run ends with an outcome that what it has done accounts for: a config is the output
  -- of the generator of the target, called with the nodes of the subscriptions and those of the
  -- insert sources on the side that the request names, with the config, and with the emoji flags of
  -- the request or else the config; and each failure has its own cause.
  pub run-IsOutcome :
      (subs inserts : List ℕ) (req : Request)
      → AllComplete subs (length req.sub_urls)
      → AllComplete inserts (length req.insert_urls)
      → IsOutcome req (run fetch parse compile default_emoji generate subs inserts req)
  unfolding run
  run-IsOutcome subs inserts req s i =
      elim (Bool-cases (has supported_targets (normalize_target req.target))) [
        | inr z ↦ rw z (render-none (normalize_target req.target) z)
        | inl z ↦
            rw (z, fetch_and_parse_all-in_turn fetch parse subs req.sub_urls s)
              (gathering req.sub_urls refl (fetch_in_turn fetch parse req.sub_urls) refl)
      ]
    where
      gathering :
          (us : List Text)
          → req.sub_urls ≡ us
          → (g : Gathered) → fetch_in_turn fetch parse req.sub_urls ≡ g
          → IsOutcome req (
              if is_empty us then failed no_subscription_url else elim g [
                | source_failed i ↦ failed (subscription_failed i)
                | gathered nodes skipped userinfo ↦
                    with_nodes fetch parse compile default_emoji generate req
                      (all_nodes fetch parse compile default_emoji generate inserts req nodes)
                      skipped
                      userinfo
              ])
      gathering [] u g e = u
      gathering (v ∷ us) u (source_failed j) e = e
      gathering (v ∷ us) u (gathered nodes skipped userinfo) e =
          with_nodes-IsOutcome req nodes _ skipped userinfo e
            (all_nodes-IsMerged fetch parse compile default_emoji generate inserts req nodes i)
