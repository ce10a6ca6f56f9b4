-- ===== src/Tests/Outputs.antt =====
-- Runs of the rulesets and of the groups.
use subconverter_ng.Common.{
  lookup, ◌≡◌, refl, ◌⊎◌, true, false, not, ◌&&◌, ◌||◌, Option, none, some, List, [], ◌∷◌, ◌++◌,
  Text, codes, same, has, Distinct, completes, if◌then◌else◌, pos, arith,
}
use subconverter_ng.Convert.Targets.{IsCanonical, normalize_target, normalize_target-IsCanonical}
use subconverter_ng.Emoji.{Compile}
use subconverter_ng.ExtConfig.{Config, Ruleset, ProxyGroup, default_config}
use subconverter_ng.Groups.Members.{any_selects, resolve_selectors_lem}
use subconverter_ng.Groups.Rendered.{AreGroups, build_groups-AreGroups}
use subconverter_ng.Groups.{resolve_selectors, build_groups}
use subconverter_ng.Node.{Node, new_node}
use subconverter_ng.Rules.Collect.{
  collect_rules, collect_rules-declared, declared, tailscale_rules, Accounts, build_rules,
  build_rules-Accounts, AllComplete,
}
use subconverter_ng.Rules.Formats.{lacks-Lacks, line_fields, split-format_clash_rule}
use subconverter_ng.Rules.Providers.Referred.{build_rule_providers-refers}
use subconverter_ng.Rules.Providers.{Provider, build_rule_providers}
use subconverter_ng.Rules.{
  Rule, is_match, normalize_rule_type, is_valid_rule_type, format_clash_rule,
}
use subconverter_ng.Strings.{split, to_lower, trim_space}

abbrev ruleset_text : Text
ruleset_text = codes "DOMAIN,a.com\nMATCH\nlonely"

abbrev rule_a : Rule
rule_a = record {
  typ = codes "HOST-SUFFIX";
  value = codes "a.com";
  group = codes "Proxy";
  flag = codes "no-resolve";
}

split-format_clash_rule_example :
    ((line : Text) × (format_clash_rule rule_a ≡ some line)
      × ((is_match rule_a || is_valid_rule_type (normalize_rule_type (codes "HOST-SUFFIX"))) ≡ true)
      × (split b',' line ≡ line_fields rule_a))
    ⊎ ((format_clash_rule rule_a ≡ none)
        × ((is_match rule_a || is_valid_rule_type (normalize_rule_type (codes "HOST-SUFFIX")))
            ≡ false))
split-format_clash_rule_example =
    split-format_clash_rule rule_a (lacks-Lacks b',' (codes "HOST-SUFFIX") refl)
      (lacks-Lacks b',' (codes "a.com") refl) (lacks-Lacks b',' (codes "Proxy") refl)
      (lacks-Lacks b',' (codes "no-resolve") refl)

-- Two remote rulesets around an inline one.
abbrev rulesets : List Ruleset
rulesets =
    record { group = codes "A"; url = codes "u1"; inline = [] }
    ∷ record { group = codes "B"; url = []; inline = codes "MATCH" }
    ∷ record { group = codes "C"; url = codes "u2"; inline = [] }
    ∷ []

abbrev config : Config
config = record default_config { rulesets = rulesets }

abbrev fetch : Text → Option Text
fetch url = some ruleset_text

all_complete : AllComplete (2 ∷ 0 ∷ 1 ∷ []) 3
unfolding completes
all_complete i h = ground arith

collect_rules-declared_example : collect_rules fetch (2 ∷ 0 ∷ 1 ∷ []) config true ≡ record {
  rules = (if true then tailscale_rules else []) ++ (declared fetch rulesets).rules;
  skipped = (declared fetch rulesets).skipped;
}
collect_rules-declared_example =
    collect_rules-declared fetch (2 ∷ 0 ∷ 1 ∷ []) config all_complete refl true

build_rules-Accounts_example :
    (unwritten : List Text) × ((build_rules fetch (2 ∷ 0 ∷ 1 ∷ []) config true).1
      ≡ (declared fetch rulesets).skipped ++ unwritten)
    × Accounts
        ((if true then tailscale_rules else []) ++ (declared fetch rulesets).rules)
        (build_rules fetch (2 ∷ 0 ∷ 1 ∷ []) config true).0
        unwritten
build_rules-Accounts_example =
    build_rules-Accounts fetch (2 ∷ 0 ∷ 1 ∷ []) config true all_complete refl

abbrev compile : Compile
compile pattern = some (record { matches = λ s. same s pattern; replace_all = λ s t. s })

abbrev nodes : List Node
nodes =
    new_node (codes "ss") (codes "hk") (codes "h") (pos 1)
    ∷ new_node (codes "ss") (codes "us") (codes "u") (pos 2)
    ∷ []

abbrev all_names : List Text
all_names = codes "hk" ∷ codes "us" ∷ []

abbrev selectors : List Text
selectors = codes "us" ∷ codes "[]DIRECT" ∷ codes ".*" ∷ []

resolve_selectors_lem_example :
    Distinct (resolve_selectors compile selectors nodes all_names)
    × ((x : Text)
        → has (resolve_selectors compile selectors nodes all_names) x
          ≡ (not (same x []) && any_selects compile nodes all_names selectors x))
resolve_selectors_lem_example = resolve_selectors_lem compile nodes all_names selectors

abbrev group_a : ProxyGroup
group_a = record {
  name = codes "Auto";
  typ = codes "select";
  selectors = selectors;
  test_url = [];
  interval = pos 0;
  timeout = pos 0;
  tolerance = pos 0;
}

abbrev group_b : ProxyGroup
group_b = record group_a { name = codes "None"; selectors = codes "jp" ∷ [] }

build_groups-AreGroups_example :
    AreGroups compile nodes all_names
      (group_a ∷ group_b ∷ [])
      (build_groups compile (group_a ∷ group_b ∷ []) nodes all_names).0
      (build_groups compile (group_a ∷ group_b ∷ []) nodes all_names).1
build_groups-AreGroups_example =
    build_groups-AreGroups compile nodes all_names (group_a ∷ group_b ∷ [])

-- One URL in two groups, and another.
abbrev shared : List Ruleset
shared =
    record { group = codes "A"; url = codes "u1"; inline = [] }
    ∷ record { group = codes "B"; url = codes "u1"; inline = [] }
    ∷ record { group = codes "C"; url = codes "u2"; inline = [] }
    ∷ []

abbrev second : Ruleset
second = record { group = codes "B"; url = codes "u1"; inline = [] }

build_rule_providers-refers_example :
    (name : Text) × (provider : Provider) × (lookup name
        (build_rule_providers (record default_config { rulesets = shared }) true).providers
      ≡ some provider)
    × (provider.url ≡ codes "u1")
    × (has
          (build_rule_providers (record default_config { rulesets = shared }) true).rules
          (codes "RULE-SET," ++ (name ++ codes ",B"))
        ≡ true)
build_rule_providers-refers_example =
    build_rule_providers-refers (record default_config { rulesets = shared }) true 1 second refl
      refl refl (λ e. cc)

abbrev ini : Text
ini = codes "[custom]\nruleset=Proxy,[]MATCH"

normalize_target-IsCanonical_example : IsCanonical (normalize_target (codes " ClashMeta "))
unfolding to_lower trim_space lookup same
normalize_target-IsCanonical_example =
    normalize_target-IsCanonical (codes " ClashMeta ") (codes "clash") refl
