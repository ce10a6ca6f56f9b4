-- ===== src/Rules/Providers.antt =====
-- internal/generator/clash.go: `buildRuleProviders`, which names one provider for each URL and
-- refers to it by a RULE-SET line for each group.
pub mod Linked
pub mod Referred
use subconverter_ng.Common.{
  ℕ, ◌+◌, Bool, true, false, not, Option, none, some, List, [], ◌∷◌, ◌++◌, Text, codes, same, has,
  if◌then◌else◌, lookup, insert, length, ◌>>=◌,
}
use subconverter_ng.ExtConfig.{Config, Ruleset}
use subconverter_ng.Rules.{parse_inline_rule, format_clash_rule}
use subconverter_ng.Strings.Decimal.{itoa_nat}

-- The mapping of one provider.
pub record Provider : Type 0 where
  pub typ : Text
  pub behavior : Text
  pub url : Text
  pub path : Text
  pub interval : ℕ
  pub format : Text

-- The variables of the loop.
pub record Providers : Type 0 where
  pub rules : List Text
  pub providers : List (Text × Provider)
  pub skipped : List Text
  pub by_url : List (Text × Text)
  pub seen_rule_set : List Text

unfoldable pub provider_name : ℕ → Text
provider_name i = codes "provider_" ++ itoa_nat i

abbrev pub provider_of : Text → Text → Provider
provider_of name url = record {
  typ = codes "http";
  behavior = codes "classical";
  url = url;
  path = codes "./ruleset/" ++ (name ++ codes ".list");
  interval = 86400;
  format = codes "text";
}

unfoldable pub expand_inline_rule : Text → Text → Option Text
expand_inline_rule body group = parse_inline_rule body group >>= format_clash_rule

-- The name of a URL's provider, which is made if there is none.
unfoldable pub register : Text → Providers → Text × Providers
register url p =
    let fresh = provider_name (length p.by_url + 1) in
    elim (lookup url p.by_url) [
      | some name ↦ (name, p)
      | none ↦ (
        fresh,
        record p {
          by_url = insert url fresh p.by_url;
          providers = insert fresh (provider_of fresh url) p.providers;
        },
      )
    ]

-- The line of a provider and a group, once.
unfoldable pub emit : Text → Text → Providers → Providers
emit name group p =
    let key = name ++ (0 ∷ group) in
    if has p.seen_rule_set key then p else record p {
      seen_rule_set = key ∷ p.seen_rule_set;
      rules = p.rules ++ ((codes "RULE-SET," ++ (name ++ (b',' ∷ group))) ∷ []);
    }

-- A ruleset with an inline rule.
unfoldable pub add_inline : Ruleset → Providers → Providers
add_inline rs p = elim (expand_inline_rule rs.inline rs.group) [
  | some rule ↦ record p { rules = p.rules ++ (rule ∷ []) }
  | none ↦ record p { skipped = p.skipped ++ ((rs.inline ++ (b',' ∷ rs.group)) ∷ []) }
]

-- One round of the loop.
unfoldable pub add_ruleset : Ruleset → Providers → Providers
add_ruleset rs p =
    if not (same rs.inline [])
    then add_inline rs p
    else if same rs.url []
    then p
    else let (name, q) = register rs.url p in emit name rs.group q

unfoldable pub add_rulesets : List Ruleset → Providers → Providers
add_rulesets [] p = p
add_rulesets (rs ∷ rest) p = add_rulesets rest (add_ruleset rs p)

-- What is there before the loop.
unfoldable pub start_with : Bool → Providers
start_with tailscale = record {
  rules =
      if tailscale
      then codes "IP-CIDR,100.64.0.0/10,DIRECT,no-resolve"
        ∷ codes "IP-CIDR,fd7a:115c:a1e0::/48,DIRECT,no-resolve"
        ∷ []
      else [];
  providers = [];
  skipped = [];
  by_url = [];
  seen_rule_set = [];
}

unfoldable pub build_rule_providers : Config → Bool → Providers
build_rule_providers cfg tailscale =
    if not cfg.enable_rule_generator
    then start_with tailscale
    else add_rulesets cfg.rulesets (start_with tailscale)
