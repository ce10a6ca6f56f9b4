-- ===== src/ExtConfig.antt =====
-- internal/extconfig/extconfig.go: the INI-style external config, line by line.
pub mod Lines
use subconverter_ng.Common.{
  ℕ, Bool, true, false, ◌&&◌, ◌||◌, Option, none, some, List, [], ◌∷◌, ◌++◌, Text, codes, same, leb,
  ◌==◌, if◌then◌else◌, ℤ, pos, get_elem?, drop,
}
use subconverter_ng.Emoji.{Regex, Compile}
use subconverter_ng.Strings.Decimal.{atoi}
use subconverter_ng.Strings.{trim_space, trim_right, has_prefix, has_suffix, cut, split, is_on}

-- Exactly one of `url` and `inline` is not empty, but for the inline rule of no text.
pub record Ruleset : Type 0 where
  pub group : Text
  pub url : Text
  pub inline : Text

pub record ProxyGroup : Type 0 where
  pub name : Text
  pub typ : Text
  pub selectors : List Text
  pub test_url : Text
  pub interval : ℤ
  pub timeout : ℤ
  pub tolerance : ℤ

pub record Config : Type 0 where
  pub rulesets : List Ruleset
  pub proxy_groups : List ProxyGroup
  pub exclude_remarks : List Regex
  pub include_remarks : List Regex
  pub exclude_protocols : List Text
  pub enable_rule_generator : Bool
  pub overwrite_rules : Bool
  pub clash_rule_base : Text
  pub rename_rules : List Text
  pub emoji_rules : List Text
  pub add_emoji : Option Bool
  pub remove_old_emoji : Option Bool

-- The config before the first line.
abbrev pub default_config : Config
default_config = record {
  rulesets = [];
  proxy_groups = [];
  exclude_remarks = [];
  include_remarks = [];
  exclude_protocols = [];
  enable_rule_generator = true;
  overwrite_rules = false;
  clash_rule_base = [];
  rename_rules = [];
  emoji_rules = [];
  add_emoji = none;
  remove_old_emoji = none;
}

-- `Literal`: the name that a selector `[]name` refers to.
unfoldable pub literal : Text → Option Text
unfolding has_prefix
literal selector = if has_prefix selector (codes "[]") then some (drop 2 selector) else none

unfoldable pub parse_ruleset : Text → Option Ruleset
unfolding cut trim_space has_prefix same
parse_ruleset val = elim (cut b',' val) [
  | none ↦ none
  | some (g, r) ↦
      let group = trim_space g in
      let rhs = trim_space r in
      if same group [] || same rhs []
      then none
      else if has_prefix rhs (codes "[]")
      then some (record { group = group; url = []; inline = drop 2 rhs })
      else some (record { group = group; url = rhs; inline = [] })
]

unfoldable pub is_digit : ℕ → Bool
is_digit c = leb b'0' c && leb c b'9'

-- The part of `intervalSpec` behind its first digit: digits, and commas.
unfoldable pub is_interval_rest : Text → Bool
unfolding is_digit
is_interval_rest [] = true
is_interval_rest (c ∷ s) = (is_digit c || c == b',') && is_interval_rest s

-- `intervalSpec`, `^\d+(,\d*)*$`.
unfoldable pub is_interval_spec : Text → Bool
unfolding is_digit is_interval_rest
is_interval_spec [] = false
is_interval_spec (c ∷ s) = is_digit c && is_interval_rest s

-- The number at a position of the parts, or 0.
unfoldable pub part_at : List Text → ℕ → ℤ
unfolding atoi
part_at parts i = elim (get_elem? parts i) [ none ↦ pos 0 | some p ↦ (atoi p).value ]

unfoldable pub parse_interval : Text → ℤ × ℤ × ℤ
unfolding split part_at
parse_interval s = let parts = split b',' s in (part_at parts 0, part_at parts 1, part_at parts 2)

-- One token of a group, behind its name and type.
unfoldable pub add_group_token : ProxyGroup → Text → ProxyGroup
unfolding trim_space has_prefix is_interval_spec parse_interval same
add_group_token g raw =
    let tok = trim_space raw in
    if same tok []
    then g
    else if has_prefix tok (codes "http://") || has_prefix tok (codes "https://")
    then record g { test_url = tok }
    else if is_interval_spec tok
    then (let (i, t, w) = parse_interval tok in
        record g { interval = i; timeout = t; tolerance = w })
    else record g { selectors = g.selectors ++ (tok ∷ []) }

unfoldable pub add_group_tokens : ProxyGroup → List Text → ProxyGroup
unfolding add_group_token
add_group_tokens g [] = g
add_group_tokens g (t ∷ ts) = add_group_tokens (add_group_token g t) ts

unfoldable pub group_of : List Text → Option ProxyGroup
unfolding add_group_tokens trim_space same
group_of (name ∷ typ ∷ tok ∷ toks) =
    let g : ProxyGroup = record {
      name = trim_space name;
      typ = trim_space typ;
      selectors = [];
      test_url = [];
      interval = pos 0;
      timeout = pos 0;
      tolerance = pos 0;
    } in
    if same (trim_space name) [] || same (trim_space typ) []
    then none
    else some (add_group_tokens g (tok ∷ toks))
group_of _ = none

unfoldable pub parse_proxy_group : Text → Option ProxyGroup
unfolding group_of split
parse_proxy_group val = group_of (split b'`' val)

-- A key that names protocols to exclude.
unfoldable pub is_exclude_key : Text → Bool
unfolding same
is_exclude_key key =
    same key (codes "exclude_protocol")
    || same key (codes "exclude_protocols")
    || same key (codes "exclude_type")
    || same key (codes "exclude_types")
    || same key (codes "filter_protocol")
    || same key (codes "filter_protocols")
    || same key (codes "filter_type")
    || same key (codes "filter_types")

-- Appends what a parser gave, if it gave anything.
abbrev pub add_some {ℓ} : {A : Type ℓ} → List A → Option A → List A
add_some xs none = xs
add_some xs (some x) = xs ++ (x ∷ [])

-- The `switch` over the key of a line.
unfoldable pub apply_key : Compile → Text → Text → Config → Config
unfolding parse_ruleset parse_proxy_group is_exclude_key is_on same
apply_key compile key val cfg =
    if same key (codes "ruleset")
    then record cfg { rulesets = add_some cfg.rulesets (parse_ruleset val) }
    else if same key (codes "custom_proxy_group")
    then record cfg { proxy_groups = add_some cfg.proxy_groups (parse_proxy_group val) }
    else if same key (codes "exclude_remarks")
    then record cfg { exclude_remarks = add_some cfg.exclude_remarks (compile val) }
    else if same key (codes "include_remarks")
    then record cfg { include_remarks = add_some cfg.include_remarks (compile val) }
    else if is_exclude_key key
    then (if same val []
        then cfg
        else record cfg { exclude_protocols = cfg.exclude_protocols ++ (val ∷ []) })
    else if same key (codes "enable_rule_generator")
    then record cfg { enable_rule_generator = is_on val }
    else if same key (codes "overwrite_original_rules")
    then record cfg { overwrite_rules = is_on val }
    else if same key (codes "clash_rule_base")
    then record cfg { clash_rule_base = val }
    else if same key (codes "rename")
    then (if same val [] then cfg else record cfg { rename_rules = cfg.rename_rules ++ (val ∷ []) })
    else if same key (codes "emoji")
    then record cfg { emoji_rules = cfg.emoji_rules ++ (val ∷ []) }
    else if same key (codes "add_emoji")
    then record cfg { add_emoji = some (is_on val) }
    else if same key (codes "remove_old_emoji")
    then record cfg { remove_old_emoji = some (is_on val) }
    else cfg

-- One line of the file: a blank line, a comment, a section header and a line with no `=` change
-- nothing.
unfoldable pub parse_line : Compile → Text → Config → Config
unfolding apply_key trim_space trim_right has_prefix has_suffix cut same
parse_line compile raw cfg =
    let line = trim_space (trim_right (λ c. c == b'\r') raw) in
    if same line []
      || has_prefix line (codes ";")
      || has_prefix line (codes "#")
      || has_prefix line (codes "[") && has_suffix line (codes "]")
    then cfg
    else elim (cut b'=' line) [
      | none ↦ cfg
      | some (key, val) ↦ apply_key compile (trim_space key) (trim_space val) cfg
    ]

unfoldable pub parse_lines : Compile → List Text → Config → Config
unfolding parse_line
parse_lines compile [] cfg = cfg
parse_lines compile (l ∷ ls) cfg = parse_lines compile ls (parse_line compile l cfg)

unfoldable pub parse_config : Compile → Text → Config
unfolding parse_lines split
parse_config compile text = parse_lines compile (split b'\n' text) default_config
