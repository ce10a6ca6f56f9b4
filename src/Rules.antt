-- ===== src/Rules.antt =====
-- internal/generator/common.go and clash.go: the neutral rules, how a ruleset is read into them,
-- and how the Clash generator writes them.
pub mod Formats
pub mod Remote
pub mod Collect
pub mod Providers
use subconverter_ng.Common.{
  ℕ, suc, Bool, true, false, not, ◌&&◌, ◌||◌, Option, none, some, List, [], ◌∷◌, ◌++◌, map, Text,
  codes, same, has, if◌then◌else◌, ◌==◌,
}
use subconverter_ng.ExtConfig.{Ruleset}
use subconverter_ng.Strings.{
  trim_space, trim_right, trim_set, trim_prefix, to_upper, equal_fold, has_prefix, cut, split,
}

pub record Rule : Type 0 where
  pub typ : Text
  pub value : Text
  pub group : Text
  pub flag : Text

unfoldable pub is_final : Text → Bool
unfolding equal_fold
is_final s = equal_fold s (codes "MATCH") || equal_fold s (codes "FINAL")

-- `Rule.IsMatch`.
unfoldable pub is_match : Rule → Bool
unfolding is_final
is_match r = is_final r.typ

unfoldable pub normalize_rule_type : Text → Text
unfolding to_upper trim_space same
normalize_rule_type typ =
    let t = to_upper (trim_space typ) in
    if same t (codes "HOST")
    then codes "DOMAIN"
    else if same t (codes "HOST-SUFFIX")
    then codes "DOMAIN-SUFFIX"
    else if same t (codes "HOST-KEYWORD")
    then codes "DOMAIN-KEYWORD"
    else if same t (codes "HOST-WILDCARD")
    then codes "DOMAIN-SUFFIX"
    else if same t (codes "DEST-PORT")
    then codes "DST-PORT"
    else if same t (codes "IP6-CIDR")
    then codes "IP-CIDR6"
    else t

-- `validRuleTypes`.
abbrev pub valid_rule_types : List Text
valid_rule_types =
    codes "DOMAIN"
    ∷ codes "DOMAIN-SUFFIX"
    ∷ codes "DOMAIN-KEYWORD"
    ∷ codes "DOMAIN-REGEX"
    ∷ codes "GEOSITE"
    ∷ codes "IP-CIDR"
    ∷ codes "IP-CIDR6"
    ∷ codes "IP-SUFFIX"
    ∷ codes "IP-ASN"
    ∷ codes "GEOIP"
    ∷ codes "SRC-GEOIP"
    ∷ codes "SRC-IP-CIDR"
    ∷ codes "SRC-IP-SUFFIX"
    ∷ codes "SRC-IP-ASN"
    ∷ codes "DST-PORT"
    ∷ codes "SRC-PORT"
    ∷ codes "IN-PORT"
    ∷ codes "IN-TYPE"
    ∷ codes "IN-USER"
    ∷ codes "IN-NAME"
    ∷ codes "PROCESS-NAME"
    ∷ codes "PROCESS-PATH"
    ∷ codes "PROCESS-NAME-REGEX"
    ∷ codes "PROCESS-PATH-REGEX"
    ∷ codes "NETWORK"
    ∷ codes "DSCP"
    ∷ codes "UID"
    ∷ codes "RULE-SET"
    ∷ codes "AND"
    ∷ codes "OR"
    ∷ codes "NOT"
    ∷ codes "SUB-RULE"
    ∷ codes "MATCH"
    ∷ []

unfoldable pub is_valid_rule_type : Text → Bool
unfolding to_upper trim_space has
is_valid_rule_type typ = has valid_rule_types (to_upper (trim_space typ))

-- A Clash rule line; `none` for a type that Clash.Meta does not accept.
unfoldable pub format_clash_rule : Rule → Option Text
unfolding is_match normalize_rule_type is_valid_rule_type same
format_clash_rule r =
    let canon = normalize_rule_type r.typ in
    if is_match r
    then some (codes "MATCH," ++ r.group)
    else if not (is_valid_rule_type canon)
    then none
    else some (
        canon
        ++ (b','
            ∷ (r.value ++ (b',' ∷ (r.group ++ (if same r.flag [] then [] else b',' ∷ r.flag))))))

-- The body of an inline rule; `none` for a lone word that is not the catch-all.
unfoldable pub parse_inline_rule : Text → Text → Option Rule
unfolding is_final cut
parse_inline_rule body group =
    if is_final body
    then some (record { typ = codes "MATCH"; value = []; group = group; flag = [] })
    else elim (cut b',' body) [
      | none ↦ none
      | some (typ, val) ↦ some (record { typ = typ; value = val; group = group; flag = [] })
    ]

-- What one line of a ruleset gives.
pub data Line : Type 0 where
  nothing : Line
  rule : Rule → Line
  skip : Text → Line

-- A line that is blank or a comment.
unfoldable pub is_comment : Text → Bool
unfolding same has_prefix
is_comment line =
    same line []
    || has_prefix line (codes "#")
    || has_prefix line (codes ";")
    || has_prefix line (codes "//")

-- The parts of a line, each trimmed, read as a rule of the group.
unfoldable pub rule_of : Text → Text → List Text → Line
unfolding is_final
rule_of line group (t ∷ v ∷ []) = rule (record { typ = t; value = v; group = group; flag = [] })
rule_of line group (t ∷ v ∷ f ∷ []) = rule (record { typ = t; value = v; group = group; flag = f })
rule_of line group (w ∷ []) =
    if is_final w
    then rule (record { typ = codes "MATCH"; value = []; group = group; flag = [] })
    else skip line
rule_of line group _ = nothing

unfoldable pub parse_fields : Text → Text → Line
unfolding rule_of split trim_space
parse_fields group line = rule_of line group (map trim_space (split b',' line))

-- Takes off what a provider-style YAML list puts round a rule; `none` where nothing is left.
unfoldable pub unwrap : Text → Option Text
unfolding has_prefix trim_prefix trim_set same
unwrap line =
    let inner = trim_set (codes "'\"") (trim_prefix line (codes "- ")) in
    if has_prefix line (codes "payload:") || has_prefix line (codes "- ")
    then (if same inner [] || has_prefix inner (codes "payload") then none else some inner)
    else some line

unfoldable pub parse_rule_line : Text → Text → Line
unfolding is_comment unwrap parse_fields trim_space trim_right
parse_rule_line group raw =
    let line = trim_space (trim_right (λ c. c == b'\r') raw) in
    if is_comment line
    then nothing
    else elim (unwrap line) [ none ↦ nothing | some inner ↦ parse_fields group inner ]

-- Rules, and what was skipped.
pub record Parsed : Type 0 where
  pub rules : List Rule
  pub skipped : List Text

abbrev pub nothing_parsed : Parsed
nothing_parsed = record { rules = []; skipped = [] }

abbrev pub add_line : Line → Parsed → Parsed
add_line nothing p = p
add_line (rule r) p = record p { rules = r ∷ p.rules }
add_line (skip s) p = record p { skipped = s ∷ p.skipped }

unfoldable pub parse_rule_lines : Text → List Text → Parsed
unfolding parse_rule_line
parse_rule_lines group [] = nothing_parsed
parse_rule_lines group (l ∷ ls) = add_line (parse_rule_line group l) (parse_rule_lines group ls)

unfoldable pub parse_remote_ruleset : Text → Text → Parsed
unfolding parse_rule_lines split
parse_remote_ruleset text group = parse_rule_lines group (split b'\n' text)
