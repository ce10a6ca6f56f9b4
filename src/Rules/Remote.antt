-- ===== src/Rules/Remote.antt =====
-- How a ruleset file is read: line by line, every rule under the ruleset's group.
use subconverter_ng.Common.{
  suc, ◌+◌, ◌≤◌, ◌≡◌, refl, inl, inr, List, [], ◌∷◌, ◌++◌, map, Text, ◌==◌, All, length, arith,
  Bool-cases, Option-cases,
}
use subconverter_ng.Rules.{
  Line, nothing, rule, skip, is_comment, is_final, rule_of, parse_fields, unwrap, parse_rule_line,
  Parsed, add_line, parse_rule_lines, parse_remote_ruleset,
}
use subconverter_ng.Strings.Laws.{split-append, trim_right-concat}
use subconverter_ng.Strings.{trim_space, trim_right, split}

abbrev pub Tagged : Text → Line → Type 0
Tagged group nothing = Unit
Tagged group (rule r) = r.group ≡ group
Tagged group (skip s) = Unit

rule_of-Tagged : (line group : Text) (parts : List Text) → Tagged group (rule_of line group parts)
unfolding rule_of
rule_of-Tagged line group [] = tt
rule_of-Tagged line group (w ∷ []) = elim (Bool-cases (is_final w)) [
  | inl t ↦ rw t refl
  | inr f ↦ rw f tt
]
rule_of-Tagged line group (t ∷ v ∷ []) = refl
rule_of-Tagged line group (t ∷ v ∷ f ∷ []) = refl
rule_of-Tagged line group (t ∷ v ∷ f ∷ g ∷ ps) = tt

parse_fields-Tagged : (group line : Text) → Tagged group (parse_fields group line)
unfolding parse_fields
parse_fields-Tagged group line = rule_of-Tagged line group (map trim_space (split b',' line))

parse_rule_line-Tagged : (group raw : Text) → Tagged group (parse_rule_line group raw)
unfolding parse_rule_line
parse_rule_line-Tagged group raw =
    let line = trim_space (trim_right (λ c. c == b'\r') raw) in
    elim (Bool-cases (is_comment line)) [
      | inl t ↦ rw t tt
      | inr f ↦ elim (Option-cases (unwrap line)) [
        | inl z ↦ rw (f, z) tt
        | inr (inner, z) ↦ rw (f, z) (parse_fields-Tagged group inner)
      ]
    ]

add_line-group :
    (group : Text) (l : Line) (p : Parsed)
    → Tagged group l
    → All (λ r. r.group ≡ group) p.rules
    → All (λ r. r.group ≡ group) (add_line l p).rules
add_line-group group nothing p t a = a
add_line-group group (rule r) p t a = (t, a)
add_line-group group (skip s) p t a = a

add_line-count :
    (l : Line) (p : Parsed)
    → length (add_line l p).rules + length (add_line l p).skipped
      ≤ suc (length p.rules + length p.skipped)
add_line-count nothing p = omega arith
add_line-count (rule r) p = omega arith
add_line-count (skip s) p = omega arith

parse_rule_lines_lem :
    (group : Text) (ls : List Text)
    → All (λ r. r.group ≡ group) (parse_rule_lines group ls).rules
      × (length (parse_rule_lines group ls).rules + length (parse_rule_lines group ls).skipped
          ≤ length ls)
unfolding parse_rule_lines
parse_rule_lines_lem group [] = (tt, omega arith)
parse_rule_lines_lem group (l ∷ ls) =
    let ih = parse_rule_lines_lem group ls in
    let line = parse_rule_line group l in
    (
      add_line-group group line (parse_rule_lines group ls) (parse_rule_line-Tagged group l) ih.0,
      omega (arith, add_line-count line (parse_rule_lines group ls), ih.1),
    )

-- Every rule of a ruleset file goes to the ruleset's group, and each line of the file gives one
-- rule or one skipped entry at most.
pub parse_remote_ruleset_lem :
    (text group : Text)
    → All (λ r. r.group ≡ group) (parse_remote_ruleset text group).rules
      × (length (parse_remote_ruleset text group).rules
            + length (parse_remote_ruleset text group).skipped
          ≤ length (split b'\n' text))
unfolding parse_remote_ruleset
parse_remote_ruleset_lem text group = parse_rule_lines_lem group (split b'\n' text)

-- One file after another.
abbrev pub parsed_append : Parsed → Parsed → Parsed
parsed_append p q = record { rules = p.rules ++ q.rules; skipped = p.skipped ++ q.skipped }

add_line-append :
    (l : Line) (p q : Parsed) → add_line l (parsed_append p q) ≡ parsed_append (add_line l p) q
add_line-append nothing p q = refl
add_line-append (rule r) p q = refl
add_line-append (skip s) p q = refl

parse_rule_lines-append :
    (group : Text) (xs ys : List Text)
    → parse_rule_lines group (xs ++ ys)
      ≡ parsed_append (parse_rule_lines group xs) (parse_rule_lines group ys)
unfolding parse_rule_lines
parse_rule_lines-append group [] ys = refl
parse_rule_lines-append group (x ∷ xs) ys = rw (parse_rule_lines-append group xs ys) (
    add_line-append (parse_rule_line group x) (parse_rule_lines group xs)
      (parse_rule_lines group ys))

-- Reading two texts joined by a line break gives what the first gives and then what the second
-- gives, in rules and in skipped lines: no line is read in the light of another.
pub parse_remote_ruleset-append :
    (a b group : Text)
    → parse_remote_ruleset (a ++ (b'\n' ∷ b)) group
      ≡ parsed_append (parse_remote_ruleset a group) (parse_remote_ruleset b group)
unfolding parse_remote_ruleset
parse_remote_ruleset-append a b group =
    rw (split-append b'\n' a b) (parse_rule_lines-append group (split b'\n' a) (split b'\n' b))

-- Lines that end in a carriage return too are read like lines that do not.
pub parse_rule_lines-crlf :
    (group : Text) (ls : List Text)
    → parse_rule_lines group (map (λ l. l ++ (b'\r' ∷ [])) ls) ≡ parse_rule_lines group ls
unfolding parse_rule_lines parse_rule_line
parse_rule_lines-crlf group [] = refl
parse_rule_lines-crlf group (l ∷ ls) =
    rw (trim_right-concat (λ c. c == b'\r') l b'\r' refl, parse_rule_lines-crlf group ls)
