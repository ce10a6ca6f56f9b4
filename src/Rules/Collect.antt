-- ===== src/Rules/Collect.antt =====
-- `collectRules` and `buildRules`: the remote rulesets are fetched by one goroutine each, and put
-- together in the declared order.
--
-- `fetch` is the text that a fetch of a URL gives, if it succeeds; a goroutine that the context
-- cancels leaves its slot like a fetch that fails. `order` is the order in which the goroutines
-- write their slots: the semaphore bounds how many run at once, and settles nothing else.
use subconverter_ng.Common.{
  ℕ, suc, ◌<◌, ◌≡◌, refl, subst⁻¹, ◌⊎◌, inl, inr, Bool, true, Option, none, some, List, [], ◌∷◌,
  ◌++◌, Text, codes, same, if◌then◌else◌, length, get_elem?, arith, Option-cases, completes,
  run_tasks, run_tasks_slot,
}
use subconverter_ng.ExtConfig.{Config, Ruleset}
use subconverter_ng.Rules.Remote.{parsed_append}
use subconverter_ng.Rules.{
  Rule, Parsed, nothing_parsed, parse_inline_rule, parse_remote_ruleset, format_clash_rule,
}

-- `tailscaleRules`.
abbrev pub tailscale_rules : List Rule
tailscale_rules =
    record {
      typ = codes "IP-CIDR";
      value = codes "100.64.0.0/10";
      group = codes "DIRECT";
      flag = codes "no-resolve";
    }
    ∷ record {
      typ = codes "IP-CIDR";
      value = codes "fd7a:115c:a1e0::/48";
      group = codes "DIRECT";
      flag = codes "no-resolve";
    }
    ∷ []

-- What a goroutine writes for a ruleset; one with no URL has no goroutine.
unfoldable pub fetched : (Text → Option Text) → Ruleset → Parsed
unfolding parse_remote_ruleset same
fetched fetch rs = if same rs.url [] then nothing_parsed else elim (fetch rs.url) [
  | none ↦ nothing_parsed
  | some text ↦ parse_remote_ruleset text rs.group
]

unfoldable pub fetched_at : (Text → Option Text) → List Ruleset → ℕ → Parsed
unfolding fetched
fetched_at fetch rulesets i = elim (get_elem? rulesets i) [
  | none ↦ nothing_parsed
  | some rs ↦ fetched fetch rs
]

-- One round of the loop that puts the slots together.
unfoldable pub expand : Ruleset → Parsed → Parsed
unfolding parse_inline_rule same
expand rs slot = if same rs.inline [] then slot else elim (parse_inline_rule rs.inline rs.group) [
  | some r ↦ record { rules = r ∷ []; skipped = [] }
  | none ↦ record { rules = []; skipped = (rs.inline ++ (b',' ∷ rs.group)) ∷ [] }
]

unfoldable pub assemble : List Ruleset → (ℕ → Parsed) → Parsed
unfolding expand
assemble [] slots = nothing_parsed
assemble (rs ∷ rest) slots =
    parsed_append (expand rs (slots 0)) (assemble rest (λ i. slots (suc i)))

unfoldable pub collect_rules : (Text → Option Text) → List ℕ → Config → Bool → Parsed
unfolding assemble run_tasks fetched_at
collect_rules fetch order cfg tailscale =
    let ts : List Rule = if tailscale then tailscale_rules else [] in
    let p =
      assemble cfg.rulesets
        (run_tasks (fetched_at fetch cfg.rulesets) order (λ i. nothing_parsed)) in
    if cfg.enable_rule_generator
    then record { rules = ts ++ p.rules; skipped = p.skipped }
    else record { rules = ts; skipped = [] }

-- The rules that the declared order gives, with no goroutines.
unfoldable pub declared : (Text → Option Text) → List Ruleset → Parsed
unfolding expand fetched
declared fetch [] = nothing_parsed
declared fetch (rs ∷ rest) = parsed_append (expand rs (fetched fetch rs)) (declared fetch rest)

assemble_pointwise :
    (fetch : Text → Option Text) (rulesets : List Ruleset) (slots : ℕ → Parsed)
    → ((i : ℕ) → i < length rulesets → slots i ≡ fetched_at fetch rulesets i)
    → assemble rulesets slots ≡ declared fetch rulesets
unfolding assemble declared fetched_at
assemble_pointwise fetch [] slots h = refl
assemble_pointwise fetch (rs ∷ rest) slots h = rw (
  h 0 (omega arith),
  assemble_pointwise fetch rest (λ i. slots (suc i)) (λ i l. h (suc i) (omega arith)),
)

-- Every remote ruleset of the list is fetched to the end.
abbrev pub AllComplete : List ℕ → ℕ → Type 0
AllComplete order n = (i : ℕ) → i < n → completes order i ≡ true

-- With the rule generator enabled and every fetch run to its end, the order in which the fetches
-- complete makes no difference: the rules, behind those for Tailscale if asked for, and the
-- skipped entries are those of the declared order.
pub collect_rules-declared :
    (fetch : Text → Option Text) (order : List ℕ) (cfg : Config)
    → AllComplete order (length cfg.rulesets)
    → cfg.enable_rule_generator ≡ true
    → (tailscale : Bool)
    → collect_rules fetch order cfg tailscale ≡ record {
      rules = (if tailscale then tailscale_rules else []) ++ (declared fetch cfg.rulesets).rules;
      skipped = (declared fetch cfg.rulesets).skipped;
    }
unfolding collect_rules
collect_rules-declared fetch order cfg all on tailscale = rw (
  on,
  assemble_pointwise fetch cfg.rulesets _ (λ i l.
      run_tasks_slot (fetched_at fetch cfg.rulesets) order (λ j. nothing_parsed) i (all i l)),
)

-- The loop of `buildRules`: the lines, and what is added to the skipped entries.
unfoldable pub format_rules : List Rule → List Text × List Text
unfolding format_clash_rule
format_rules [] = ([], [])
format_rules (r ∷ rs) =
    let (lines, skipped) = format_rules rs in
    elim (format_clash_rule r) [
      | some line ↦ (line ∷ lines, skipped)
      | none ↦ (lines, (r.typ ++ (b',' ∷ r.value)) ∷ skipped)
    ]

unfoldable pub build_rules : (Text → Option Text) → List ℕ → Config → Bool → List Text × List Text
unfolding collect_rules format_rules
build_rules fetch order cfg tailscale =
    let neutral = collect_rules fetch order cfg tailscale in
    let (lines, skipped) = format_rules neutral.rules in (lines, neutral.skipped ++ skipped)

-- Every line is the line of a rule, in order, and every other rule is reported.
abbrev pub Accounts : List Rule → List Text → List Text → Type 0
Accounts [] lines skipped = (lines ≡ []) × (skipped ≡ [])
Accounts (r ∷ rs) lines skipped =
    ((line : Text) × (rest : List Text) × (format_clash_rule r ≡ some line)
      × (lines ≡ line ∷ rest)
      × Accounts rs rest skipped)
    ⊎ ((rest : List Text) × (format_clash_rule r ≡ none)
        × (skipped ≡ (r.typ ++ (b',' ∷ r.value)) ∷ rest)
        × Accounts rs lines rest)

format_rules-Accounts : (rs : List Rule) → Accounts rs (format_rules rs).0 (format_rules rs).1
unfolding format_rules
format_rules-Accounts [] = (refl, refl)
format_rules-Accounts (r ∷ rs) = elim (Option-cases (format_clash_rule r)) [
  | inr (line, e) ↦ inl (
    line,
    (format_rules rs).0,
    e,
    first line e,
    subst⁻¹ (Accounts rs (format_rules rs).0) (second line e) (format_rules-Accounts rs),
  )
  | inl e ↦ inr (
    (format_rules rs).1,
    e,
    skips e,
    subst⁻¹ (λ l. Accounts rs l (format_rules rs).1) (keeps e) (format_rules-Accounts rs),
  )
]
  where
    first :
        (line : Text)
        → format_clash_rule r ≡ some line
        → (format_rules (r ∷ rs)).0 ≡ line ∷ (format_rules rs).0
    first line e = rw (e, format_rules)

    second :
        (line : Text)
        → format_clash_rule r ≡ some line
        → (format_rules (r ∷ rs)).1 ≡ (format_rules rs).1
    second line e = rw (e, format_rules)

    skips :
        format_clash_rule r ≡ none
        → (format_rules (r ∷ rs)).1 ≡ (r.typ ++ (b',' ∷ r.value)) ∷ (format_rules rs).1
    skips e = rw (e, format_rules)

    keeps : format_clash_rule r ≡ none → (format_rules (r ∷ rs)).0 ≡ (format_rules rs).0
    keeps e = rw (e, format_rules)

-- With the rule generator enabled and every fetch run to its end, the written lines and the skipped
-- entries account for the rulesets in the declared order: the rules for Tailscale if asked for and
-- the rules of the rulesets each have their line, or their type and value among the skipped entries,
-- and these stand behind the entries that were skipped while the rulesets were read.
pub build_rules-Accounts :
    (fetch : Text → Option Text) (order : List ℕ) (cfg : Config) (tailscale : Bool)
    → AllComplete order (length cfg.rulesets)
    → cfg.enable_rule_generator ≡ true
    → (unwritten : List Text) × ((build_rules fetch order cfg tailscale).1
        ≡ (declared fetch cfg.rulesets).skipped ++ unwritten)
      × Accounts
          ((if tailscale then tailscale_rules else []) ++ (declared fetch cfg.rulesets).rules)
          (build_rules fetch order cfg tailscale).0
          unwritten
unfolding build_rules
build_rules-Accounts fetch order cfg tailscale all on =
    rw (collect_rules-declared fetch order cfg all on tailscale) (_, refl, format_rules-Accounts _)
