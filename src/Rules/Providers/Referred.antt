-- ===== src/Rules/Providers/Referred.antt =====
-- Every ruleset with a URL has a RULE-SET line, which refers to the provider with that URL.
use subconverter_ng.Common.{
  ℕ, zero, suc, ◌+◌, ◌≡◌, refl, ◌∙◌, inl, inr, Bool, true, false, some, List, [], ◌∷◌, ◌++◌, Text,
  codes, same, same_iff, same_self, same_ne, ◌≢◌, has, has-concat, lookup, lookup-insert, length,
  get_elem?, arith, Bool-cases, Option-cases,
}
use subconverter_ng.ExtConfig.{Config, Ruleset}
use subconverter_ng.Rules.Providers.Linked.{
  rule_set, register-lookup, register_old, register_new, lined-concat, IsLinked, register-IsLinked,
  add_ruleset-IsLinked, add_rulesets-IsLinked, start_with-IsLinked,
}
use subconverter_ng.Rules.Providers.{
  Provider, Providers, provider_name, provider_of, register, emit, add_inline, add_ruleset,
  add_rulesets, start_with, build_rule_providers, expand_inline_rule,
}

-- The URL has a name, and the line of that name and the group is written.
abbrev IsReferred : Text → Text → Providers → Type 0
IsReferred url group p =
    (name : Text) × (lookup url p.by_url ≡ some name) × (has p.rules (rule_set name group) ≡ true)

emit-has :
    (name group : Text) (p : Providers) (line : Text)
    → has p.rules line ≡ true
    → has (emit name group p).rules line ≡ true
unfolding emit
emit-has name group p line h = elim (Bool-cases (has p.seen_rule_set (name ++ (0 ∷ group)))) [
  | inl t ↦ rw t h
  | inr f ↦ rw f (lined-concat p.rules (rule_set name group) line h)
]

emit-by_url : (name group : Text) (p : Providers) → (emit name group p).by_url ≡ p.by_url
unfolding emit
emit-by_url name group p = elim (Bool-cases (has p.seen_rule_set (name ++ (0 ∷ group)))) [
  | inl t ↦ rw t
  | inr f ↦ rw f
]

register-rules : (url : Text) (p : Providers) → (register url p).1.rules ≡ p.rules
register-rules url p = elim (Option-cases (lookup url p.by_url)) [
  | inl z ↦ rw (register_new url p z)
  | inr (name, e) ↦ rw (register_old url p name e)
]

register-kept :
    (url u name : Text) (p : Providers)
    → lookup u p.by_url ≡ some name
    → lookup u (register url p).1.by_url ≡ some name
register-kept url u name p h = elim (Option-cases (lookup url p.by_url)) [
  | inr (other, e) ↦ rw (register_old url p other e) h
  | inl z ↦ rw (register_new url p z) (
      lookup-insert url u (provider_name (length p.by_url + 1)) p.by_url
      ∙ elim (Bool-cases (same url u)) [
        | inl t ↦ cc (rw ((same_iff url u).0 t) at z)
        | inr f ↦ rw f h
      ])
]

-- A round of the loop leaves what is referred to as it is.
add_ruleset-kept :
    (url group : Text) (rs : Ruleset) (p : Providers)
    → IsReferred url group p
    → IsReferred url group (add_ruleset rs p)
unfolding add_ruleset add_inline
add_ruleset-kept url group rs p (name, e, h) = elim (Bool-cases (same rs.inline [])) [
  | inr f ↦ elim (Option-cases (expand_inline_rule rs.inline rs.group)) [
    | inl z ↦ rw (f, z, add_inline) (name, e, h)
    | inr (rule, z) ↦ rw (f, z, add_inline) (name, e, lined-concat p.rules rule _ h)
  ]
  | inl t ↦ elim (Bool-cases (same rs.url [])) [
    | inl u ↦ rw (t, u) (name, e, h)
    | inr u ↦
        rw (t, u)
          (
            name,
            rw (emit-by_url (register rs.url p).0 rs.group (register rs.url p).1)
                (register-kept rs.url url name p e),
            emit-has (register rs.url p).0 rs.group (register rs.url p).1 _
                (rw (register-rules rs.url p) h),
          )
  ]
]

add_rulesets-kept :
    (url group : Text) (rulesets : List Ruleset) (p : Providers)
    → IsReferred url group p
    → IsReferred url group (add_rulesets rulesets p)
unfolding add_rulesets
add_rulesets-kept url group [] p r = r
add_rulesets-kept url group (rs ∷ rest) p r =
    add_rulesets-kept url group rest (add_ruleset rs p) (add_ruleset-kept url group rs p r)

add_ruleset-IsReferred :
    (rs : Ruleset) (p : Providers)
    → IsLinked p
    → same rs.inline [] ≡ true
    → same rs.url [] ≡ false
    → IsReferred rs.url rs.group (add_ruleset rs p)
unfolding add_ruleset emit
add_ruleset-IsReferred rs p v t u =
    let q = (register rs.url p).1 in
    let linked = register-IsLinked rs.url p v in
    let named = register-lookup rs.url p in
    let (j, e) = linked.numbered rs.url (register rs.url p).0 named in
    elim (Bool-cases (has q.seen_rule_set ((register rs.url p).0 ++ (0 ∷ rs.group)))) [
      | inl s ↦
          rw (t, u, s) ((register rs.url p).0, named, rw e (linked.lined j rs.group (rw e at s)))
      | inr s ↦
          rw (t, u, s)
            (
              (register rs.url p).0,
              named,
              has-concat q.rules (rule_set (register rs.url p).0 rs.group)
                    (rule_set (register rs.url p).0 rs.group)
                  ∙ ground (arith, same_self (rule_set (register rs.url p).0 rs.group)),
            )
    ]

add_rulesets-IsReferred :
    (rulesets : List Ruleset) (i : ℕ) (rs : Ruleset) (p : Providers)
    → IsLinked p
    → get_elem? rulesets i ≡ some rs
    → same rs.inline [] ≡ true
    → same rs.url [] ≡ false
    → IsReferred rs.url rs.group (add_rulesets rulesets p)
unfolding add_rulesets
add_rulesets-IsReferred [] i rs p v h t u = cc
add_rulesets-IsReferred (r ∷ rest) zero rs p v h t u =
    let e : r ≡ rs = held h in
    add_rulesets-kept rs.url rs.group rest (add_ruleset r p)
      (rw e (add_ruleset-IsReferred rs p v t u))
  where
    held : {a b : Ruleset} → some a ≡ some b → a ≡ b
    held e = cc
add_rulesets-IsReferred (r ∷ rest) (suc i) rs p v h t u =
    add_rulesets-IsReferred rest i rs (add_ruleset r p) (add_ruleset-IsLinked r p v) h t u

-- With the rule generator enabled, every ruleset with a URL and no inline rule has a provider of
-- that URL, whatever other rulesets are there: the RULE-SET line that refers to it for the group of
-- the ruleset is among the rules.
pub build_rule_providers-refers :
    (cfg : Config) (tailscale : Bool) (i : ℕ) (rs : Ruleset)
    → cfg.enable_rule_generator ≡ true
    → get_elem? cfg.rulesets i ≡ some rs
    → rs.inline ≡ []
    → rs.url ≢ []
    → (name : Text) × (provider : Provider) × (lookup name
          (build_rule_providers cfg tailscale).providers
        ≡ some provider)
      × (provider.url ≡ rs.url)
      × (has
            (build_rule_providers cfg tailscale).rules
            (codes "RULE-SET," ++ (name ++ (b',' ∷ rs.group)))
          ≡ true)
unfolding build_rule_providers
build_rule_providers-refers cfg tailscale i rs on at_i t u =
    let p = start_with tailscale in
    let (name, e, h) =
      add_rulesets-IsReferred cfg.rulesets i rs p (start_with-IsLinked tailscale) at_i
        ((same_iff rs.inline []).1 t) (same_ne u) in
    let linked = add_rulesets-IsLinked cfg.rulesets p (start_with-IsLinked tailscale) in
    rw on (name, provider_of name rs.url, linked.linked rs.url name e, refl, h)
