-- ===== src/Rules/Providers/Linked.antt =====
-- Each URL has a provider of its own, and no provider is overwritten.
use subconverter_ng.Common.{
  codes, true, Option, sym, ap, same_self, has-concat, ℕ, ◌+◌, ◌<◌, ◌≡◌, refl, ◌∙◌, inl, inr, Bool,
  none, some, List, [], ◌∷◌, ◌++◌, Text, same, same_iff, has, lookup, lookup-insert, insert, length,
  length-insert_new, arith, Bool-cases, Option-cases,
}
use subconverter_ng.ExtConfig.{Ruleset}
use subconverter_ng.Rules.Providers.{
  Providers, provider_name, provider_of, register, emit, add_inline, add_ruleset, add_rulesets,
  start_with, expand_inline_rule,
}
use subconverter_ng.Strings.Decimal.{itoa_nat, itoa_nat-injective, itoa_nat-AreDigits}
use subconverter_ng.Strings.Laws.{Lacks, Lacks-append, AreDigits-Lacks, cut-Lacks}
use subconverter_ng.Strings.{cut}

-- The line that refers to a provider for a group.
abbrev pub rule_set : Text → Text → Text
rule_set name group = codes "RULE-SET," ++ (name ++ (b',' ∷ group))

-- Every URL that has a name has its provider under that name, which is one of the numbered ones;
-- those with a number not yet reached are free. Whatever was seen has its line.
pub record IsLinked (p : Providers) : Type 0 where
  pub linked :
      (url name : Text)
      → lookup url p.by_url ≡ some name
      → lookup name p.providers ≡ some (provider_of name url)
  pub free : (i : ℕ) → length p.by_url < i → lookup (provider_name i) p.providers ≡ none
  pub numbered :
      (url name : Text) → lookup url p.by_url ≡ some name → (i : ℕ) × (name ≡ provider_name i)
  pub lined :
      (i : ℕ) (group : Text)
      → has p.seen_rule_set (provider_name i ++ (0 ∷ group)) ≡ true
      → has p.rules (rule_set (provider_name i) group) ≡ true

provider_name-injective : (i j : ℕ) → provider_name i ≡ provider_name j → i ≡ j
unfolding provider_name
provider_name-injective i j e = itoa_nat-injective i j cc

pub start_with-IsLinked : (tailscale : Bool) → IsLinked (start_with tailscale)
unfolding start_with lookup has
start_with-IsLinked tailscale = record {
  linked = λ url name h. cc;
  free = λ i h. refl;
  numbered = λ url name h. cc;
  lined = λ i group h. cc;
}

pub register_old :
    (url : Text) (p : Providers) (name : Text)
    → lookup url p.by_url ≡ some name
    → register url p ≡ (name, p)
unfolding register
register_old url p name e = rw (e, register)

-- The state once a URL has got a new provider.
abbrev pub with_provider : Text → Providers → Providers
with_provider url p =
    let fresh = provider_name (length p.by_url + 1) in
    record p {
      by_url = insert url fresh p.by_url;
      providers = insert fresh (provider_of fresh url) p.providers;
    }

pub register_new :
    (url : Text) (p : Providers)
    → lookup url p.by_url ≡ none
    → register url p ≡ (provider_name (length p.by_url + 1), with_provider url p)
unfolding register
register_new url p e = rw (e, register)

with_provider-IsLinked :
    (url : Text) (p : Providers)
    → lookup url p.by_url ≡ none
    → IsLinked p
    → IsLinked (with_provider url p)
with_provider-IsLinked url p z v = record {
  linked = λ u name h. elim (Bool-cases (same url u)) [
    | inl t ↦ ground (
      arith,
      lookup-insert url u fresh p.by_url,
      lookup-insert fresh name (provider_of fresh url) p.providers,
      same_iff url u,
      same_iff fresh name,
    )
    | inr f ↦ ground (
      arith,
      lookup-insert url u fresh p.by_url,
      lookup-insert fresh name (provider_of fresh url) p.providers,
      v.linked u name,
      v.free (length p.by_url + 1),
      same_iff fresh name,
    )
  ];
  free = λ i h. elim (Bool-cases (same fresh (provider_name i))) [
    | inl t ↦ ground (
      arith,
      provider_name-injective (length p.by_url + 1) i ((same_iff fresh (provider_name i)).0 t),
      length-insert_new url fresh p.by_url z,
    )
    | inr f ↦
        lookup-insert fresh (provider_name i) (provider_of fresh url) p.providers
        ∙ rw (f, v.free i (omega (arith, length-insert_new url fresh p.by_url z)))
  ];
  numbered = λ u name h. elim (Bool-cases (same url u)) [
    | inl t ↦ (length p.by_url + 1, held (sym h ∙ lookup-insert url u fresh p.by_url ∙ rw t))
    | inr f ↦ v.numbered u name (sym (lookup-insert url u fresh p.by_url ∙ rw f) ∙ h)
  ];
  lined = v.lined;
}
  where
    fresh : Text
    fresh = provider_name (length p.by_url + 1)

    held : {a b : Text} → some a ≡ some b → a ≡ b
    held e = cc

pub register-IsLinked : (url : Text) (p : Providers) → IsLinked p → IsLinked (register url p).1
register-IsLinked url p v = elim (Option-cases (lookup url p.by_url)) [
  | inl z ↦ rw (register_new url p z) (with_provider-IsLinked url p z v)
  | inr (name, e) ↦ rw (register_old url p name e) v
]

provider_name-Lacks : (i : ℕ) → Lacks 0 (provider_name i)
unfolding provider_name
provider_name-Lacks i =
    Lacks-append 0 (codes "provider_") (itoa_nat i)
      (refl, (refl, (refl, (refl, (refl, (refl, (refl, (refl, (refl, tt)))))))))
      (AreDigits-Lacks 0 (itoa_nat i) refl (itoa_nat-AreDigits i))

-- What was seen tells the provider from the group.
key-injective :
    (i j : ℕ) (g h : Text)
    → provider_name i ++ (0 ∷ g) ≡ provider_name j ++ (0 ∷ h)
    → rule_set (provider_name i) g ≡ rule_set (provider_name j) h
key-injective i j g h e = ap joined (
    sym (cut-Lacks 0 (provider_name i) g (provider_name-Lacks i))
    ∙ ap (cut 0) e
    ∙ cut-Lacks 0 (provider_name j) h (provider_name-Lacks j))
  where
    joined : Option (Text × Text) → Text
    joined none = []
    joined (some (name, group)) = rule_set name group

-- A URL that is registered has its name.
pub register-lookup :
    (url : Text) (p : Providers) → lookup url (register url p).1.by_url ≡ some (register url p).0
register-lookup url p = elim (Option-cases (lookup url p.by_url)) [
  | inl z ↦
      rw (register_new url p z)
        (lookup-insert url url (provider_name (length p.by_url + 1)) p.by_url ∙ rw (same_self url))
  | inr (name, e) ↦ rw (register_old url p name e) e
]

emit-IsLinked :
    (j : ℕ) (group : Text) (p : Providers) → IsLinked p → IsLinked (emit (provider_name j) group p)
unfolding emit
emit-IsLinked j group p v =
    elim (Bool-cases (has p.seen_rule_set (provider_name j ++ (0 ∷ group)))) [
      | inl t ↦ rw t v
      | inr f ↦ rw f (record {
        linked = v.linked;
        free = v.free;
        numbered = v.numbered;
        lined = λ i g h.
            has-concat p.rules (rule_set (provider_name j) group) (rule_set (provider_name i) g)
            ∙ elim (Bool-cases
                (same (provider_name j ++ (0 ∷ group)) (provider_name i ++ (0 ∷ g)))) [
                  | inl t ↦
                      rw
                        (key-injective j i group g (
                          (same_iff (provider_name j ++ (0 ∷ group)) (provider_name i ++ (0 ∷ g))).0
                            t))
                        (ground (arith, same_self (rule_set (provider_name i) g)))
                  | inr n ↦ ground (arith, v.lined i g (unfold has in rw n at h))
                ];
      })
    ]

pub lined-concat :
    (rules : List Text) (rule line : Text)
    → has rules line ≡ true
    → has (rules ++ (rule ∷ [])) line ≡ true
lined-concat rules rule line h = has-concat rules rule line ∙ rw h

add_inline-IsLinked : (rs : Ruleset) (p : Providers) → IsLinked p → IsLinked (add_inline rs p)
unfolding add_inline
add_inline-IsLinked rs p v = elim (Option-cases (expand_inline_rule rs.inline rs.group)) [
  | inl z ↦
      rw (z, add_inline)
        (record { linked = v.linked; free = v.free; numbered = v.numbered; lined = v.lined })
  | inr (rule, z) ↦
      rw (z, add_inline)
        (record {
          linked = v.linked;
          free = v.free;
          numbered = v.numbered;
          lined = λ i g h. lined-concat p.rules rule (rule_set (provider_name i) g) (v.lined i g h);
        })
]

pub add_ruleset-IsLinked : (rs : Ruleset) (p : Providers) → IsLinked p → IsLinked (add_ruleset rs p)
unfolding add_ruleset
add_ruleset-IsLinked rs p v = elim (Bool-cases (same rs.inline [])) [
  | inr f ↦ rw f (add_inline-IsLinked rs p v)
  | inl t ↦ elim (Bool-cases (same rs.url [])) [
    | inl u ↦ rw (t, u) v
    | inr u ↦
        let q = register-IsLinked rs.url p v in
        let (j, e) = q.numbered rs.url (register rs.url p).0 (register-lookup rs.url p) in
        rw (t, u, e) (emit-IsLinked j rs.group (register rs.url p).1 q)
  ]
]

pub add_rulesets-IsLinked :
    (rulesets : List Ruleset) (p : Providers) → IsLinked p → IsLinked (add_rulesets rulesets p)
unfolding add_rulesets
add_rulesets-IsLinked [] p v = v
add_rulesets-IsLinked (rs ∷ rest) p v =
    add_rulesets-IsLinked rest (add_ruleset rs p) (add_ruleset-IsLinked rs p v)
