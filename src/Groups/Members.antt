-- ===== src/Groups/Members.antt =====
-- The members of a group are exactly what its selectors select, each once.
use subconverter_ng.Common.{
  ◌≡◌, ◌∙◌, ◌⊎◌, inl, inr, Bool, true, false, not, ◌&&◌, ◌||◌, none, some, List, [], ◌∷◌, Text,
  codes, same, same_iff, same_self, has, has-append, Distinct, Distinct-concat, if◌then◌else◌,
  arith, Bool-cases, Option-cases,
}
use subconverter_ng.Emoji.{Regex, Compile}
use subconverter_ng.ExtConfig.{literal}
use subconverter_ng.Groups.{
  add_member, add_names, add_matching, add_selector, resolve_from, resolve_selectors,
}
use subconverter_ng.Node.{Node}

-- Whether a node of this name is in the list and the pattern matches it.
unfoldable pub matched : Regex → List Node → Text → Bool
matched re [] x = false
matched re (n ∷ ns) x = (same n.name x && re.matches n.name) || matched re ns x

module _ (compile : Compile) (nodes : List Node) (all_names : List Text) where
  -- What one selector selects: the name it refers to, a node of the list, or a node that the
  -- pattern matches.
  unfoldable pub selects : Text → Text → Bool
  selects sel x = elim (literal sel) [
    | some name ↦ same name x
    | none ↦
        if same sel (codes ".*")
        then has all_names x
        else elim (compile sel) [ none ↦ false | some re ↦ matched re nodes x ]
  ]

  unfoldable pub any_selects : List Text → Text → Bool
  any_selects [] x = false
  any_selects (s ∷ ss) x = selects s x || any_selects ss x

has-add_member :
    (name : Text) (out : List Text) (x : Text)
    → has (add_member name out) x ≡ (has out x || (not (same x []) && same name x))
unfolding add_member
has-add_member name out x = elim (Bool-cases (same name [] || has out name)) [
  | inl t ↦ rw t (skip t (Bool-cases (same name x)))
  | inr f ↦ rw f (has-append out (name ∷ []) x ∙ unfold has in new f (Bool-cases (same name x)))
]
  where
    skip :
        (same name [] || has out name) ≡ true
        → (same name x ≡ true) ⊎ (same name x ≡ false)
        → has out x ≡ (has out x || (not (same x []) && same name x))
    skip t (inr n) = ground arith
    skip t (inl e) = rw (← (same_iff name x).0 e) (ground (arith, same_self name))

    new :
        (same name [] || has out name) ≡ false
        → (same name x ≡ true) ⊎ (same name x ≡ false)
        → (has out x || (same name x || false)) ≡ (has out x || (not (same x []) && same name x))
    new f (inr n) = ground arith
    new f (inl e) = rw (← (same_iff name x).0 e) (ground (arith, same_self name))

has-add_names :
    (ns out : List Text) (x : Text)
    → has (add_names ns out) x ≡ (has out x || (not (same x []) && has ns x))
unfolding add_names has
has-add_names [] out x = ground arith
has-add_names (n ∷ ns) out x =
    has-add_names ns (add_member n out) x ∙ ground (arith, has-add_member n out x)

has-add_matching :
    (re : Regex) (ns : List Node) (out : List Text) (x : Text)
    → has (add_matching re ns out) x ≡ (has out x || (not (same x []) && matched re ns x))
unfolding add_matching matched
has-add_matching re [] out x = ground arith
has-add_matching re (n ∷ ns) out x =
    has-add_matching re ns (if re.matches n.name then add_member n.name out else out) x
    ∙ elim (Bool-cases (re.matches n.name)) [
      | inl t ↦ rw t (ground (arith, has-add_member n.name out x))
      | inr f ↦ rw f (ground arith)
    ]

add_member-Distinct :
    (name : Text) (out : List Text) → Distinct out → Distinct (add_member name out)
unfolding add_member
add_member-Distinct name out d = elim (Bool-cases (same name [] || has out name)) [
  | inl t ↦ rw t d
  | inr f ↦ rw f (Distinct-concat out name d (ground arith))
]

add_names-Distinct : (ns out : List Text) → Distinct out → Distinct (add_names ns out)
unfolding add_names
add_names-Distinct [] out d = d
add_names-Distinct (n ∷ ns) out d =
    add_names-Distinct ns (add_member n out) (add_member-Distinct n out d)

add_matching-Distinct :
    (re : Regex) (ns : List Node) (out : List Text)
    → Distinct out
    → Distinct (add_matching re ns out)
unfolding add_matching
add_matching-Distinct re [] out d = d
add_matching-Distinct re (n ∷ ns) out d = elim (Bool-cases (re.matches n.name)) [
  | inl t ↦
      rw t (add_matching-Distinct re ns (add_member n.name out) (add_member-Distinct n.name out d))
  | inr f ↦ rw f (add_matching-Distinct re ns out d)
]

module _ (compile : Compile) (nodes : List Node) (all_names : List Text) where
  add_selector_lem :
      (sel : Text) (out : List Text)
      → Distinct out
      → Distinct (add_selector compile nodes all_names sel out)
        × ((x : Text)
            → has (add_selector compile nodes all_names sel out) x
              ≡ (has out x || (not (same x []) && selects compile nodes all_names sel x)))
  unfolding add_selector selects
  add_selector_lem sel out d = elim (Option-cases (literal sel)) [
    | inr (name, e) ↦
        rw (e, add_selector, selects) (add_member-Distinct name out d, has-add_member name out)
    | inl e ↦ elim (Bool-cases (same sel (codes ".*"))) [
      | inl t ↦
          rw (e, add_selector, selects, t)
            (add_names-Distinct all_names out d, has-add_names all_names out)
      | inr f ↦ elim (Option-cases (compile sel)) [
        | inl z ↦ rw (e, add_selector, selects, f, z) (d, λ x. ground arith)
        | inr (re, z) ↦
            rw (e, add_selector, selects, f, z)
              (add_matching-Distinct re nodes out d, has-add_matching re nodes out)
      ]
    ]
  ]

  resolve_from_lem :
      (ss out : List Text)
      → Distinct out
      → Distinct (resolve_from compile nodes all_names ss out)
        × ((x : Text)
            → has (resolve_from compile nodes all_names ss out) x
              ≡ (has out x || (not (same x []) && any_selects compile nodes all_names ss x)))
  unfolding resolve_from any_selects
  resolve_from_lem [] out d = (d, λ x. ground arith)
  resolve_from_lem (s ∷ ss) out d =
      let step = add_selector_lem s out d in
      let rest = resolve_from_lem ss (add_selector compile nodes all_names s out) step.0 in
      (rest.0, λ x. rest.1 x ∙ ground (arith, step.1 x))

  -- The members of a group are the non-empty names that one of its selectors selects, and each
  -- stands once, however often it is selected.
  pub resolve_selectors_lem :
      (ss : List Text)
      → Distinct (resolve_selectors compile ss nodes all_names)
        × ((x : Text)
            → has (resolve_selectors compile ss nodes all_names) x
              ≡ (not (same x []) && any_selects compile nodes all_names ss x))
  unfolding resolve_selectors has
  resolve_selectors_lem ss = resolve_from_lem ss [] tt
