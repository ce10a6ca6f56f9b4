-- ===== src/Rules/Formats.antt =====
-- The lines that the Clash generator writes.
use subconverter_ng.Common.{
  ℕ, ◌≡◌, refl, ap, ◌∙◌, ◌⊎◌, inl, inr, Bool, true, false, not, ◌&&◌, ◌||◌, none, some, List, [],
  ◌∷◌, ◌++◌, append-nil, Text, codes, same, ◌==◌, if◌then◌else◌, arith, Bool-cases,
}
use subconverter_ng.Rules.{
  Rule, is_match, is_final, normalize_rule_type, is_valid_rule_type, format_clash_rule,
  parse_inline_rule,
}
use subconverter_ng.Strings.Laws.{Lacks, cut-Lacks, split-append, split-Lacks}
use subconverter_ng.Strings.{
  trim_left, trim_right, trim_func, trim_space, is_space, to_upper, upper_char, split, attach,
}

trim_left-Lacks : (p : ℕ → Bool) (c : ℕ) (s : Text) → Lacks c s → Lacks c (trim_left p s)
unfolding trim_left
trim_left-Lacks p c [] h = tt
trim_left-Lacks p c (d ∷ s) h = elim (Bool-cases (p d)) [
  | inl t ↦ rw t (trim_left-Lacks p c s h.1)
  | inr f ↦ rw f h
]

trim_right-Lacks : (p : ℕ → Bool) (c : ℕ) (s : Text) → Lacks c s → Lacks c (trim_right p s)
unfolding trim_right
trim_right-Lacks p c [] h = tt
trim_right-Lacks p c (d ∷ s) h = elim (Bool-cases (p d && same (trim_right p s) [])) [
  | inl t ↦ rw t tt
  | inr f ↦ rw f (h.0, trim_right-Lacks p c s h.1)
]

to_upper-Lacks : (s : Text) → Lacks b',' s → Lacks b',' (to_upper s)
unfolding to_upper upper_char
to_upper-Lacks [] h = tt
to_upper-Lacks (c ∷ s) h = (ground (arith, h.0), to_upper-Lacks s h.1)

-- The same as a test.
abbrev pub lacks : ℕ → Text → Bool
lacks c [] = true
lacks c (d ∷ s) = not (d == c) && lacks c s

pub lacks-Lacks : (c : ℕ) (s : Text) → lacks c s ≡ true → Lacks c s
lacks-Lacks c [] h = tt
lacks-Lacks c (d ∷ s) h = (ground (arith, h), lacks-Lacks c s (ground (arith, h)))

-- Normalising a type puts no comma into it.
normalize_rule_type-Lacks : (typ : Text) → Lacks b',' typ → Lacks b',' (normalize_rule_type typ)
unfolding normalize_rule_type trim_space trim_func
normalize_rule_type-Lacks typ h =
    elim (Bool-cases (same (to_upper (trim_space typ)) (codes "HOST"))) [
      | inl t ↦ rw t domain
      | inr f ↦ rw f (elim (Bool-cases (same (to_upper (trim_space typ)) (codes "HOST-SUFFIX"))) [
        | inl t ↦ rw t suffix
        | inr f ↦
            rw f (elim (Bool-cases (same (to_upper (trim_space typ)) (codes "HOST-KEYWORD"))) [
              | inl t ↦ rw t keyword
              | inr f ↦
                  rw f
                    (elim (Bool-cases (same (to_upper (trim_space typ)) (codes "HOST-WILDCARD"))) [
                      | inl t ↦ rw t suffix
                      | inr f ↦
                          rw f
                            (elim (Bool-cases
                              (same (to_upper (trim_space typ)) (codes "DEST-PORT"))) [
                                | inl t ↦ rw t port
                                | inr f ↦
                                    rw f
                                      (elim (Bool-cases
                                        (same (to_upper (trim_space typ)) (codes "IP6-CIDR"))) [
                                          | inl t ↦ rw t cidr
                                          | inr f ↦ rw f (upper)
                                        ])
                              ])
                    ])
            ])
      ])
    ]
  where
    upper : Lacks b',' (to_upper (trim_space typ))
    upper = to_upper-Lacks (trim_space typ) (
        trim_right-Lacks is_space b',' (trim_left is_space typ)
          (trim_left-Lacks is_space b',' typ h))

    domain : Lacks b',' (codes "DOMAIN")
    domain = lacks-Lacks b',' (codes "DOMAIN") refl

    suffix : Lacks b',' (codes "DOMAIN-SUFFIX")
    suffix = lacks-Lacks b',' (codes "DOMAIN-SUFFIX") refl

    keyword : Lacks b',' (codes "DOMAIN-KEYWORD")
    keyword = lacks-Lacks b',' (codes "DOMAIN-KEYWORD") refl

    port : Lacks b',' (codes "DST-PORT")
    port = lacks-Lacks b',' (codes "DST-PORT") refl

    cidr : Lacks b',' (codes "IP-CIDR6")
    cidr = lacks-Lacks b',' (codes "IP-CIDR6") refl

-- The fields of the line of a rule.
abbrev pub line_fields : Rule → List Text
line_fields r =
    if is_match r
    then codes "MATCH" ∷ r.group ∷ []
    else normalize_rule_type r.typ
      ∷ r.value
      ∷ r.group
      ∷ (if same r.flag [] then [] else r.flag ∷ [])

split-clash_fields :
    (typ value group flag : Text)
    → Lacks b',' typ
    → Lacks b',' value
    → Lacks b',' group
    → Lacks b',' flag
    → split b','
        (typ ++ (b',' ∷ (value ++ (b',' ∷ (group ++ (if same flag [] then [] else b',' ∷ flag))))))
      ≡ typ ∷ value ∷ group ∷ (if same flag [] then [] else flag ∷ [])
unfolding same
split-clash_fields typ value group flag t v g f =
    split-append b',' typ _
    ∙ rw (split-Lacks b',' typ t) (
        ap (λ l. typ ∷ l)
          (split-append b',' value _
            ∙ rw (split-Lacks b',' value v) (ap (λ l. value ∷ l) (last flag f))))
  where
    last :
        (flag : Text)
        → Lacks b',' flag
        → split b',' (group ++ (if same flag [] then [] else b',' ∷ flag))
          ≡ group ∷ (if same flag [] then [] else flag ∷ [])
    last [] f = rw (append-nil group) (split-Lacks b',' group g)
    last (c ∷ flag) f =
        split-append b',' group (c ∷ flag)
        ∙ rw (split-Lacks b',' group g, split-Lacks b',' (c ∷ flag) f) refl

-- The line of a rule of which no part has a comma, taken apart at its commas, gives back the parts of
-- the rule, the type normalised: MATCH and the group for the catch-all, and otherwise the type, the
-- value, the group and the flag if there is one. There is no line exactly if the rule is not the
-- catch-all and the table of valid types lacks its type.
pub split-format_clash_rule :
    (r : Rule)
    → Lacks b',' r.typ
    → Lacks b',' r.value
    → Lacks b',' r.group
    → Lacks b',' r.flag
    → ((line : Text) × (format_clash_rule r ≡ some line)
        × ((is_match r || is_valid_rule_type (normalize_rule_type r.typ)) ≡ true)
        × (split b',' line ≡ line_fields r))
      ⊎ ((format_clash_rule r ≡ none)
          × ((is_match r || is_valid_rule_type (normalize_rule_type r.typ)) ≡ false))
unfolding format_clash_rule
split-format_clash_rule r t v g f = elim (Bool-cases (is_match r)) [
  | inl m ↦ rw m (
      inl (
        codes "MATCH," ++ r.group,
        refl,
        refl,
        split-append b',' (codes "MATCH") r.group ∙ rw (split-Lacks b',' r.group g) matched,
      ))
  | inr n ↦ elim (Bool-cases (is_valid_rule_type (normalize_rule_type r.typ))) [
    | inl k ↦
        rw (n, k)
          (inl (
            _,
            refl,
            refl,
            split-clash_fields (normalize_rule_type r.typ) r.value r.group r.flag
                (normalize_rule_type-Lacks r.typ t) v g f,
          ))
    | inr k ↦ rw (n, k) (inr (refl, refl))
  ]
]
  where
    matched : split b',' (codes "MATCH") ++ (r.group ∷ []) ≡ codes "MATCH" ∷ r.group ∷ []
    matched = unfold split attach in refl

-- An inline rule is taken apart at its first comma: whatever stands behind it is the value, flags
-- and further commas with it.
pub parse_inline_rule-comma :
    (typ value group : Text)
    → Lacks b',' typ
    → is_final (typ ++ (b',' ∷ value)) ≡ false
    → parse_inline_rule (typ ++ (b',' ∷ value)) group
      ≡ some (record { typ = typ; value = value; group = group; flag = [] })
unfolding parse_inline_rule
parse_inline_rule-comma typ value group h n = rw (n, cut-Lacks b',' typ value h)
