-- ===== src/Convert/Targets.antt =====
-- internal/convert/targets.go: the names of targets, and the generator that each one has.
use subconverter_ng.Common.{
  ◌≡◌, refl, sym, ap, ◌∙◌, arith, inl, inr, Bool, true, false, ◌&&◌, Option, none, some, List, [],
  ◌∷◌, Text, codes, same, same_iff, same_comm, has, lookup, if◌then◌else◌, Bool-cases, Option-cases,
  keep_if,
}
use subconverter_ng.Strings.{to_lower, trim_space, join}

-- `targetAliases`.
abbrev pub target_aliases : List (Text × Text)
target_aliases =
    (codes "clash", codes "clash")
    ∷ (codes "clashmeta", codes "clash")
    ∷ (codes "clash.meta", codes "clash")
    ∷ (codes "clash-meta", codes "clash")
    ∷ (codes "clash_meta", codes "clash")
    ∷ (codes "clashr", codes "clash")
    ∷ (codes "mihomo", codes "clash")
    ∷ (codes "singbox", codes "singbox")
    ∷ (codes "sing-box", codes "singbox")
    ∷ (codes "sing_box", codes "singbox")
    ∷ (codes "sb", codes "singbox")
    ∷ (codes "surge", codes "surge")
    ∷ (codes "surge2", codes "surge")
    ∷ (codes "surge3", codes "surge")
    ∷ (codes "surge4", codes "surge")
    ∷ (codes "surge5", codes "surge")
    ∷ (codes "surfboard", codes "surge")
    ∷ (codes "shadowrocket", codes "shadowrocket")
    ∷ (codes "shadow-rocket", codes "shadowrocket")
    ∷ (codes "sr", codes "shadowrocket")
    ∷ (codes "quanx", codes "quanx")
    ∷ (codes "quantumultx", codes "quanx")
    ∷ (codes "quantumult-x", codes "quanx")
    ∷ (codes "quantumult_x", codes "quanx")
    ∷ (codes "qx", codes "quanx")
    ∷ (codes "quantumult", codes "quanx")
    ∷ (codes "loon", codes "loon")
    ∷ (codes "v2ray", codes "v2ray")
    ∷ (codes "mixed", codes "v2ray")
    ∷ (codes "v2rayn", codes "v2ray")
    ∷ (codes "v2rayng", codes "v2ray")
    ∷ (codes "ss", codes "v2ray")
    ∷ (codes "ssr", codes "v2ray")
    ∷ (codes "trojan", codes "v2ray")
    ∷ []

unfoldable pub normalize_target : Text → Text
normalize_target t =
    let key = to_lower (trim_space t) in
    elim (lookup key target_aliases) [ some c ↦ c | none ↦ key ]

-- `targetOrder`.
abbrev pub target_order : List Text
target_order =
    codes "clash"
    ∷ codes "singbox"
    ∷ codes "surge"
    ∷ codes "shadowrocket"
    ∷ codes "quanx"
    ∷ codes "loon"
    ∷ codes "v2ray"
    ∷ []

-- `supportedTargets`.
abbrev pub supported_targets : List Text
supported_targets =
    codes "clash"
    ∷ codes "v2ray"
    ∷ codes "singbox"
    ∷ codes "surge"
    ∷ codes "shadowrocket"
    ∷ codes "quanx"
    ∷ codes "loon"
    ∷ []

unfoldable pub supported_list : Text
supported_list = join (codes ", ") (keep_if (λ t. has supported_targets t) target_order)

-- The generators that `render` chooses from.
pub data Generator : Type 0 where
  clash v2ray singbox surge shadowrocket loon quanx : Generator

-- `none` for a target that is not supported.
unfoldable pub render : Text → Option Generator
render target =
    if same target (codes "clash")
    then some clash
    else if same target (codes "v2ray")
    then some v2ray
    else if same target (codes "singbox")
    then some singbox
    else if same target (codes "surge")
    then some surge
    else if same target (codes "shadowrocket")
    then some shadowrocket
    else if same target (codes "loon")
    then some loon
    else if same target (codes "quanx")
    then some quanx
    else none

has-missed :
    (k t : Text) (ks : List Text) → has (k ∷ ks) t ≡ false → (same t k ≡ false) × (has ks t ≡ false)
unfolding has
has-missed k t ks h = (same_comm t k ∙ ground (arith, h), ground (arith, h))

-- A target that is not supported has no generator.
pub render-none : (t : Text) → has supported_targets t ≡ false → render t ≡ none
unfolding render
render-none t h =
    let (c, h1) = has-missed (codes "clash") t _ h in
    let (v, h2) = has-missed (codes "v2ray") t _ h1 in
    let (b, h3) = has-missed (codes "singbox") t _ h2 in
    let (s, h4) = has-missed (codes "surge") t _ h3 in
    let (r, h5) = has-missed (codes "shadowrocket") t _ h4 in
    let (q, h6) = has-missed (codes "quanx") t _ h5 in
    let (l, h7) = has-missed (codes "loon") t _ h6 in rw (c, v, b, s, r, q, l) refl

-- A canonical name: it is supported, it has a generator, and normalising it again changes nothing.
pub record IsCanonical (t : Text) : Type 0 where
  pub supported : has supported_targets t ≡ true
  pub generator : Generator
  pub rendered : render t ≡ some generator
  pub stable : normalize_target t ≡ t

-- The same as a test.
unfoldable is_canonical : Text → Bool
is_canonical t =
    has supported_targets t
    && same (normalize_target t) t
    && elim (render t) [ none ↦ false | some g ↦ true ]

is_canonical-IsCanonical : (t : Text) → is_canonical t ≡ true → IsCanonical t
unfolding is_canonical
is_canonical-IsCanonical t h = elim (Option-cases (render t)) [
  | inr (g, e) ↦ record {
    supported = ground arith;
    generator = g;
    rendered = e;
    stable = (same_iff (normalize_target t) t).0 (ground arith);
  }
  | inl e ↦ cc (none_fails _ (rw (e, is_canonical) at h))
]
  where
    none_fails : (b : Bool) → (b && false) ≡ true → false ≡ true
    none_fails b k = ground arith

-- Whether every name of the table is canonical.
unfoldable all_canonical : List (Text × Text) → Bool
all_canonical [] = true
all_canonical ((j, d) ∷ m) = is_canonical d && all_canonical m

all_canonical-lookup :
    (m : List (Text × Text)) (k c : Text)
    → all_canonical m ≡ true
    → lookup k m ≡ some c
    → is_canonical c ≡ true
unfolding all_canonical lookup
all_canonical-lookup [] k c a e = cc
all_canonical-lookup ((j, d) ∷ m) k c a e = elim (Bool-cases (same j k)) [
  | inl t ↦ ap is_canonical (sym (found (rw t at e))) ∙ first (is_canonical d) (all_canonical m) a
  | inr f ↦ all_canonical-lookup m k c (second (is_canonical d) (all_canonical m) a) (rw f at e)
]
  where
    found : some d ≡ some c → d ≡ c
    found p = cc

    first : (x y : Bool) → (x && y) ≡ true → x ≡ true
    first x y h = ground arith

    second : (x y : Bool) → (x && y) ≡ true → y ≡ true
    second x y h = ground arith

aliases-all_canonical : all_canonical target_aliases ≡ true
unfolding all_canonical is_canonical has render normalize_target to_lower trim_space lookup same
aliases-all_canonical = refl

-- A spelling that the table of aliases knows, in any case and with space around it, is normalised
-- to a canonical name: a supported target, which has a generator and is its own normal form.
pub normalize_target-IsCanonical :
    (t c : Text)
    → lookup (to_lower (trim_space t)) target_aliases ≡ some c
    → IsCanonical (normalize_target t)
unfolding normalize_target
normalize_target-IsCanonical t c e =
    rw (e, normalize_target)
      (is_canonical-IsCanonical c
        (all_canonical-lookup target_aliases (to_lower (trim_space t)) c aliases-all_canonical e))
