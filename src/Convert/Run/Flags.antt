-- ===== src/Convert/Run/Flags.antt =====
-- Which of the flags on emoji hold for a run.
use subconverter_ng.Common.{
  ◌≡◌, refl, inl, inr, Bool, true, Option, none, some, List, [], ◌∷◌, Option-cases,
}
use subconverter_ng.Convert.Run.{Request, unless_set, resolve_emoji}
use subconverter_ng.ExtConfig.{Config}

-- The first of the flags that is set, the one that overrides the others in front.
abbrev pub first_set : List (Option Bool) → Bool → Bool
first_set [] default = default
first_set (none ∷ flags) default = first_set flags default
first_set (some b ∷ flags) default = b

-- Whether emoji are added: `emoji` of the request overrides its `add_emoji`, and that the config's.
abbrev pub adds_emoji : Config → Request → Bool
adds_emoji cfg req = first_set (req.emoji ∷ req.add_emoji ∷ cfg.add_emoji ∷ []) true

abbrev on_if_set : Option Bool → Option Bool
on_if_set none = none
on_if_set (some b) = some true

-- Whether emoji are removed: always where `emoji` of the request is set.
abbrev pub removes_emoji : Config → Request → Bool
removes_emoji cfg req =
    first_set (on_if_set req.emoji ∷ req.remove_emoji ∷ cfg.remove_old_emoji ∷ []) true

unless_set-first_set :
    (x y : Option Bool) → unless_set (unless_set true x) y ≡ first_set (y ∷ x ∷ []) true
unless_set-first_set none none = refl
unless_set-first_set (some b) none = refl
unless_set-first_set none (some c) = refl
unless_set-first_set (some b) (some c) = refl

pub resolve_emoji_lem :
    (cfg : Config) (req : Request)
    → resolve_emoji cfg req ≡ (removes_emoji cfg req, adds_emoji cfg req)
unfolding resolve_emoji
resolve_emoji_lem cfg req = elim (Option-cases req.emoji) [
  | inr (e, z) ↦ rw (z, resolve_emoji)
  | inl z ↦ rw (
    z,
    resolve_emoji,
    unless_set-first_set cfg.add_emoji req.add_emoji,
    unless_set-first_set cfg.remove_old_emoji req.remove_emoji,
  )
]
