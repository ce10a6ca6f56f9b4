-- ===== src/Server/Params/Laws.antt =====
-- What reading a parameter gives back, and what a file name cannot do.
use subconverter_ng.Common.{
  ◌≡◌, refl, inl, inr, false, not, List, [], ◌∷◌, Text, same, All, map, keep_if, ◌∙◌, ap,
  Bool-cases,
}
use subconverter_ng.Server.Params.{split_urls, is_unsafe, sanitize_filename}
use subconverter_ng.Strings.Laws.{Lacks, split-join}
use subconverter_ng.Strings.{trim_space, split, join}

-- A source that may stand between bars: not empty, with no space around it and no bar in it.
pub record IsSource (u : Text) : Type 0 where
  pub not_empty : same u [] ≡ false
  pub trimmed : trim_space u ≡ u
  pub no_bar : Lacks b'|' u

-- Sources joined by bars are read back.
pub split_urls-join : (us : List Text) → All IsSource us → split_urls (join (b'|' ∷ []) us) ≡ us
unfolding split_urls join same split trim_space
split_urls-join [] h = refl
split_urls-join (u ∷ us) h =
    ap (λ ps. keep_if (λ v. not (same v [])) (map trim_space ps))
      (split-join b'|' u us (lacking (u ∷ us) h))
    ∙ kept (u ∷ us) h
  where
    lacking : (vs : List Text) → All IsSource vs → All (Lacks b'|') vs
    lacking [] k = tt
    lacking (v ∷ vs) k = (k.0.no_bar, lacking vs k.1)

    kept :
        (vs : List Text) → All IsSource vs → keep_if (λ v. not (same v [])) (map trim_space vs) ≡ vs
    kept [] k = refl
    kept (v ∷ vs) k = rw (k.0.trimmed, k.0.not_empty, kept vs k.1)

-- A file name as it is sent has no character that ends or splits the header, and a name that has
-- none is sent as it is.
pub sanitize_filename-IsSafe :
    (s : Text)
    → All (λ c. is_unsafe c ≡ false) (sanitize_filename s)
      × (All (λ c. is_unsafe c ≡ false) s → sanitize_filename s ≡ s)
unfolding sanitize_filename
sanitize_filename-IsSafe [] = (tt, λ h. refl)
sanitize_filename-IsSafe (c ∷ s) = elim (Bool-cases (is_unsafe c)) [
  | inl t ↦ (rw t (sanitize_filename-IsSafe s).0, λ h. cc (t, h.0))
  | inr f ↦ (
    rw f (f, (sanitize_filename-IsSafe s).0),
    λ h. rw f (ap (λ r. c ∷ r) ((sanitize_filename-IsSafe s).1 h.1)),
  )
]
