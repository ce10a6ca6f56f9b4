-- ===== src/AppConfig/Redact.antt =====
-- internal/config/redact.go: what of a URL may stand in a log.
--
-- A text is ASCII wherever the source counts or cuts its bytes. `RedactString`, which looks for the
-- URLs of a message, is not here: its pattern is one of Go's `regexp`.
pub mod Hidden
use subconverter_ng.Common.{
  ℕ, ◌+◌, ◌-◌, Bool, not, ◌&&◌, ◌||◌, Option, none, some, [], ◌∷◌, ◌++◌, map, Text, codes, same,
  ltb, leb, ◌==◌, if◌then◌else◌, length, take, drop,
}
use subconverter_ng.Strings.{
  trim_space, to_lower, has_prefix, contains, cut, cut_text, cut_at, cut_last, split, join,
}

abbrev pub mask : Text
mask = codes "***"

-- The characters that end the authority of a URL.
abbrev pub ends_authority : ℕ → Bool
ends_authority c = c == b'/' || c == b'?' || c == b'#'

-- A text up to the first character of a kind, and the rest with that character.
unfoldable pub span : (ℕ → Bool) → Text → Text × Text
span p s = elim (cut_at p s) [ none ↦ (s, []) | some e ↦ e ]

-- The authority without what stands before its last `@`.
unfoldable pub redact_authority : Text → Option Text
redact_authority auth = elim (cut_last b'@' auth) [
  | none ↦ none
  | some e ↦ some (mask ++ (b'@' ∷ e.1))
]

unfoldable pub redact_userinfo : Text → Text
redact_userinfo base = elim (cut_text (codes "://") base) [
  | none ↦ base
  | some e ↦
      let (auth, rest) = span ends_authority e.1 in
      elim (redact_authority auth) [ none ↦ base | some a ↦ e.0 ++ (codes "://" ++ (a ++ rest)) ]
]

-- One part of a query: its value is masked, if it has one.
unfoldable pub mask_part : Text → Text
mask_part p = elim (cut b'=' p) [ none ↦ p | some e ↦ e.0 ++ (b'=' ∷ mask) ]

unfoldable pub mask_query : Text → Text
mask_query [] = []
mask_query (c ∷ raw) = join (codes "&") (map mask_part (split b'&' (c ∷ raw)))

unfoldable pub mask_middle : Text → Text
mask_middle s = if leb (length s) 8 then mask else take 4 s ++ (mask ++ drop (length s - 2) s)

-- The URL of a protocol whose whole text is a secret.
unfoldable pub opaque_scheme : Text → Option Text
opaque_scheme raw =
    let lower = to_lower raw in
    if has_prefix lower (codes "vmess://")
    then some (codes "vmess://" ++ mask)
    else if has_prefix lower (codes "ssr://")
    then some (codes "ssr://" ++ mask)
    else none

-- A base, and a query if there is one.
unfoldable pub with_query : Text → Text → Text
with_query base query = if same query [] then base else base ++ (b'?' ∷ mask_query query)

-- A URL with its parts before and behind the first `?`.
unfoldable pub redact_parts : Text → Text
redact_parts raw = elim (cut b'?' raw) [
  | none ↦ redact_userinfo raw
  | some e ↦ with_query (redact_userinfo e.0) e.1
]

-- The cases that `RedactURL` and `RedactSubURL` share for a text that is trimmed; `structured` is
-- what follows.
unfoldable pub redact_with {ℓ} : {A : Type ℓ} → (Text → A) → (Text → A) → Text → A
redact_with done structured raw = if same raw [] then done [] else elim (opaque_scheme raw) [
  | some t ↦ done t
  | none ↦ if contains raw (codes "://") then structured raw else done (mask_middle raw)
]

unfoldable pub redact_url : Text → Text
redact_url text = redact_with (λ t. t) redact_parts (trim_space text)

-- The part of `RedactSubURL` behind the masking of the user: `sep` is the length of what stays of
-- the base, up to the host.
unfoldable pub redact_path : Text → Text → ℕ → Text
redact_path raw base sep =
    let rest = drop sep base in
    let (host, path) = span (λ c. c == b'/') rest in
    if not (same path [])
    then (if same path (codes "/") && length base == length raw
        then take sep base ++ host
        else take sep base ++ (host ++ (codes "/" ++ mask)))
    else if ltb (length base) (length raw)
    then base ++ (codes "/" ++ mask)
    else base

-- Where the host of a base begins: `none` where the source slices past the end of the base, which
-- is a panic. With no `://` in the base the index is 2, which is -1 + 3.
unfoldable pub host_start : Text → Option ℕ
host_start base = elim (cut_text (codes "://") base) [
  | some e ↦ some (length e.0 + 3)
  | none ↦ if ltb (length base) 2 then none else some 2
]

-- The structured case of `RedactSubURL`.
unfoldable pub redact_sub_parts : Text → Option Text
redact_sub_parts raw =
    let base = redact_userinfo (span (λ c. c == b'?' || c == b'#') raw).0 in
    elim (host_start base) [ none ↦ none | some sep ↦ some (redact_path raw base sep) ]

-- `none` is a panic.
unfoldable pub redact_sub_url : Text → Option Text
redact_sub_url text = redact_with some redact_sub_parts (trim_space text)
