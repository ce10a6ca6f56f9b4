-- ===== src/Server/Params.antt =====
-- internal/server/server.go: how the parameters of a query are read.
pub mod Laws
use subconverter_ng.Common.{
  ℕ, Bool, true, false, not, ◌&&◌, ◌||◌, Option, none, some, List, [], ◌∷◌, ◌++◌, Text, codes, same,
  ltb, ◌==◌, if◌then◌else◌, lookup, map, keep_if, ℤ, pos, negsuc,
}
use subconverter_ng.Pipeline.Protocols.{parse_protocols}
use subconverter_ng.Strings.Decimal.{atoi, itoa}
use subconverter_ng.Strings.{trim_space, split, is_on, is_off}

-- `splitURLs`.
unfoldable pub split_urls : Text → List Text
split_urls raw = keep_if (λ u. not (same u [])) (map trim_space (split b'|' raw))

-- `boolTri`: `none` where the parameter is absent or is no Boolean.
unfoldable pub bool_tri : Text → Option Bool
bool_tri v = if is_on v then some true else if is_off v then some false else none

-- `boolParam`.
unfoldable pub bool_param : Text → Bool → Bool
bool_param v default = if is_on v then true else if is_off v then false else default

abbrev pub protocol_keys : List Text
protocol_keys =
    codes "exclude_protocol"
    ∷ codes "exclude_protocols"
    ∷ codes "exclude-protocol"
    ∷ codes "exclude-protocols"
    ∷ codes "exclude_type"
    ∷ codes "exclude_types"
    ∷ codes "exclude-type"
    ∷ codes "exclude-types"
    ∷ codes "filter_protocol"
    ∷ codes "filter_protocols"
    ∷ codes "filter-protocol"
    ∷ codes "filter-protocols"
    ∷ codes "filter_type"
    ∷ codes "filter_types"
    ∷ codes "filter-type"
    ∷ codes "filter-types"
    ∷ []

-- The values of all the keys.
unfoldable pub values_of : List Text → List (Text × List Text) → List Text
values_of [] q = []
values_of (k ∷ ks) q =
    let rest = values_of ks q in elim (lookup k q) [ none ↦ rest | some vals ↦ vals ++ rest ]

unfoldable pub parse_protocol_params : List (Text × List Text) → List Text
parse_protocol_params q = parse_protocols (values_of protocol_keys q)

-- A character that a file name in a header may not have.
unfoldable pub is_unsafe : ℕ → Bool
is_unsafe r = r == b'"' || r == b'\\' || r == b'\r' || r == b'\n' || r == b'/'

unfoldable pub sanitize_filename : Text → Text
sanitize_filename s = keep_if (λ r. not (is_unsafe r)) s

abbrev is_positive : ℤ → Bool
is_positive (pos n) = ltb 0 n
is_positive (negsuc n) = false

-- The hours of the header `Profile-Update-Interval`.
unfoldable pub update_interval : Text → Text
update_interval iv =
    let n = atoi (trim_space iv) in
    if not (same iv []) && n.is_ok && is_positive n.value then itoa n.value else codes "24"
