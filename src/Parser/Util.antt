-- ===== src/Parser/Util.antt =====
-- internal/parser/util.go, with `splitCred` of ss.go and `splitALPN` of vless.go: what the parsers of
-- links share.
--
-- `decode` is the four base64 decoders, and `unescape` is `url.QueryUnescape`; `none` is an error.
use subconverter_ng.Common.{
  not, Option, none, some, List, [], ◌∷◌, ◌++◌, Text, same, codes, if◌then◌else◌, map, keep_if,
  drop, ℤ, pos,
}
use subconverter_ng.Node.{Value, str, num, Items, nil, cons}
use subconverter_ng.Parser.{Encoding, std, raw_std, url, raw_url}
use subconverter_ng.Strings.Decimal.{atoi, itoa}
use subconverter_ng.Strings.{trim_space, has_prefix, cut, cut_last, split}
use subconverter_ng.Urls.{Url}

-- `atoiPort`: 0 for what is no number.
unfoldable pub atoi_port : Text → ℤ
atoi_port s = (atoi (trim_space s)).value

unfoldable pub any_to_int : Value → ℤ
any_to_int (num k) = k
any_to_int (str s) = atoi_port s
any_to_int _ = pos 0

unfoldable pub first_decoding : (Encoding → Text → Option Text) → List Encoding → Text → Option Text
first_decoding decode [] s = none
first_decoding decode (e ∷ es) s =
    let rest = first_decoding decode es s in elim (decode e s) [ none ↦ rest | some d ↦ some d ]

-- `b64decode`: `none` where no decoder reads the text.
unfoldable pub b64decode : (Encoding → Text → Option Text) → Text → Option Text
b64decode decode s = first_decoding decode (std ∷ raw_std ∷ url ∷ raw_url ∷ []) (trim_space s)

-- What `b64decode` returns beside its success.
unfoldable pub decoded_text : (Encoding → Text → Option Text) → Text → Text
decoded_text decode s = elim (b64decode decode s) [ none ↦ trim_space s | some d ↦ d ]

unfoldable pub fragment_name : (Text → Option Text) → Url → Text → Text
fragment_name unescape u fallback =
    if same u.fragment []
    then fallback
    else elim (unescape u.fragment) [ none ↦ trim_space u.fragment | some name ↦ trim_space name ]

-- `fmt.Sprintf("%s:%d", host, port)`.
unfoldable pub endpoint : Text → ℤ → Text
endpoint host port = host ++ (b':' ∷ itoa port)

-- A host and a port behind the last colon.
unfoldable pub split_last_colon : Text → Text × ℤ
split_last_colon s = elim (cut_last b':' s) [
  | none ↦ (s, pos 0)
  | some (host, port) ↦ (host, atoi_port port)
]

-- `splitHostPort`.
unfoldable pub split_host_port : Text → Text × ℤ
split_host_port s =
    let hostport = trim_space s in
    if has_prefix hostport (codes "[")
    then elim (cut b']' hostport) [
      | none ↦ split_last_colon hostport
      | some (host, rest) ↦
          (drop 1 host, if has_prefix rest (codes ":") then atoi_port (drop 1 rest) else pos 0)
    ]
    else split_last_colon hostport

-- `splitCred`.
unfoldable pub split_cred : Text → Text × Text
split_cred s = elim (cut b':' s) [ none ↦ (s, []) | some e ↦ e ]

-- A `[]string` as a value.
abbrev pub items_of : List Text → Items
items_of [] = nil
items_of (s ∷ ss) = cons (str s) (items_of ss)

-- `splitALPN`.
unfoldable pub split_alpn : Text → Items
split_alpn s = items_of (keep_if (λ p. not (same p [])) (map trim_space (split b',' s)))
