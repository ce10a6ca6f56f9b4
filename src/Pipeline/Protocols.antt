-- ===== src/Pipeline/Protocols.antt =====
-- internal/generator/common.go: protocol names, their aliases, and the filter by protocol.
pub mod Laws
pub mod Aliases
use subconverter_ng.Common.{
  ℕ, suc, ◌+◌, Bool, true, false, not, ◌&&◌, ◌||◌, Option, none, some, List, [], ◌∷◌, ◌++◌, Text,
  codes, same, has, ◌==◌, if◌then◌else◌, lookup, length, ◌≡◌, refl, sym, ◌∙◌, ◌⊎◌, inl, inr, arith,
  Bool-cases,
}
use subconverter_ng.Node.{Node}
use subconverter_ng.Strings.Order.{sort_by, text_lt, place}
use subconverter_ng.Strings.{
  trim_space, trim_set, to_lower, replace_char, fields_func, is_space, lower_char,
}

-- `protocolAliases`.
abbrev pub protocol_aliases : List (Text × Text)
protocol_aliases =
    (codes "ss", codes "ss")
    ∷ (codes "shadowsocks", codes "ss")
    ∷ (codes "ssr", codes "ssr")
    ∷ (codes "shadowsocksr", codes "ssr")
    ∷ (codes "vmess", codes "vmess")
    ∷ (codes "vless", codes "vless")
    ∷ (codes "trojan", codes "trojan")
    ∷ (codes "hysteria", codes "hysteria")
    ∷ (codes "hysteria1", codes "hysteria")
    ∷ (codes "hy", codes "hysteria")
    ∷ (codes "hy1", codes "hysteria")
    ∷ (codes "hysteria2", codes "hysteria2")
    ∷ (codes "hy2", codes "hysteria2")
    ∷ (codes "tuic", codes "tuic")
    ∷ (codes "tuic5", codes "tuic")
    ∷ (codes "tuicv5", codes "tuic")
    ∷ (codes "wireguard", codes "wireguard")
    ∷ (codes "wg", codes "wireguard")
    ∷ (codes "socks", codes "socks5")
    ∷ (codes "socks5", codes "socks5")
    ∷ (codes "http", codes "http")
    ∷ (codes "https", codes "http")
    ∷ (codes "anytls", codes "anytls")
    ∷ (codes "snell", codes "snell")
    ∷ []

-- The brackets and quotes that a list of protocols may be written with.
abbrev pub wrapping : Text
wrapping = codes "()[]\"'"

unfoldable pub canonical_protocol : Text → Text
unfolding trim_space to_lower trim_set replace_char lookup
canonical_protocol raw =
    let key = trim_set wrapping (to_lower (trim_space raw)) in
    let normalized = replace_char b'_' [] (replace_char b'-' [] key) in
    elim (lookup key protocol_aliases) [
      | some c ↦ c
      | none ↦ elim (lookup normalized protocol_aliases) [ some c ↦ c | none ↦ key ]
    ]

-- The characters between the protocols of a list.
unfoldable pub is_separator : ℕ → Bool
is_separator c =
    c == b',' || c == b'|' || c == b';' || c == b' ' || c == b'\t' || c == b'\n' || c == b'\r'

-- Adds the canonical name of a token to what the list has given so far, in order.
unfoldable pub add_canonical : Text → Text → List Text → List Text
unfolding same has
add_canonical token canon seen =
    if same token [] || same canon [] || has seen canon then seen else seen ++ (canon ∷ [])

-- One token of a list.
unfoldable pub add_token : List Text → Text → List Text
unfolding canonical_protocol add_canonical
add_token seen raw =
    let token = trim_set wrapping (trim_space raw) in
    add_canonical token (canonical_protocol token) seen

unfoldable pub add_tokens : List Text → List Text → List Text
unfolding add_token
add_tokens seen [] = seen
add_tokens seen (t ∷ ts) = add_tokens (add_token seen t) ts

-- The tokens of all the strings, in order.
unfoldable pub tokens : List Text → List Text
unfolding fields_func is_separator
tokens [] = []
tokens (r ∷ rs) = fields_func is_separator r ++ tokens rs

-- `ParseProtocols`, and `ParseProtocolSet`, whose map has these keys.
unfoldable pub parse_protocols : List Text → List Text
unfolding tokens add_tokens sort_by
parse_protocols raw = sort_by (λ t. t) (add_tokens [] (tokens raw))

-- Whether a node's protocol is one of the excluded.
unfoldable pub is_excluded : List Text → Text → Bool
unfolding to_lower trim_space canonical_protocol
is_excluded excluded typ =
    let raw = to_lower (trim_space typ) in has excluded (canonical_protocol raw) || has excluded raw

-- The loop of `filterProtocols`: the nodes that stay, and the number of those that go.
unfoldable pub filter_loop : List Text → List Node → List Node × ℕ
unfolding is_excluded
filter_loop excluded [] = ([], 0)
filter_loop excluded (n ∷ ns) =
    let (rest, dropped) = filter_loop excluded ns in
    if is_excluded excluded n.typ then (rest, suc dropped) else (n ∷ rest, dropped)

unfoldable pub filter_protocols : List Text → List Node → List Node × ℕ
unfolding filter_loop
filter_protocols [] ns = (ns, 0)
filter_protocols (e ∷ excluded) ns = filter_loop (e ∷ excluded) ns
