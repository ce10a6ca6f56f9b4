-- ===== src/Parser.antt =====
-- internal/parser/parser.go: a subscription's text, read into nodes.
--
-- The parsers of the document formats and of the links, and the four base64 decoders, are arguments
-- here: `looks_like`, `document`, `link` and `decode`.
pub mod Util
pub mod Calls
pub mod Links
pub mod Schemes
pub mod Lines
use subconverter_ng.Common.{
  ℕ, Bool, true, false, not, ◌&&◌, ◌||◌, Option, none, some, List, [], ◌∷◌, Text, codes, same, has,
  ◌==◌, if◌then◌else◌, lookup, keep_if,
}
use subconverter_ng.Node.{Node}
use subconverter_ng.Strings.{trim_space, trim_right, to_lower, has_prefix, contains, split}

-- `schemeOrder`.
abbrev pub scheme_order : List Text
scheme_order =
    codes "hysteria2://"
    ∷ codes "hysteria://"
    ∷ codes "wireguard://"
    ∷ codes "socks5h://"
    ∷ codes "socks4a://"
    ∷ codes "socks5://"
    ∷ codes "socks4://"
    ∷ codes "socks://"
    ∷ codes "trojan://"
    ∷ codes "anytls://"
    ∷ codes "vmess://"
    ∷ codes "vless://"
    ∷ codes "tuic://"
    ∷ codes "ssr://"
    ∷ codes "ss://"
    ∷ codes "hy2://"
    ∷ codes "hy://"
    ∷ codes "wg://"
    ∷ codes "tg://socks"
    ∷ []

-- The parsers of links, by the names of their functions.
pub data Protocol : Type 0 where
  ss ssr vmess vless trojan hysteria2 hysteria1 tuic socks any_tls wireguard : Protocol

abbrev pub registry : List (Text × Protocol)
registry =
    (codes "ss://", ss)
    ∷ (codes "ssr://", ssr)
    ∷ (codes "vmess://", vmess)
    ∷ (codes "vless://", vless)
    ∷ (codes "trojan://", trojan)
    ∷ (codes "hysteria2://", hysteria2)
    ∷ (codes "hy2://", hysteria2)
    ∷ (codes "hysteria://", hysteria1)
    ∷ (codes "hy://", hysteria1)
    ∷ (codes "tuic://", tuic)
    ∷ (codes "socks://", socks)
    ∷ (codes "socks5://", socks)
    ∷ (codes "socks5h://", socks)
    ∷ (codes "socks4://", socks)
    ∷ (codes "socks4a://", socks)
    ∷ (codes "tg://socks", socks)
    ∷ (codes "anytls://", any_tls)
    ∷ (codes "wireguard://", wireguard)
    ∷ (codes "wg://", wireguard)
    ∷ []

-- The first scheme of a list that a text begins with, or the empty one.
unfoldable pub first_scheme : List Text → Text → Text
first_scheme [] lower = []
first_scheme (t ∷ ts) lower = if has_prefix lower t then t else first_scheme ts lower

unfoldable pub match_scheme : Text → Text
match_scheme s = first_scheme scheme_order (to_lower s)

unfoldable pub is_share_link : Text → Bool
is_share_link s = not (same (match_scheme s) [])

-- The document formats, in the order in which they are tried.
pub data Format : Type 0 where
  clash_yaml singbox_json surge_conf : Format

-- `base64.StdEncoding`, `RawStdEncoding`, `URLEncoding` and `RawURLEncoding`.
pub data Encoding : Type 0 where
  std raw_std url raw_url : Encoding

-- Nodes, and the lines that were skipped.
pub record Parsed : Type 0 where
  pub nodes : List Node
  pub skipped : List Text

unfoldable pub is_blank : ℕ → Bool
is_blank c = c == b'\n' || c == b'\r' || c == b' ' || c == b'\t'

unfoldable pub compact : Text → Text
compact s = keep_if (λ c. not (is_blank c)) s

-- A line without the space around it.
unfoldable pub trimmed_line : Text → Text
trimmed_line raw = trim_space (trim_right (λ c. c == b'\r') raw)

module _ (link : Protocol → Text → Option Node) where
  -- A link, read by the parser that its scheme names. `none` is a link that does not parse, and a
  -- text that is no link.
  unfoldable pub dispatch : Text → Option Node
  dispatch line =
      let scheme = match_scheme line in
      if same scheme []
      then none
      else elim (lookup scheme registry) [ none ↦ none | some p ↦ link p line ]

  -- The loop over the lines.
  unfoldable pub parse_lines : List Text → Parsed
  parse_lines [] = record { nodes = []; skipped = [] }
  parse_lines (raw ∷ raws) =
      let rest = parse_lines raws in
      let line = trimmed_line raw in
      if same line [] || has_prefix line (codes "#") then rest else elim (dispatch line) [
        | none ↦ record rest { skipped = line ∷ rest.skipped }
        | some p ↦ record rest { nodes = p ∷ rest.nodes }
      ]

  module _ (looks_like : Format → Text → Bool) (document : Format → Text → Option Parsed)
      (decode : Encoding → Text → Option Text) where
    -- The format of a document, if it is one.
    unfoldable pub format_of : Text → Option Format
    format_of text =
        if looks_like clash_yaml text
        then some clash_yaml
        else if looks_like singbox_json text
        then some singbox_json
        else if looks_like surge_conf text
        then some surge_conf
        else none

    -- Whether a decoded text can be a subscription.
    unfoldable pub is_plausible : Text → Bool
    is_plausible d = contains d (codes "://") || elim (format_of d) [ none ↦ false | some f ↦ true ]

    unfoldable pub try_decodings : List Encoding → Text → Option Text
    try_decodings [] s = none
    try_decodings (e ∷ es) s =
        let rest = try_decodings es s in
        elim (decode e s) [ none ↦ rest | some d ↦ if is_plausible d then some d else rest ]

    unfoldable pub try_base64 : Text → Option Text
    try_base64 s = try_decodings (std ∷ raw_std ∷ url ∷ raw_url ∷ []) (compact s)

    -- A document, or the lines of a text; `none` is an error.
    unfoldable pub parse_body : Text → Option Parsed
    parse_body body = elim (format_of body) [
      | some f ↦ document f body
      | none ↦ some (parse_lines (split b'\n' body))
    ]

    -- `Parse`.
    unfoldable pub parse : Text → Option Parsed
    parse payload =
        let text = trim_space payload in
        elim (format_of text) [
          | some f ↦ document f text
          | none ↦ elim (try_base64 text) [
            | some decoded ↦ parse_body decoded
            | none ↦ some (parse_lines (split b'\n' text))
          ]
        ]
