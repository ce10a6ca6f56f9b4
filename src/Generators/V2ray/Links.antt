-- ===== src/Generators/V2ray/Links.antt =====
-- internal/generator/v2ray.go: `nodeShareLink` and `GenerateV2ray`.
pub mod Accounts
pub mod HostPort
pub mod ReadBack
use subconverter_ng.Common.{
  ℕ, Bool, true, false, not, ◌&&◌, ◌||◌, Option, none, some, List, [], ◌∷◌, ◌++◌, Text, codes, same,
  if◌then◌else◌, insert, map, ℤ,
}
use subconverter_ng.ExtConfig.{Config}
use subconverter_ng.Generators.V2ray.{
  Pairs, filled, vless_query, trojan_query, hysteria2_query, tuic_query, wireguard_query,
  hysteria1_query, vmess_json, ss_plugin_parts,
}
use subconverter_ng.Generators.{Rendered}
use subconverter_ng.Node.Accessors.{cs, cb, ci}
use subconverter_ng.Node.{Bag, Node}
use subconverter_ng.Parser.{Encoding, std, raw_url}
use subconverter_ng.Pipeline.Filters.{Options}
use subconverter_ng.Pipeline.Prepare.{Counts, prepare_nodes}
use subconverter_ng.Strings.Decimal.{itoa}
use subconverter_ng.Strings.{first_non_empty, join, replace_char}

-- The values that the calls of `Set` make.
unfoldable pub values_from : Pairs → List (Text × List Text) → List (Text × List Text)
values_from [] q = q
values_from ((k, v) ∷ ps) q = values_from ps (insert k (v ∷ []) q)

-- The host and the port of a node's mapping.
unfoldable pub hostport : Bag → Text
hostport c = cs c (codes "server") ++ (b':' ∷ itoa (ci c (codes "port")))

-- Links, and the names and types of the nodes that have none.
pub record Shared : Type 0 where
  pub links : List Text
  pub skipped : List Text

unfoldable pub skip_note : Node → Text
skip_note n = n.name ++ (codes " (" ++ (n.typ ++ codes ": no share-link form)"))

module _ (encode64 : Encoding → Text → Text) (query_escape : Text → Text)
    (encode_query : List (Text × List Text) → Text) (userinfo : Text → Text → Text)
    (marshal_json : Bag → Text) where
  -- `encodeFragment`, with the `#` in front.
  unfoldable pub fragment : Text → Text
  fragment name = b'#' ∷ replace_char b'+' (codes "%20") (query_escape name)

  unfoldable pub encoded : Pairs → Text
  encoded ps = encode_query (values_from ps [])

  -- A query behind its `?`, if it is not empty.
  unfoldable pub query_suffix : Text → Text
  query_suffix q = if same q [] then [] else b'?' ∷ q

  -- `url.UserPassword`, where there is one of the two.
  unfoldable pub user_prefix : Bag → Text
  user_prefix c =
      let u = cs c (codes "username") in
      let pw = cs c (codes "password") in
      if same u [] && same pw [] then [] else userinfo u pw ++ codes "@"

  unfoldable pub ss_link_of : Node → Text
  ss_link_of n =
      let c = n.clash in
      let plugin : Text = elim (ss_plugin_parts c) [
        | none ↦ []
        | some parts ↦ codes "plugin=" ++ query_escape (join (codes ";") parts)
      ] in
      codes "ss://"
      ++ (encode64 raw_url (cs c (codes "cipher") ++ (b':' ∷ cs c (codes "password")))
          ++ (b'@' ∷ (hostport c ++ (query_suffix plugin ++ fragment n.name))))

  -- A parameter in base64, if it is not empty.
  unfoldable pub param : Text → Text → Pairs
  param key s = if same s [] then [] else (key, encode64 raw_url s) ∷ []

  unfoldable pub ssr_link_of : Node → Text
  ssr_link_of n =
      let c = n.clash in
      let q = encoded (
        param (codes "obfsparam") (cs c (codes "obfs-param"))
        ++ (param (codes "protoparam") (cs c (codes "protocol-param"))
            ++ param (codes "remarks") n.name)) in
      let body = join (codes ":") (
        cs c (codes "server")
        ∷ itoa (ci c (codes "port"))
        ∷ cs c (codes "protocol")
        ∷ cs c (codes "cipher")
        ∷ cs c (codes "obfs")
        ∷ encode64 raw_url (cs c (codes "password"))
        ∷ []) in
      codes "ssr://" ++ encode64 raw_url (if same q [] then body else body ++ (codes "/?" ++ q))

  -- A link that is a URL: its scheme, its user with the `@`, its query with the `?`.
  unfoldable pub url_link_of : Text → Text → Text → Node → Text
  url_link_of scheme user query n =
      scheme ++ (user ++ (hostport n.clash ++ (query ++ fragment n.name)))

  -- `nodeShareLink`; `none` where the protocol has no form of link.
  unfoldable pub node_share_link : Node → Option Text
  node_share_link n =
      let c = n.clash in
      if same n.typ (codes "ss")
      then some (ss_link_of n)
      else if same n.typ (codes "vmess")
      then some (codes "vmess://" ++ encode64 std (marshal_json (vmess_json n)))
      else if same n.typ (codes "vless")
      then some (
          url_link_of (codes "vless://") (cs c (codes "uuid") ++ codes "@")
            (b'?' ∷ encoded (vless_query c)) n)
      else if same n.typ (codes "trojan")
      then some (
          url_link_of (codes "trojan://") (cs c (codes "password") ++ codes "@")
            (b'?' ∷ encoded (trojan_query c)) n)
      else if same n.typ (codes "hysteria2")
      then some (
          url_link_of (codes "hysteria2://") (cs c (codes "password") ++ codes "@")
            (query_suffix (encoded (hysteria2_query c))) n)
      else if same n.typ (codes "tuic")
      then some (
          url_link_of (codes "tuic://")
            (cs c (codes "uuid") ++ (codes ":" ++ (cs c (codes "password") ++ codes "@")))
            (b'?' ∷ encoded (tuic_query c)) n)
      else if same n.typ (codes "socks5") || same n.typ (codes "socks")
      then some (url_link_of (codes "socks5://") (user_prefix c) [] n)
      else if same n.typ (codes "http")
      then some (
          url_link_of (if cb c (codes "tls") then codes "https://" else codes "http://")
            (user_prefix c) [] n)
      else if same n.typ (codes "wireguard")
      then some (
          url_link_of (codes "wireguard://") (cs c (codes "private-key") ++ codes "@")
            (query_suffix (encoded (wireguard_query c))) n)
      else if same n.typ (codes "hysteria")
      then some
          (url_link_of (codes "hysteria://") [] (query_suffix (encoded (hysteria1_query c))) n)
      else if same n.typ (codes "ssr")
      then some (ssr_link_of n)
      else none

  -- The loop of `GenerateV2ray`.
  unfoldable pub share_links : List Node → Shared
  share_links [] = record { links = []; skipped = [] }
  share_links (n ∷ ns) =
      let rest = share_links ns in
      elim (node_share_link n) [
        | none ↦ record rest { skipped = skip_note n ∷ rest.skipped }
        | some link ↦ record rest { links = link ∷ rest.links }
      ]

  -- `GenerateV2ray`; `none` would mean that naming the nodes ran out of fuel.
  unfoldable pub generate_v2ray :
      (Bag → Option Text) → List (Option Node) → Option Config → Options → Option Rendered
  generate_v2ray marshal nodes cfg opts = elim (prepare_nodes marshal nodes cfg opts) [
    | none ↦ none
    | some (prepared, counts) ↦
        let shared = share_links prepared in
        some (record {
          output = encode64 std (join (codes "\n") shared.links);
          content_type = codes "text/plain; charset=utf-8";
          node_count = counts.node_count;
          empty_groups = [];
          skipped_rules = [];
          skipped_nodes = shared.skipped;
          duplicates = counts.duplicates;
          deprecated_dropped = counts.deprecated_dropped;
          excluded_protocols = counts.excluded_protocols;
        })
  ]
