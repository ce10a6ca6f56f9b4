-- ===== src/Parser/Links/Registry.antt =====
-- internal/parser/parser.go: `registry`, the parser of each protocol's links.
use subconverter_ng.Common.{Option, Text}
use subconverter_ng.Node.{Node}
use subconverter_ng.Parser.Links.Encoded.{Values, VmessJson, parse_ss, parse_ssr, parse_vmess}
use subconverter_ng.Parser.Links.Plain.{parse_socks, parse_wireguard}
use subconverter_ng.Parser.Links.{
  parse_trojan, parse_anytls, parse_hysteria1, parse_hysteria2, parse_tuic, parse_vless,
}
use subconverter_ng.Parser.{
  Protocol, ss, ssr, vmess, vless, trojan, hysteria2, hysteria1, tuic, socks, any_tls, wireguard,
  Encoding,
}
use subconverter_ng.Urls.{Url}

module _ (parse_url : Text → Option Url) (unescape : Text → Option Text)
    (decode : Encoding → Text → Option Text) (parse_query : Text → Values)
    (unmarshal : Text → Option VmessJson) where
  unfoldable pub parse_link : Protocol → Text → Option Node
  parse_link ss = parse_ss unescape decode parse_query
  parse_link ssr = parse_ssr unescape decode parse_query
  parse_link vmess = parse_vmess unescape decode parse_query unmarshal
  parse_link vless = parse_vless parse_url unescape
  parse_link trojan = parse_trojan parse_url unescape
  parse_link hysteria2 = parse_hysteria2 parse_url unescape
  parse_link hysteria1 = parse_hysteria1 parse_url unescape
  parse_link tuic = parse_tuic parse_url unescape
  parse_link socks = parse_socks parse_url unescape decode
  parse_link any_tls = parse_anytls parse_url unescape
  parse_link wireguard = parse_wireguard parse_url unescape
