-- ===== src/Parser/Links/Sound.antt =====
-- What every node that is read from a link has, whichever protocol it is of.
use subconverter_ng.Common.{
  ◌≡◌, inl, inr, Bool, false, Option, some, List, [], ◌∷◌, Text, codes, same, All, lookup,
  Bool-cases, Option-cases,
}
use subconverter_ng.Node.{Node}
use subconverter_ng.Parser.Calls.Kept.{IsSound, checked-IsSound}
use subconverter_ng.Parser.Calls.{Call}
use subconverter_ng.Parser.Lines.{Accounts, content_lines, parse_lines-Accounts}
use subconverter_ng.Parser.Links.Encoded.{
  Values, VmessJson, cut_fragment, ss_link, ss_node, ssr_node, vmess_node, parse_ss, parse_ssr,
  parse_vmess,
}
use subconverter_ng.Parser.Links.Plain.{parse_socks, parse_wireguard}
use subconverter_ng.Parser.Links.Registry.{parse_link}
use subconverter_ng.Parser.Links.{
  url_link, parse_trojan, parse_anytls, parse_hysteria1, parse_hysteria2, parse_tuic, parse_vless,
}
use subconverter_ng.Parser.Util.{b64decode}
use subconverter_ng.Parser.{
  Protocol, ss, ssr, vmess, vless, trojan, hysteria2, hysteria1, tuic, socks, any_tls, wireguard,
  Encoding, match_scheme, registry, dispatch, parse_lines,
}
use subconverter_ng.Strings.{trim_prefix}
use subconverter_ng.Urls.{Url}

-- The type of the nodes of a protocol.
abbrev pub type_of : Protocol → Text
type_of ss = codes "ss"
type_of ssr = codes "ssr"
type_of vmess = codes "vmess"
type_of vless = codes "vless"
type_of trojan = codes "trojan"
type_of hysteria2 = codes "hysteria2"
type_of hysteria1 = codes "hysteria"
type_of tuic = codes "tuic"
type_of socks = codes "socks5"
type_of any_tls = codes "anytls"
type_of wireguard = codes "wireguard"

module _ (parse_url : Text → Option Url) (unescape : Text → Option Text)
    (decode : Encoding → Text → Option Text) (parse_query : Text → Values)
    (unmarshal : Text → Option VmessJson) where
  abbrev link : Protocol → Text → Option Node
  link = parse_link parse_url unescape decode parse_query unmarshal

  url_link-IsSound :
      (needs : Bool) (typ : Text) (calls : Url → List Call) (s : Text) (n : Node)
      → url_link parse_url unescape needs typ calls s ≡ some n
      → IsSound typ n
  unfolding url_link
  url_link-IsSound needs typ calls s n h = elim (Option-cases (parse_url s)) [
    | inl z ↦ cc (rw (z, url_link) at h)
    | inr (u, z) ↦ checked-IsSound _ typ _ _ _ (calls u) n (rw (z, url_link) at h)
  ]

  ssr_node-IsSound :
      (q : Values) (parts : List Text) (n : Node)
      → ssr_node unescape decode parse_query q parts ≡ some n
      → IsSound (codes "ssr") n
  unfolding ssr_node
  ssr_node-IsSound q [] n h = cc
  ssr_node-IsSound q (a ∷ []) n h = cc
  ssr_node-IsSound q (a ∷ b ∷ []) n h = cc
  ssr_node-IsSound q (a ∷ b ∷ c ∷ []) n h = cc
  ssr_node-IsSound q (a ∷ b ∷ c ∷ d ∷ []) n h = cc
  ssr_node-IsSound q (a ∷ b ∷ c ∷ d ∷ e ∷ []) n h = cc
  ssr_node-IsSound q (a ∷ b ∷ c ∷ d ∷ e ∷ f ∷ fs) n h = checked-IsSound false _ _ _ _ _ n h

  parse_socks-IsSound :
      (s : Text) (n : Node)
      → parse_socks parse_url unescape decode s ≡ some n
      → IsSound (codes "socks5") n
  unfolding parse_socks
  parse_socks-IsSound s n h = elim (Option-cases (parse_url s)) [
    | inl z ↦ cc (rw (z, parse_socks) at h)
    | inr (u, z) ↦ checked-IsSound _ _ _ _ _ _ n (rw (z, parse_socks) at h)
  ]

  parse_ss-IsSound :
      (s : Text) (n : Node)
      → parse_ss unescape decode parse_query s ≡ some n
      → IsSound (codes "ss") n
  unfolding parse_ss ss_node
  parse_ss-IsSound s n h = elim (Option-cases (ss_link unescape decode parse_query rest)) [
    | inl z ↦ cc (rw (z, parse_ss) at h)
    | inr (l, z) ↦ checked-IsSound _ _ _ _ _ _ n (rw (z, parse_ss) at h)
  ]
    where
      rest : Text
      rest = (cut_fragment unescape decode parse_query (trim_prefix s (codes "ss://"))).1

  parse_ssr-IsSound :
      (s : Text) (n : Node)
      → parse_ssr unescape decode parse_query s ≡ some n
      → IsSound (codes "ssr") n
  unfolding parse_ssr
  parse_ssr-IsSound s n h =
      elim (Option-cases (b64decode decode (trim_prefix s (codes "ssr://")))) [
        | inl z ↦ cc (rw (z, parse_ssr) at h)
        | inr (d, z) ↦ ssr_node-IsSound _ _ n (rw (z, parse_ssr) at h)
      ]

  parse_vmess-IsSound :
      (s : Text) (n : Node)
      → parse_vmess unescape decode parse_query unmarshal s ≡ some n
      → IsSound (codes "vmess") n
  unfolding parse_vmess vmess_node
  parse_vmess-IsSound s n h =
      elim (Option-cases (b64decode decode (trim_prefix s (codes "vmess://")))) [
        | inl z ↦ cc (rw (z, parse_vmess) at h)
        | inr (d, z) ↦ elim (Option-cases (unmarshal d)) [
          | inl y ↦ cc (rw (z, parse_vmess, y) at h)
          | inr (v, y) ↦ checked-IsSound _ _ _ _ _ _ n (rw (z, parse_vmess, y) at h)
        ]
      ]

  -- A link that is read gives a node of its protocol's type, with a host and a port that is not 0,
  -- and a mapping that has the node's name, type, host and port under their keys, whatever the
  -- link's other parts hold.
  pub parse_link-IsSound :
      (p : Protocol) (s : Text) (n : Node) → link p s ≡ some n → IsSound (type_of p) n
  unfolding parse_link parse_trojan parse_anytls parse_hysteria1 parse_hysteria2 parse_tuic
      parse_vless parse_wireguard
  parse_link-IsSound ss s n h = parse_ss-IsSound s n h
  parse_link-IsSound ssr s n h = parse_ssr-IsSound s n h
  parse_link-IsSound vmess s n h = parse_vmess-IsSound s n h
  parse_link-IsSound vless s n h = url_link-IsSound _ _ _ s n h
  parse_link-IsSound trojan s n h = url_link-IsSound _ _ _ s n h
  parse_link-IsSound hysteria2 s n h = url_link-IsSound _ _ _ s n h
  parse_link-IsSound hysteria1 s n h = url_link-IsSound _ _ _ s n h
  parse_link-IsSound tuic s n h = url_link-IsSound _ _ _ s n h
  parse_link-IsSound any_tls s n h = url_link-IsSound _ _ _ s n h
  parse_link-IsSound wireguard s n h = url_link-IsSound _ _ _ s n h
  parse_link-IsSound socks s n h = parse_socks-IsSound s n h

  -- A line that gives a node gives a sound one, of some protocol.
  dispatch-IsSound :
      (s : Text) (n : Node) → dispatch link s ≡ some n → (p : Protocol) × IsSound (type_of p) n
  unfolding dispatch
  dispatch-IsSound s n h = elim (Bool-cases (same (match_scheme s) [])) [
    | inl b ↦ cc (rw (b, dispatch) at h)
    | inr b ↦ elim (Option-cases (lookup (match_scheme s) registry)) [
      | inl z ↦ cc (rw (b, dispatch, z) at h)
      | inr (p, z) ↦ (p, parse_link-IsSound p s n (rw (b, dispatch, z) at h))
    ]
  ]

  Accounts-IsSound :
      (ls : List Text) (nodes : List Node) (skipped : List Text)
      → Accounts link ls nodes skipped
      → All (λ n. (p : Protocol) × IsSound (type_of p) n) nodes
  Accounts-IsSound [] nodes skipped (e, _) = rw e tt
  Accounts-IsSound (l ∷ ls) nodes skipped (inl (n, rest, d, e, a)) =
      rw e (dispatch-IsSound l n d, Accounts-IsSound ls rest skipped a)
  Accounts-IsSound (l ∷ ls) nodes skipped (inr (rest, d, e, a)) = Accounts-IsSound ls nodes rest a

  -- Every node that the lines of a subscription give is sound, whatever the lines hold.
  pub parse_lines-IsSound :
      (raws : List Text)
      → All (λ n. (p : Protocol) × IsSound (type_of p) n) (parse_lines link raws).nodes
  parse_lines-IsSound raws =
      Accounts-IsSound (content_lines raws) _ _ (parse_lines-Accounts link raws)
