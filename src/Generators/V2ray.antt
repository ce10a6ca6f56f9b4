-- ===== src/Generators/V2ray.antt =====
-- internal/generator/v2ray.go: nodes as a list of share links.
--
-- `encode64` is the base64 encoders, `query_escape` is `url.QueryEscape`, `encode_query` is
-- `Values.Encode`, `userinfo` is `UserPassword(u, p).String()` and `marshal_json` is `json.Marshal`.
pub mod Links
use subconverter_ng.Common.{
  ℕ, Bool, true, false, not, ◌&&◌, ◌||◌, Option, none, some, List, [], ◌∷◌, ◌++◌, Text, codes, same,
  ltb, if◌then◌else◌, lookup, insert, map, ℤ, pos, negsuc,
}
use subconverter_ng.ExtConfig.{Config}
use subconverter_ng.Generators.{Rendered}
use subconverter_ng.Node.Accessors.{cs, cb, ci, parse_reserved, get_sni}
use subconverter_ng.Node.{
  Value, null, str, num, flag, arr, bag, Items, nil, cons, Fields, end, field, Bag, Node,
}
use subconverter_ng.Parser.{Encoding, std, raw_url}
use subconverter_ng.Pipeline.Filters.{Options}
use subconverter_ng.Pipeline.Prepare.{prepare_nodes}
use subconverter_ng.Strings.Decimal.{itoa}
use subconverter_ng.Strings.{first_non_empty, join, replace_char}

-- The mapping of a value, if it is one.
abbrev pub bag_of : Fields → Bag
bag_of end = []
bag_of (field k v m) = (k, v) ∷ bag_of m

abbrev pub mapping : Option Value → Option Bag
mapping (some (bag m)) = some (bag_of m)
mapping _ = none

-- `cmap` as a mapping to read from; what is no mapping reads as an empty one.
unfoldable pub sub_bag : Bag → Text → Bag
sub_bag c key = elim (mapping (lookup key c)) [ none ↦ [] | some m ↦ m ]

-- The texts of a list.
abbrev pub texts_of : Items → List Text
texts_of nil = []
texts_of (cons (str s) xs) = s ∷ texts_of xs
texts_of (cons _ xs) = texts_of xs

-- `joinAny`.
unfoldable pub join_any : Option Value → Text
join_any (some (str s)) = s
join_any (some (arr xs)) = join (codes ",") (texts_of xs)
join_any _ = []

-- `url.Values`, as the calls of `Set` make it.
abbrev pub Pairs : Type 0
Pairs = List (Text × Text)

-- `Set` of a text that is not empty.
abbrev pub filled : Text → Text → Pairs
filled key [] = []
filled key (c ∷ s) = (key, c ∷ s) ∷ []

abbrev pub flagged : Bool → Text → Text → Pairs
flagged true key v = (key, v) ∷ []
flagged false key v = []

-- The query of `applyV2RayTransportQuery`.
unfoldable pub transport_query : Bag → Pairs
transport_query c =
    let net = first_non_empty (cs c (codes "network") ∷ codes "tcp" ∷ []) in
    (codes "type", net)
    ∷ (if same net (codes "ws")
        then filled (codes "path") (cs (sub_bag c (codes "ws-opts")) (codes "path"))
          ++ filled (codes "host")
              (cs (sub_bag (sub_bag c (codes "ws-opts")) (codes "headers")) (codes "Host"))
        else if same net (codes "grpc")
        then filled (codes "serviceName")
            (cs (sub_bag c (codes "grpc-opts")) (codes "grpc-service-name"))
        else if same net (codes "h2")
        then filled (codes "path") (cs (sub_bag c (codes "h2-opts")) (codes "path"))
          ++ filled (codes "host") (join_any (lookup (codes "host") (sub_bag c (codes "h2-opts"))))
        else [])

unfoldable pub tls_field : Bag → Text
tls_field c = if cb c (codes "tls") then codes "tls" else []

-- What `applyVMessTransportJSON` sets.
unfoldable pub vmess_transport : Bag → Bag
vmess_transport c =
    let net = cs c (codes "network") in
    if same net (codes "ws")
    then (codes "path", str (cs (sub_bag c (codes "ws-opts")) (codes "path")))
      ∷ elim (mapping (lookup (codes "headers") (sub_bag c (codes "ws-opts")))) [
        | none ↦ []
        | some hdr ↦ (codes "host", str (cs hdr (codes "Host"))) ∷ []
      ]
    else if same net (codes "grpc")
    then (codes "path", str (cs (sub_bag c (codes "grpc-opts")) (codes "grpc-service-name"))) ∷ []
    else if same net (codes "h2")
    then (codes "path", str (cs (sub_bag c (codes "h2-opts")) (codes "path")))
      ∷ (codes "host", str (join_any (lookup (codes "host") (sub_bag c (codes "h2-opts")))))
      ∷ []
    else []

-- The JSON of a vmess link.
unfoldable pub vmess_json : Node → Bag
vmess_json n =
    let c = n.clash in
    (codes "v", str (codes "2"))
    ∷ (codes "ps", str n.name)
    ∷ (codes "add", str (cs c (codes "server")))
    ∷ (codes "port", str (itoa (ci c (codes "port"))))
    ∷ (codes "id", str (cs c (codes "uuid")))
    ∷ (codes "aid", str (itoa (ci c (codes "alterId"))))
    ∷ (codes "scy", str (first_non_empty (cs c (codes "cipher") ∷ codes "auto" ∷ [])))
    ∷ (codes "net", str (first_non_empty (cs c (codes "network") ∷ codes "tcp" ∷ [])))
    ∷ (codes "type", str (codes "none"))
    ∷ (codes "tls", str (tls_field c))
    ∷ (vmess_transport c
        ++ (if same (cs c (codes "servername")) []
            then []
            else (codes "sni", str (cs c (codes "servername"))) ∷ []))

-- The parts of the plugin of an SS node; `none` where it has none that is known.
unfoldable pub ss_plugin_parts : Bag → Option (List Text)
ss_plugin_parts c =
    let plugin = cs c (codes "plugin") in
    let opts = sub_bag c (codes "plugin-opts") in
    let host = cs opts (codes "host") in
    let path = cs opts (codes "path") in
    if same plugin (codes "obfs")
    then some (
        codes "obfs-local"
        ∷ (codes "obfs=" ++ cs opts (codes "mode"))
        ∷ (if same host [] then [] else (codes "obfs-host=" ++ host) ∷ []))
    else if same plugin (codes "v2ray-plugin")
    then some (
        codes "v2ray-plugin"
        ∷ (codes "mode=" ++ first_non_empty (cs opts (codes "mode") ∷ codes "websocket" ∷ []))
        ∷ ((if cb opts (codes "tls") then codes "tls" ∷ [] else [])
            ++ ((if same host [] then [] else (codes "host=" ++ host) ∷ [])
                ++ (if same path [] then [] else (codes "path=" ++ path) ∷ []))))
    else none

-- The query of a vless link for its security, given its options of REALITY.
unfoldable pub security_query : Bag → Bag → Pairs
security_query c [] =
    (codes "security", if cb c (codes "tls") then codes "tls" else codes "none") ∷ []
security_query c (o ∷ os) =
    (codes "security", codes "reality")
    ∷ (filled (codes "pbk") (cs (o ∷ os) (codes "public-key"))
        ++ filled (codes "sid") (cs (o ∷ os) (codes "short-id")))

unfoldable pub vless_query : Bag → Pairs
vless_query c =
    (codes "encryption", codes "none")
    ∷ (security_query c (sub_bag c (codes "reality-opts"))
        ++ (filled (codes "sni") (cs c (codes "servername"))
            ++ (filled (codes "fp") (cs c (codes "client-fingerprint"))
                ++ (filled (codes "flow") (cs c (codes "flow")) ++ transport_query c))))

unfoldable pub trojan_query : Bag → Pairs
trojan_query c =
    filled (codes "sni") (cs c (codes "sni"))
    ++ (flagged (cb c (codes "skip-cert-verify")) (codes "allowInsecure") (codes "1")
        ++ transport_query c)

unfoldable pub hysteria2_query : Bag → Pairs
hysteria2_query c =
    filled (codes "sni") (cs c (codes "sni"))
    ++ (flagged (cb c (codes "skip-cert-verify")) (codes "insecure") (codes "1")
        ++ ((if same (cs c (codes "obfs")) []
              then []
              else (codes "obfs", cs c (codes "obfs"))
                ∷ (codes "obfs-password", cs c (codes "obfs-password"))
                ∷ [])
            ++ filled (codes "alpn") (join_any (lookup (codes "alpn") c))))

unfoldable pub tuic_query : Bag → Pairs
tuic_query c =
    filled (codes "congestion_control") (cs c (codes "congestion-controller"))
    ++ (filled (codes "udp_relay_mode") (cs c (codes "udp-relay-mode"))
        ++ (filled (codes "sni") (cs c (codes "sni"))
            ++ (filled (codes "alpn") (join_any (lookup (codes "alpn") c))
                ++ flagged (cb c (codes "skip-cert-verify")) (codes "allow_insecure") (codes "1"))))

-- The addresses of a WireGuard node that are not empty.
abbrev pub non_empty : Text → List Text
non_empty [] = []
non_empty (c ∷ s) = (c ∷ s) ∷ []

abbrev pub is_positive : ℤ → Bool
is_positive (pos n) = ltb 0 n
is_positive (negsuc n) = false

abbrev pub reserved_of : Option Value → List ℤ
reserved_of none = []
reserved_of (some v) = parse_reserved v

unfoldable pub wireguard_query : Bag → Pairs
wireguard_query c =
    filled (codes "publickey") (cs c (codes "public-key"))
    ++ (filled (codes "address")
          (join (codes ",") (non_empty (cs c (codes "ip")) ++ non_empty (cs c (codes "ipv6"))))
        ++ (filled (codes "presharedkey") (cs c (codes "pre-shared-key"))
            ++ (flagged (is_positive (ci c (codes "mtu"))) (codes "mtu") (itoa (ci c (codes "mtu")))
                ++ filled (codes "reserved")
                    (join (codes ",") (map itoa (reserved_of (lookup (codes "reserved") c)))))))

unfoldable pub hysteria1_query : Bag → Pairs
hysteria1_query c =
    filled (codes "auth") (cs c (codes "auth-str"))
    ++ (filled (codes "upmbps") (cs c (codes "up"))
        ++ (filled (codes "downmbps") (cs c (codes "down"))
            ++ (filled (codes "peer") (get_sni c)
                ++ (flagged (cb c (codes "skip-cert-verify")) (codes "insecure") (codes "1")
                    ++ (filled (codes "obfs") (cs c (codes "obfs"))
                        ++ (filled (codes "alpn") (join_any (lookup (codes "alpn") c))
                            ++ filled (codes "protocol") (cs c (codes "protocol"))))))))
