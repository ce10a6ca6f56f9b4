-- ===== src/Parser/Links.antt =====
-- internal/parser/{trojan,anytls,hysteria1,hysteria2,tuic,vless}.go: the links that are URLs.
--
-- `parse_url` is `url.Parse`, and `unescape` is `url.QueryUnescape`.
pub mod Plain
pub mod Encoded
pub mod Registry
pub mod Sound
use subconverter_ng.Common.{
  ℕ, Bool, true, false, not, ◌&&◌, ◌||◌, Option, none, some, List, [], ◌∷◌, ◌++◌, Text, codes, same,
  if◌then◌else◌, ℤ,
}
use subconverter_ng.Node.{Value, str, flag, arr, bag, Items, nil, cons, Fields, end, Node}
use subconverter_ng.Parser.Calls.{
  password, uuid, udp, tls, sni, servername, skip_cert_verify, alpn, flow, network,
  client_fingerprint, reality_opts, obfs, obfs_password, protocol, auth_str, up, down,
  congestion_controller, udp_relay_mode, Call, set_to, raw_to, set_text, raw_if, when, text_field,
  checked, apply_v2ray_transport,
}
use subconverter_ng.Parser.Util.{atoi_port, fragment_name, endpoint, split_alpn}
use subconverter_ng.Strings.{first_non_empty, is_on}
use subconverter_ng.Urls.{Url, first_value}

-- `User.Username` and `User.Password`.
abbrev pub user_name : Url → Text
user_name u = elim u.user [ none ↦ [] | some e ↦ e.0 ]

abbrev pub user_password : Url → Text
user_password u = elim u.user [ none ↦ [] | some e ↦ elim e.1 [ none ↦ [] | some p ↦ p ] ]

-- `alpn`, where the query has it.
abbrev pub alpn_calls : Text → List Call
alpn_calls [] = []
alpn_calls (c ∷ s) = set_to alpn (arr (split_alpn (c ∷ s))) ∷ []

-- The transports of `parseTrojan`.
unfoldable pub trojan_transport : (Text → Text) → List Call
trojan_transport q =
    if same (q (codes "type")) (codes "ws")
    then set_text network (codes "ws")
      ∷ apply_v2ray_transport (codes "ws") (q (codes "host")) (q (codes "path"))
    else if same (q (codes "type")) (codes "grpc")
    then set_text network (codes "grpc")
      ∷ apply_v2ray_transport (codes "grpc") (q (codes "host")) (q (codes "serviceName"))
    else []

unfoldable pub trojan_calls : Url → List Call
trojan_calls u =
    let q = first_value u.query in
    set_text password (user_name u)
    ∷ raw_to udp (flag true)
    ∷ set_text sni (first_non_empty (q (codes "sni") ∷ q (codes "peer") ∷ []))
    ∷ (raw_if (is_on (q (codes "allowInsecure"))) skip_cert_verify
        ++ (alpn_calls (q (codes "alpn")) ++ trojan_transport q))

unfoldable pub anytls_calls : Url → List Call
anytls_calls u =
    let q = first_value u.query in
    set_text password (user_name u)
    ∷ set_text sni (q (codes "sni"))
    ∷ (raw_if (is_on (q (codes "insecure")) || is_on (q (codes "allowInsecure"))) skip_cert_verify
        ++ (alpn_calls (q (codes "alpn")) ++ (raw_to udp (flag true) ∷ [])))

unfoldable pub hysteria2_calls : Url → List Call
hysteria2_calls u =
    let q = first_value u.query in
    set_text password (first_non_empty (user_name u ∷ q (codes "auth") ∷ []))
    ∷ set_text sni (q (codes "sni"))
    ∷ (raw_if (is_on (q (codes "insecure")) || is_on (q (codes "allowInsecure"))) skip_cert_verify
        ++ (when (not (same (q (codes "obfs")) [])) (
              set_text obfs (q (codes "obfs"))
              ∷ set_text obfs_password (q (codes "obfs-password"))
              ∷ [])
            ++ alpn_calls (q (codes "alpn"))))

unfoldable pub hysteria1_calls : Url → List Call
hysteria1_calls u =
    let q = first_value u.query in
    set_text auth_str (first_non_empty (q (codes "auth") ∷ q (codes "auth_str") ∷ user_name u ∷ []))
    ∷ set_text up (q (codes "upmbps"))
    ∷ set_text down (q (codes "downmbps"))
    ∷ set_text sni (first_non_empty (q (codes "peer") ∷ q (codes "sni") ∷ []))
    ∷ (raw_if (is_on (q (codes "insecure")) || is_on (q (codes "allowInsecure"))) skip_cert_verify
        ++ (set_text obfs (q (codes "obfs"))
            ∷ (alpn_calls (q (codes "alpn")) ++ (set_text protocol (q (codes "protocol")) ∷ []))))

unfoldable pub tuic_calls : Url → List Call
tuic_calls u =
    let q = first_value u.query in
    set_text uuid (user_name u)
    ∷ set_text password (user_password u)
    ∷ set_text sni (q (codes "sni"))
    ∷ set_text congestion_controller
        (first_non_empty (q (codes "congestion_control") ∷ codes "bbr" ∷ []))
    ∷ set_text udp_relay_mode (first_non_empty (q (codes "udp_relay_mode") ∷ codes "native" ∷ []))
    ∷ set_to alpn (
        arr (
          if same (q (codes "alpn")) []
          then cons (str (codes "h3")) nil
          else split_alpn (q (codes "alpn"))))
    ∷ raw_if (is_on (q (codes "allow_insecure")) || is_on (q (codes "insecure"))) skip_cert_verify

-- The calls of `parseVLESS` for the security of the link.
unfoldable pub vless_security : (Text → Text) → Text → List Call
vless_security q security =
    let reality = same security (codes "reality") in
    let secure = same security (codes "tls") || reality in
    raw_if secure tls
    ++ (when reality (
          set_to reality_opts (
            bag (
              text_field (codes "public-key") (q (codes "pbk"))
                (text_field (codes "short-id") (q (codes "sid")) end)))
          ∷ [])
        ++ when secure (
            set_text servername (first_non_empty (q (codes "sni") ∷ q (codes "peer") ∷ []))
            ∷ set_text client_fingerprint (first_non_empty (q (codes "fp") ∷ codes "chrome" ∷ []))
            ∷ (raw_if (is_on (q (codes "allowInsecure"))) skip_cert_verify
                ++ alpn_calls (q (codes "alpn")))))

-- The calls for its transport.
unfoldable pub vless_transport : (Text → Text) → Text → List Call
vless_transport q net =
    if same net (codes "grpc")
    then apply_v2ray_transport net (q (codes "host")) (q (codes "serviceName"))
    else apply_v2ray_transport net (q (codes "host")) (q (codes "path"))

unfoldable pub vless_calls : Url → List Call
vless_calls u =
    let q = first_value u.query in
    let net = first_non_empty (q (codes "type") ∷ codes "tcp" ∷ []) in
    set_text uuid (user_name u)
    ∷ raw_to udp (flag true)
    ∷ set_text flow (q (codes "flow"))
    ∷ (vless_security q (q (codes "security")) ++ (set_text network net ∷ vless_transport q net))

module _ (parse_url : Text → Option Url) (unescape : Text → Option Text) where
  -- The node of a URL, with the name in its fragment: of a URL that does not parse, and of one that
  -- misses its user where the protocol needs one, there is none.
  unfoldable pub url_link : Bool → Text → (Url → List Call) → Text → Option Node
  url_link needs_user typ calls uri = elim (parse_url uri) [
    | none ↦ none
    | some u ↦
        checked (needs_user && same (user_name u) []) typ
          (fragment_name unescape u (endpoint u.hostname (atoi_port u.port))) u.hostname
          (atoi_port u.port) (calls u)
  ]

  unfoldable pub parse_trojan : Text → Option Node
  parse_trojan = url_link true (codes "trojan") trojan_calls

  unfoldable pub parse_anytls : Text → Option Node
  parse_anytls = url_link true (codes "anytls") anytls_calls

  unfoldable pub parse_hysteria2 : Text → Option Node
  parse_hysteria2 = url_link false (codes "hysteria2") hysteria2_calls

  unfoldable pub parse_hysteria1 : Text → Option Node
  parse_hysteria1 = url_link false (codes "hysteria") hysteria1_calls

  unfoldable pub parse_tuic : Text → Option Node
  parse_tuic = url_link true (codes "tuic") tuic_calls

  unfoldable pub parse_vless : Text → Option Node
  parse_vless = url_link true (codes "vless") vless_calls
