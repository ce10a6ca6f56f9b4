-- ===== src/Parser/Links/Encoded.antt =====
-- internal/parser/ss.go, internal/parser/ssr.go and internal/parser/vmess.go: the links in base64.
--
-- `parse_query` is the values that `url.ParseQuery` gives, and `unmarshal` is `json.Unmarshal` into
-- `vmessJSON`.
use subconverter_ng.Common.{
  true, false, ◌||◌, Option, none, some, List, [], ◌∷◌, ◌++◌, Text, codes, same, if◌then◌else◌,
  insert, ℤ,
}
use subconverter_ng.Node.{Value, str, num, flag, bag, Fields, end, field, Bag, Node}
use subconverter_ng.Parser.Calls.{
  password, uuid, cipher, alter_id, udp, tls, servername, network, client_fingerprint, obfs,
  obfs_param, protocol, protocol_param, plugin, plugin_opts, Call, set_to, raw_to, set_text, when,
  checked, apply_v2ray_transport,
}
use subconverter_ng.Parser.Util.{
  atoi_port, any_to_int, b64decode, decoded_text, endpoint, split_host_port, split_cred,
}
use subconverter_ng.Parser.{Encoding}
use subconverter_ng.Strings.{
  trim_space, trim_prefix, contains, cut, cut_text, cut_last, split, join, first_non_empty,
  equal_fold,
}
use subconverter_ng.Urls.{first_value}

-- `url.Values`.
abbrev pub Values : Type 0
Values = List (Text × List Text)

-- The parts before and behind the first `=`, of which there may be none.
unfoldable pub key_value : Text → Text × Text
key_value kv = elim (cut b'=' kv) [ none ↦ (kv, []) | some e ↦ e ]

-- One option of a plugin.
unfoldable pub plugin_option : Text → Bag → Bag
plugin_option kv opts =
    let (k, v) = key_value kv in
    if same k (codes "obfs") || same k (codes "mode")
    then insert (codes "mode") (str v) opts
    else if same k (codes "obfs-host") || same k (codes "host")
    then insert (codes "host") (str v) opts
    else if same k (codes "path")
    then insert (codes "path") (str v) opts
    else if same k (codes "tls")
    then insert (codes "tls") (flag true) opts
    else opts

unfoldable pub plugin_options : List Text → Bag → Bag
plugin_options [] opts = opts
plugin_options (kv ∷ kvs) opts = plugin_options kvs (plugin_option kv opts)

-- A mapping as a value.
abbrev pub fields_of : Bag → Fields
fields_of [] = end
fields_of ((k, v) ∷ m) = field k v (fields_of m)

-- `applySSPlugin`, on the parts of its argument.
unfoldable pub plugin_calls : List Text → List Call
plugin_calls [] = []
plugin_calls (name ∷ kvs) =
    let opts = bag (fields_of (plugin_options kvs [])) in
    if contains name (codes "obfs")
    then set_text plugin (codes "obfs") ∷ set_to plugin_opts opts ∷ []
    else if contains name (codes "v2ray")
    then set_text plugin (codes "v2ray-plugin") ∷ set_to plugin_opts opts ∷ []
    else []

unfoldable pub apply_ss_plugin : Text → List Call
apply_ss_plugin spec = if same spec [] then [] else plugin_calls (split b';' spec)

-- What `parseSS` reads of a link.
pub record SsLink : Type 0 where
  pub creds : Text × Text
  pub place : Text × ℤ
  pub query : Values

-- The text before the first `?`, and the query behind it.
unfoldable pub cut_query : (Text → Values) → Text → Text × Values
cut_query parse_query s = elim (cut b'?' s) [
  | none ↦ (s, [])
  | some (before, query) ↦ (before, parse_query query)
]

-- `vmessJSON`.
pub record VmessJson : Type 0 where
  pub ps : Text
  pub add : Text
  pub port : Value
  pub id : Text
  pub aid : Value
  pub scy : Text
  pub net : Text
  pub header_type : Text
  pub host : Text
  pub path : Text
  pub tls_kind : Text
  pub sni_name : Text
  pub alpn_list : Text
  pub fp : Text

module _ (unescape : Text → Option Text) (decode : Encoding → Text → Option Text)
    (parse_query : Text → Values) where
  -- The link with the user's part in base64.
  unfoldable pub sip002 : Text → Text → SsLink
  sip002 userinfo hostpart =
      let (place, query) = cut_query parse_query hostpart in
      record {
        creds = split_cred (elim (b64decode decode userinfo) [ none ↦ userinfo | some d ↦ d ]);
        place = split_host_port place;
        query = query;
      }

  -- The link that is all in base64; `none` is a malformed one.
  unfoldable pub legacy : Text → Option SsLink
  legacy rest =
      let (body, query) = cut_query parse_query rest in
      elim (cut_last b'@' (decoded_text decode body)) [
        | none ↦ none
        | some (creds, place) ↦
            some (record { creds = split_cred creds; place = split_host_port place; query = query })
      ]

  unfoldable pub ss_link : Text → Option SsLink
  ss_link rest = elim (cut_last b'@' rest) [
    | some (userinfo, hostpart) ↦ some (sip002 userinfo hostpart)
    | none ↦ legacy rest
  ]

  -- The name of the fragment, and the link without it.
  unfoldable pub cut_fragment : Text → Text × Text
  cut_fragment s = elim (cut b'#' s) [
    | none ↦ ([], s)
    | some (rest, fragment) ↦
        (elim (unescape fragment) [ none ↦ [] | some name ↦ trim_space name ], rest)
  ]

  unfoldable pub ss_node : Text → SsLink → Option Node
  ss_node name l =
      let (method, pass) = l.creds in
      let (host, port) = l.place in
      checked (same method []) (codes "ss") (first_non_empty (name ∷ endpoint host port ∷ [])) host
        port
        (set_text cipher method
          ∷ set_text password pass
          ∷ raw_to udp (flag true)
          ∷ apply_ss_plugin (first_value l.query (codes "plugin")))

  unfoldable pub parse_ss : Text → Option Node
  parse_ss uri =
      let (name, rest) = cut_fragment (trim_prefix uri (codes "ss://")) in
      elim (ss_link rest) [ none ↦ none | some l ↦ ss_node name l ]

  -- The head of an SSR body, and its query.
  unfoldable pub ssr_parts : Text → Text × Text
  ssr_parts decoded = elim (cut_text (codes "/?") decoded) [
    | some e ↦ e
    | none ↦ elim (cut b'?' decoded) [ some e ↦ e | none ↦ (decoded, []) ]
  ]

  -- The node of the parts between colons, of which there are six at least.
  unfoldable pub ssr_node : Values → List Text → Option Node
  ssr_node q (host ∷ port ∷ proto ∷ method ∷ obfuscation ∷ pass ∷ passes) =
      let remarks = trim_space (decoded_text decode (first_value q (codes "remarks"))) in
      checked false (codes "ssr") (first_non_empty (remarks ∷ endpoint host (atoi_port port) ∷ []))
        host (atoi_port port)
        (set_text cipher method
          ∷ set_text password (decoded_text decode (join (codes ":") (pass ∷ passes)))
          ∷ set_text protocol proto
          ∷ set_text obfs obfuscation
          ∷ set_text protocol_param (decoded_text decode (first_value q (codes "protoparam")))
          ∷ set_text obfs_param (decoded_text decode (first_value q (codes "obfsparam")))
          ∷ raw_to udp (flag true)
          ∷ [])
  ssr_node q _ = none

  unfoldable pub parse_ssr : Text → Option Node
  parse_ssr uri = elim (b64decode decode (trim_prefix uri (codes "ssr://"))) [
    | none ↦ none
    | some decoded ↦
        let (head, query) = ssr_parts decoded in ssr_node (parse_query query) (split b':' head)
  ]

  module _ (unmarshal : Text → Option VmessJson) where
    unfoldable pub vmess_node : VmessJson → Option Node
    vmess_node v =
        let port = any_to_int v.port in
        let net = first_non_empty (v.net ∷ codes "tcp" ∷ []) in
        checked (same v.id []) (codes "vmess") (first_non_empty (v.ps ∷ endpoint v.add port ∷ []))
          v.add port
          (set_text uuid v.id
            ∷ raw_to alter_id (num (any_to_int v.aid))
            ∷ set_text cipher (first_non_empty (v.scy ∷ codes "auto" ∷ []))
            ∷ raw_to udp (flag true)
            ∷ (when (equal_fold v.tls_kind (codes "tls")) (
                  raw_to tls (flag true)
                  ∷ set_text servername (first_non_empty (v.sni_name ∷ v.host ∷ []))
                  ∷ set_text client_fingerprint v.fp
                  ∷ [])
                ++ (set_text network net ∷ apply_v2ray_transport net v.host v.path)))

    unfoldable pub parse_vmess : Text → Option Node
    parse_vmess uri = elim (b64decode decode (trim_prefix uri (codes "vmess://"))) [
      | none ↦ none
      | some dec ↦ elim (unmarshal dec) [ none ↦ none | some v ↦ vmess_node v ]
    ]
