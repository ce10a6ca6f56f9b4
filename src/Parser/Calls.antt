-- ===== src/Parser/Calls.antt =====
-- internal/proxy/proxy.go and internal/parser/vmess.go: a node as a parser of links builds it, by
-- `New` and a sequence of calls of `Set` and `SetRaw`.
pub mod Kept
use subconverter_ng.Common.{
  ℕ, zero, suc, ◌≡◌, ◌≢◌, refl, Bool, true, false, not, ◌||◌, Option, none, some, List, [], ◌∷◌,
  ◌++◌, Text, codes, same, same_iff, if◌then◌else◌, ℤ, pos, negsuc, Bool-cases,
}
use subconverter_ng.Node.{
  Value, str, num, flag, arr, bag, Items, nil, cons, Fields, end, field, Node, new_node, set,
  set_raw, Mirrors, IsExtra, new_node-Mirrors, set-Mirrors, set_raw-Mirrors,
}

-- The fields that the parsers of links set.
pub data Field : Type 0 where
  password uuid cipher alter_id username udp tls sni servername skip_cert_verify : Field
  alpn flow network client_fingerprint reality_opts ws_opts grpc_opts h2_opts : Field
  obfs obfs_password obfs_param protocol protocol_param plugin plugin_opts : Field
  auth_str up down congestion_controller udp_relay_mode : Field
  private_key public_key pre_shared_key ip ipv6 mtu reserved : Field

unfoldable pub key_of : Field → Text
key_of password = codes "password"
key_of uuid = codes "uuid"
key_of cipher = codes "cipher"
key_of alter_id = codes "alterId"
key_of username = codes "username"
key_of udp = codes "udp"
key_of tls = codes "tls"
key_of sni = codes "sni"
key_of servername = codes "servername"
key_of skip_cert_verify = codes "skip-cert-verify"
key_of alpn = codes "alpn"
key_of flow = codes "flow"
key_of network = codes "network"
key_of client_fingerprint = codes "client-fingerprint"
key_of reality_opts = codes "reality-opts"
key_of ws_opts = codes "ws-opts"
key_of grpc_opts = codes "grpc-opts"
key_of h2_opts = codes "h2-opts"
key_of obfs = codes "obfs"
key_of obfs_password = codes "obfs-password"
key_of obfs_param = codes "obfs-param"
key_of protocol = codes "protocol"
key_of protocol_param = codes "protocol-param"
key_of plugin = codes "plugin"
key_of plugin_opts = codes "plugin-opts"
key_of auth_str = codes "auth-str"
key_of up = codes "up"
key_of down = codes "down"
key_of congestion_controller = codes "congestion-controller"
key_of udp_relay_mode = codes "udp-relay-mode"
key_of private_key = codes "private-key"
key_of public_key = codes "public-key"
key_of pre_shared_key = codes "pre-shared-key"
key_of ip = codes "ip"
key_of ipv6 = codes "ipv6"
key_of mtu = codes "mtu"
key_of reserved = codes "reserved"

-- `Set` of a field, and `SetRaw`.
pub data Call : Type 0 where
  set_to : Field → Value → Call
  raw_to : Field → Value → Call

unfoldable pub apply_calls : List Call → Node → Node
apply_calls [] n = n
apply_calls (set_to k v ∷ cs) n = apply_calls cs (set (key_of k) v n)
apply_calls (raw_to k v ∷ cs) n = apply_calls cs (set_raw (key_of k) v n)

-- `Set` of a text.
abbrev pub set_text : Field → Text → Call
set_text k s = set_to k (str s)

-- `SetRaw` of `true`, under a condition.
abbrev pub raw_if : Bool → Field → List Call
raw_if true k = raw_to k (flag true) ∷ []
raw_if false k = []

-- Calls under a condition.
abbrev pub when : Bool → List Call → List Call
when true cs = cs
when false cs = []

abbrev pub is_zero : ℤ → Bool
is_zero (pos zero) = true
is_zero (pos (suc n)) = false
is_zero (negsuc n) = false

-- The node of a link, unless it misses its host, its port or what else it needs.
unfoldable pub checked : Bool → Text → Text → Text → ℤ → List Call → Option Node
checked missing typ name host port calls =
    if missing || same host [] || is_zero port
    then none
    else some (apply_calls calls (new_node typ name host port))

-- The fields of a text that is not empty.
abbrev pub text_field : Text → Text → Fields → Fields
text_field key [] rest = rest
text_field key (c ∷ s) rest = field key (str (c ∷ s)) rest

-- `Set` of a mapping that has something in it.
abbrev pub set_filled : Field → Fields → List Call
set_filled k end = []
set_filled k (field key v rest) = set_to k (bag (field key v rest)) ∷ []

abbrev pub header_field : Text → Fields
header_field [] = end
header_field (c ∷ host) =
    field (codes "headers") (bag (field (codes "Host") (str (c ∷ host)) end)) end

abbrev pub host_list : Text → Fields
host_list [] = end
host_list (c ∷ host) = field (codes "host") (arr (cons (str (c ∷ host)) nil)) end

-- `applyV2RayTransport`, which does not use the type of the header.
unfoldable pub apply_v2ray_transport : Text → Text → Text → List Call
apply_v2ray_transport net host path =
    if same net (codes "ws")
    then set_filled ws_opts (text_field (codes "path") path (header_field host))
    else if same net (codes "grpc")
    then set_filled grpc_opts (text_field (codes "grpc-service-name") path end)
    else if same net (codes "h2")
    then set_filled h2_opts (text_field (codes "path") path (host_list host))
    else []
