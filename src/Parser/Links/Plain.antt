-- ===== src/Parser/Links/Plain.antt =====
-- internal/parser/socks.go and internal/parser/wireguard.go.
--
-- The query of a WireGuard link is lower-cased key by key, in the order in which a `range` visits
-- it; nothing is assumed of that order.
use subconverter_ng.Common.{
  true, false, not, ◌&&◌, ◌||◌, Option, none, some, List, [], ◌∷◌, ◌++◌, Text, codes, same,
  if◌then◌else◌, insert, ℤ,
}
use subconverter_ng.Node.{num, flag, arr, Items, nil, cons, Node}
use subconverter_ng.Parser.Calls.{
  password, username, udp, private_key, public_key, pre_shared_key, ip, ipv6, mtu, reserved, Call,
  set_to, raw_to, set_text, is_zero, checked,
}
use subconverter_ng.Parser.Links.{user_name, user_password, url_link}
use subconverter_ng.Parser.Util.{
  atoi_port, b64decode, fragment_name, endpoint, split_host_port, split_cred,
}
use subconverter_ng.Parser.{Encoding}
use subconverter_ng.Strings.Decimal.{atoi}
use subconverter_ng.Strings.{
  trim_space, to_lower, has_prefix, trim_suffix, contains, cut_last, split,
}
use subconverter_ng.Urls.{Url, first_value}

-- What `parseSOCKS` reads of a link.
pub record Endpoint : Type 0 where
  pub host : Text
  pub port : ℤ
  pub user : Text
  pub pass : Text

module _ (parse_url : Text → Option Url) (unescape : Text → Option Text)
    (decode : Encoding → Text → Option Text) where
  -- The decoded host of a link whose host or port is missing.
  unfoldable pub decoded_endpoint : Text → Endpoint
  decoded_endpoint dec = elim (cut_last b'@' dec) [
    | none ↦
        let (host, port) = split_host_port dec in
        record { host = host; port = port; user = []; pass = [] }
    | some (creds, rest) ↦
        let (host, port) = split_host_port rest in
        let (user, pass) = split_cred creds in
        record { host = host; port = port; user = user; pass = pass }
  ]

  unfoldable pub host_endpoint : Url → Endpoint
  host_endpoint u =
      let plain : Endpoint = record {
        host = u.hostname;
        port = atoi_port u.port;
        user = [];
        pass = [];
      } in
      if (same u.hostname [] || is_zero (atoi_port u.port)) && not (same u.host [])
      then elim (b64decode decode u.host) [
        | none ↦ plain
        | some dec ↦ if same dec u.host then plain else decoded_endpoint dec
      ]
      else plain

  -- The credentials of the user, which some producers encode whole.
  unfoldable pub user_credentials : Text → Text → Text × Text
  user_credentials user pass =
      if same pass [] && not (same user [])
      then elim (b64decode decode user) [
        | none ↦ (user, pass)
        | some dec ↦ if contains dec (codes ":") then split_cred dec else (user, pass)
      ]
      else (user, pass)

  unfoldable pub with_user : Url → Endpoint → Endpoint
  with_user u e = elim u.user [
    | none ↦ e
    | some _ ↦
        let (user, pass) = user_credentials (user_name u) (user_password u) in
        record e { user = user; pass = pass }
  ]

  unfoldable pub socks_endpoint : Text → Url → Endpoint
  socks_endpoint uri u =
      let q = first_value u.query in
      if has_prefix (to_lower uri) (codes "tg://")
      then record {
        host = q (codes "server");
        port = atoi_port (q (codes "port"));
        user = q (codes "user");
        pass = q (codes "pass");
      }
      else with_user u (host_endpoint u)

  unfoldable pub parse_socks : Text → Option Node
  parse_socks uri = elim (parse_url uri) [
    | none ↦ none
    | some u ↦
        let e = socks_endpoint uri u in
        checked false (codes "socks5") (fragment_name unescape u (endpoint e.host e.port)) e.host
          e.port (set_text username e.user ∷ set_text password e.pass ∷ raw_to udp (flag true) ∷ [])
  ]

-- `lowerQuery`, from what the keys before have given.
unfoldable pub lower_query :
    List (Text × List Text) → List (Text × List Text) → List (Text × List Text)
lower_query out [] = out
lower_query out ((k, v) ∷ q) = lower_query (insert (to_lower k) v out) q

-- `firstQ`.
unfoldable pub first_q : List (Text × List Text) → List Text → Text
first_q q [] = []
first_q q (k ∷ ks) = let v = trim_space (first_value q k) in if same v [] then first_q q ks else v

-- An address of the list, by its family.
unfoldable pub address_calls : List Text → List Call
address_calls [] = []
address_calls (raw ∷ raws) =
    let rest = address_calls raws in
    let trimmed = trim_space raw in
    let addr = trim_suffix (trim_suffix trimmed (codes "/32")) (codes "/128") in
    if same trimmed []
    then rest
    else set_text (if contains addr (codes ":") then ipv6 else ip) addr ∷ rest

unfoldable pub mtu_calls : Text → List Call
mtu_calls s = if not (same s []) && (atoi s).is_ok then set_to mtu (num (atoi s).value) ∷ [] else []

-- The numbers of a list; `none` where one of them is none.
unfoldable pub reserved_values : List Text → Option Items
reserved_values [] = some nil
reserved_values (part ∷ parts) =
    let rest = reserved_values parts in
    let n = atoi (trim_space part) in
    if not n.is_ok then none else elim rest [ none ↦ none | some xs ↦ some (cons (num n.value) xs) ]

-- `Set` of the numbers; a split text has one part at least.
unfoldable pub reserved_calls : Text → List Call
reserved_calls s = if same s [] then [] else elim (reserved_values (split b',' s)) [
  | none ↦ []
  | some xs ↦ set_to reserved (arr xs) ∷ []
]

-- The calls of `parseWireGuard`.
unfoldable pub wireguard_calls : Url → List Call
wireguard_calls u =
    let q = lower_query [] u.query in
    set_text private_key (user_name u)
    ∷ set_text public_key
        (first_q q (codes "publickey" ∷ codes "public-key" ∷ codes "peerpublickey" ∷ []))
    ∷ (address_calls (split b',' (first_q q (codes "address" ∷ codes "ip" ∷ codes "ips" ∷ [])))
        ++ (set_text pre_shared_key
              (first_q q (codes "presharedkey" ∷ codes "pre-shared-key" ∷ codes "psk" ∷ []))
            ∷ (mtu_calls (first_q q (codes "mtu" ∷ []))
                ++ (reserved_calls (first_q q (codes "reserved" ∷ []))
                    ++ (raw_to udp (flag true) ∷ [])))))

module _ (parse_url : Text → Option Url) (unescape : Text → Option Text) where
  unfoldable pub parse_wireguard : Text → Option Node
  parse_wireguard = url_link parse_url unescape false (codes "wireguard") wireguard_calls
