-- ===== src/Parser/Calls/Kept.antt =====
-- What a node keeps through the calls that build it.
use subconverter_ng.Common.{
  ◌≡◌, refl, ap, ◌∙◌, subst, Bool, true, false, ◌||◌, none, some, List, [], ◌∷◌, Text, same,
  if◌then◌else◌, ℤ,
}
use subconverter_ng.Node.{
  Value, null, str, num, flag, arr, bag, Node, new_node, set, set_raw, Mirrors, IsExtra,
  new_node-Mirrors, set-Mirrors, set_raw-Mirrors,
}
use subconverter_ng.Parser.Calls.{
  Field, password, uuid, cipher, alter_id, username, udp, tls, sni, servername, skip_cert_verify,
  alpn, flow, network, client_fingerprint, reality_opts, ws_opts, grpc_opts, h2_opts, obfs,
  obfs_password, obfs_param, protocol, protocol_param, plugin, plugin_opts, auth_str, up, down,
  congestion_controller, udp_relay_mode, private_key, public_key, pre_shared_key, ip, ipv6, mtu,
  reserved, key_of, Call, set_to, raw_to, apply_calls, is_zero, checked,
}

key_of-IsExtra : (k : Field) → IsExtra (key_of k)
unfolding key_of same
key_of-IsExtra password = (refl, refl, refl, refl)
key_of-IsExtra uuid = (refl, refl, refl, refl)
key_of-IsExtra cipher = (refl, refl, refl, refl)
key_of-IsExtra alter_id = (refl, refl, refl, refl)
key_of-IsExtra username = (refl, refl, refl, refl)
key_of-IsExtra udp = (refl, refl, refl, refl)
key_of-IsExtra tls = (refl, refl, refl, refl)
key_of-IsExtra sni = (refl, refl, refl, refl)
key_of-IsExtra servername = (refl, refl, refl, refl)
key_of-IsExtra skip_cert_verify = (refl, refl, refl, refl)
key_of-IsExtra alpn = (refl, refl, refl, refl)
key_of-IsExtra flow = (refl, refl, refl, refl)
key_of-IsExtra network = (refl, refl, refl, refl)
key_of-IsExtra client_fingerprint = (refl, refl, refl, refl)
key_of-IsExtra reality_opts = (refl, refl, refl, refl)
key_of-IsExtra ws_opts = (refl, refl, refl, refl)
key_of-IsExtra grpc_opts = (refl, refl, refl, refl)
key_of-IsExtra h2_opts = (refl, refl, refl, refl)
key_of-IsExtra obfs = (refl, refl, refl, refl)
key_of-IsExtra obfs_password = (refl, refl, refl, refl)
key_of-IsExtra obfs_param = (refl, refl, refl, refl)
key_of-IsExtra protocol = (refl, refl, refl, refl)
key_of-IsExtra protocol_param = (refl, refl, refl, refl)
key_of-IsExtra plugin = (refl, refl, refl, refl)
key_of-IsExtra plugin_opts = (refl, refl, refl, refl)
key_of-IsExtra auth_str = (refl, refl, refl, refl)
key_of-IsExtra up = (refl, refl, refl, refl)
key_of-IsExtra down = (refl, refl, refl, refl)
key_of-IsExtra congestion_controller = (refl, refl, refl, refl)
key_of-IsExtra udp_relay_mode = (refl, refl, refl, refl)
key_of-IsExtra private_key = (refl, refl, refl, refl)
key_of-IsExtra public_key = (refl, refl, refl, refl)
key_of-IsExtra pre_shared_key = (refl, refl, refl, refl)
key_of-IsExtra ip = (refl, refl, refl, refl)
key_of-IsExtra ipv6 = (refl, refl, refl, refl)
key_of-IsExtra mtu = (refl, refl, refl, refl)
key_of-IsExtra reserved = (refl, refl, refl, refl)

apply_calls-Mirrors : (cs : List Call) (n : Node) → Mirrors n → Mirrors (apply_calls cs n)
unfolding apply_calls
apply_calls-Mirrors [] n m = m
apply_calls-Mirrors (set_to k v ∷ cs) n m =
    apply_calls-Mirrors cs (set (key_of k) v n) (set-Mirrors (key_of k) v n (key_of-IsExtra k) m)
apply_calls-Mirrors (raw_to k v ∷ cs) n m =
    apply_calls-Mirrors cs (set_raw (key_of k) v n)
      (set_raw-Mirrors (key_of k) v n (key_of-IsExtra k) m)

-- The promoted fields beside the name.
abbrev promoted : Node → Text × Text × ℤ
promoted n = (n.typ, n.server, n.port)

set-promoted : (key : Text) (v : Value) (n : Node) → promoted (set key v n) ≡ promoted n
unfolding set set_raw
set-promoted key null n = refl
set-promoted key (str []) n = unfold same in refl
set-promoted key (str (c ∷ s)) n = unfold same in refl
set-promoted key (num k) n = refl
set-promoted key (flag b) n = refl
set-promoted key (arr xs) n = refl
set-promoted key (bag fs) n = refl

apply_calls-promoted : (cs : List Call) (n : Node) → promoted (apply_calls cs n) ≡ promoted n
unfolding apply_calls set_raw
apply_calls-promoted [] n = refl
apply_calls-promoted (set_to k v ∷ cs) n =
    apply_calls-promoted cs (set (key_of k) v n) ∙ set-promoted (key_of k) v n
apply_calls-promoted (raw_to k v ∷ cs) n = apply_calls-promoted cs (set_raw (key_of k) v n)

-- A node that can be written to a config: its mapping agrees with its promoted fields, and it has
-- the type, a host and a port.
pub record IsSound (typ : Text) (n : Node) : Type 0 where
  pub mirrors : Mirrors n
  pub has_type : n.typ ≡ typ
  pub has_server : same n.server [] ≡ false
  pub has_port : is_zero n.port ≡ false

pub checked-IsSound :
    (missing : Bool) (typ name host : Text) (port : ℤ) (calls : List Call) (n : Node)
    → checked missing typ name host port calls ≡ some n
    → IsSound typ n
unfolding checked
checked-IsSound missing typ name host port calls n h =
    go missing (same host []) (is_zero port) refl refl h
  where
    whole : Node
    whole = apply_calls calls (new_node typ name host port)

    kept : promoted whole ≡ (typ, host, port)
    kept = apply_calls-promoted calls (new_node typ name host port) ∙ (unfold new_node in refl)

    go :
        (a b c : Bool)
        → same host [] ≡ b
        → is_zero port ≡ c
        → (if a || b || c then none else some whole) ≡ some n
        → IsSound typ n
    go true b c e z k = cc
    go false true c e z k = cc
    go false false true e z k = cc
    go false false false e z k = subst (IsSound typ) (node_of k) (record {
      mirrors =
          apply_calls-Mirrors calls (new_node typ name host port)
            (new_node-Mirrors typ name host port);
      has_type = ap (λ t. t.0) kept;
      has_server = ap (λ t. same t.1 []) kept ∙ e;
      has_port = ap (λ t. is_zero t.2) kept ∙ z;
    })
      where
        node_of : some whole ≡ some n → whole ≡ n
        node_of q = cc
