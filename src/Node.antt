-- ===== src/Node.antt =====
-- internal/proxy/proxy.go: a parsed node, with its fields promoted beside the Clash mapping.
pub mod Accessors
use subconverter_ng.Common.{
  Bool, false, some, List, [], ◌∷◌, Text, codes, same, lookup, insert, if◌then◌else◌, ℤ, ◌≡◌, refl,
  ◌∙◌, lookup-insert, arith,
}

-- A value of Go's `any`, as the parsers and generators store it.
mutual
  pub data Value : Type 0 where
    null : Value
    str : Text → Value
    num : ℤ → Value
    flag : Bool → Value
    arr : Items → Value
    bag : Fields → Value

  pub data Items : Type 0 where
    nil : Items
    cons : Value → Items → Items

  pub data Fields : Type 0 where
    end : Fields
    field : Text → Value → Fields → Fields

-- `map[string]any`.
abbrev pub Bag : Type 0
Bag = List (Text × Value)

pub record Node : Type 0 where
  pub name : Text
  pub typ : Text
  pub server : Text
  pub port : ℤ
  pub clash : Bag

unfoldable pub new_node : Text → Text → Text → ℤ → Node
new_node typ name server port = record {
  name = name;
  typ = typ;
  server = server;
  port = port;
  clash =
      (codes "name", str name)
      ∷ (codes "type", str typ)
      ∷ (codes "server", str server)
      ∷ (codes "port", num port)
      ∷ [];
}

-- `Rename` keeps the promoted name and the mapping in step.
unfoldable pub rename : Text → Node → Node
rename name n = record n { name = name; clash = insert (codes "name") (str name) n.clash }

unfoldable pub set_raw : Text → Value → Node → Node
set_raw key v n = record n { clash = insert key v n.clash }

-- `Set` skips an empty string and a null.
unfoldable pub set : Text → Value → Node → Node
unfolding set_raw
set key null n = n
set key (str s) n = if same s [] then n else set_raw key (str s) n
set key (num k) n = set_raw key (num k) n
set key (flag b) n = set_raw key (flag b) n
set key (arr xs) n = set_raw key (arr xs) n
set key (bag fs) n = set_raw key (bag fs) n

-- The mapping holds the promoted fields under their keys.
pub record Mirrors (n : Node) : Type 0 where
  pub at_name : lookup (codes "name") n.clash ≡ some (str n.name)
  pub at_type : lookup (codes "type") n.clash ≡ some (str n.typ)
  pub at_server : lookup (codes "server") n.clash ≡ some (str n.server)
  pub at_port : lookup (codes "port") n.clash ≡ some (num n.port)

-- A key that is none of the promoted ones.
abbrev pub IsExtra : Text → Type 0
IsExtra key =
    (same key (codes "name") ≡ false)
    × (same key (codes "type") ≡ false)
    × (same key (codes "server") ≡ false)
    × (same key (codes "port") ≡ false)

pub new_node-Mirrors : (typ name server : Text) (port : ℤ) → Mirrors (new_node typ name server port)
unfolding new_node lookup same
new_node-Mirrors typ name server port = record {
  at_name = refl;
  at_type = refl;
  at_server = refl;
  at_port = refl;
}

pub rename-Mirrors : (name : Text) (n : Node) → Mirrors n → Mirrors (rename name n)
unfolding rename same
rename-Mirrors name n m = record {
  at_name = lookup-insert (codes "name") (codes "name") (str name) n.clash;
  at_type = lookup-insert (codes "name") (codes "type") (str name) n.clash ∙ m.at_type;
  at_server = lookup-insert (codes "name") (codes "server") (str name) n.clash ∙ m.at_server;
  at_port = lookup-insert (codes "name") (codes "port") (str name) n.clash ∙ m.at_port;
}

pub set_raw-Mirrors :
    (key : Text) (v : Value) (n : Node) → IsExtra key → Mirrors n → Mirrors (set_raw key v n)
unfolding set_raw
set_raw-Mirrors key v n x m = record {
  at_name = ground (arith, lookup-insert key (codes "name") v n.clash, m.at_name);
  at_type = ground (arith, lookup-insert key (codes "type") v n.clash, m.at_type);
  at_server = ground (arith, lookup-insert key (codes "server") v n.clash, m.at_server);
  at_port = ground (arith, lookup-insert key (codes "port") v n.clash, m.at_port);
}

-- Setting a protocol's own key keeps the node and its mapping in step, whatever the value.
pub set-Mirrors :
    (key : Text) (v : Value) (n : Node) → IsExtra key → Mirrors n → Mirrors (set key v n)
unfolding set
set-Mirrors key null n x m = m
set-Mirrors key (str []) n x m = unfold same in m
set-Mirrors key (str (c ∷ s)) n x m = unfold same in set_raw-Mirrors key (str (c ∷ s)) n x m
set-Mirrors key (num k) n x m = set_raw-Mirrors key (num k) n x m
set-Mirrors key (flag b) n x m = set_raw-Mirrors key (flag b) n x m
set-Mirrors key (arr xs) n x m = set_raw-Mirrors key (arr xs) n x m
set-Mirrors key (bag fs) n x m = set_raw-Mirrors key (bag fs) n x m
