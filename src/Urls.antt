-- ===== src/Urls.antt =====
-- What the program reads of a URL that `url.Parse` has parsed. The parser itself is an argument
-- wherever it is called.
use subconverter_ng.Common.{Option, none, some, List, [], ◌∷◌, Text, lookup}

pub record Url : Type 0 where
  pub scheme : Text
  -- The user name, and the password if there is one.
  pub user : Option (Text × Option Text)
  -- The host with its port, and what `Hostname` and `Port` make of it.
  pub host : Text
  pub hostname : Text
  pub port : Text
  pub path : Text
  -- The values of `Query`, each key's in their order.
  pub query : List (Text × List Text)
  pub fragment : Text

-- `Values.Get` and `Header.Get`: the first value of a key, or the empty text.
unfoldable pub first_value : List (Text × List Text) → Text → Text
first_value q key = elim (lookup key q) [ none ↦ [] | some [] ↦ [] | some (v ∷ vs) ↦ v ]
