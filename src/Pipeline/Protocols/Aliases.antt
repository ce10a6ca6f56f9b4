-- ===== src/Pipeline/Protocols/Aliases.antt =====
-- An alias in a list of protocols stands for its protocol, and excludes it under every alias.
use subconverter_ng.Common.{
  ◌≡◌, ◌≢◌, refl, sym, ◌∙◌, Bool, true, ◌&&◌, not, some, List, [], ◌∷◌, Text, same, same_iff, has,
  has-append, lookup, arith, Bool-cases, inl, inr,
}
use subconverter_ng.Pipeline.Protocols.Laws.{stripped, parse_protocols-excludes}
use subconverter_ng.Pipeline.Protocols.{
  protocol_aliases, canonical_protocol, is_separator, tokens, parse_protocols, is_excluded,
}
use subconverter_ng.Strings.{
  trim_space, trim_set, to_lower, lower_char, is_space, replace_char, fields_func,
}

-- A row of the table: the alias has no upper case, no space, brackets or quotes around it, and stands
-- for its protocol.
unfoldable is_plain : Text × Text → Bool
unfolding trim_set
is_plain (alias, protocol) =
    same (to_lower (trim_space alias)) alias
    && same (stripped alias) alias
    && same (canonical_protocol alias) protocol
    && not (same alias [])
    && not (same protocol [])

unfoldable all_plain : List (Text × Text) → Bool
all_plain [] = true
all_plain (row ∷ rows) = is_plain row && all_plain rows

aliases_plain : all_plain protocol_aliases ≡ true
unfolding all_plain is_plain trim_set trim_space to_lower lower_char is_space canonical_protocol
    replace_char lookup same
aliases_plain = refl

lookup-plain :
    (k v : Text) (rows : List (Text × Text))
    → all_plain rows ≡ true
    → lookup k rows ≡ some v
    → is_plain (k, v) ≡ true
unfolding all_plain lookup
lookup-plain k v [] h e = cc
lookup-plain k v ((j, w) ∷ rows) h e = elim (Bool-cases (same j k)) [
  | inl t ↦
      let key = (same_iff j k).0 t in
      let value : w ≡ v = held (rw (t, lookup) at e) in rw (← key, ← value) (ground arith)
  | inr f ↦ lookup-plain k v rows (ground arith) (rw (f, lookup) at e)
]
  where
    held : some w ≡ some v → w ≡ v
    held p = cc

-- What an alias of the table is.
record IsAlias (alias protocol : Text) : Type 0 where
  lowered : to_lower (trim_space alias) ≡ alias
  bare : stripped alias ≡ alias
  canonical : canonical_protocol alias ≡ protocol
  named : alias ≢ []
  known : protocol ≢ []

lookup-IsAlias :
    (alias protocol : Text) → lookup alias protocol_aliases ≡ some protocol → IsAlias alias protocol
unfolding is_plain
lookup-IsAlias alias protocol h =
    let p = lookup-plain alias protocol protocol_aliases aliases_plain h in
    record {
      lowered = (same_iff (to_lower (trim_space alias)) alias).0 (ground arith);
      bare = (same_iff (stripped alias) alias).0 (ground arith);
      canonical = (same_iff (canonical_protocol alias) protocol).0 (ground arith);
      named = ground (arith, same_iff alias []);
      known = ground (arith, same_iff protocol []);
    }

-- The tokens of an entry are tokens of the list.
pub tokens-has :
    (raw : List Text) (entry t : Text)
    → has raw entry ≡ true
    → has (fields_func is_separator entry) t ≡ true
    → has (tokens raw) t ≡ true
unfolding tokens has
tokens-has [] entry t h k = h
tokens-has (r ∷ raw) entry t h k = elim (Bool-cases (same r entry)) [
  | inl e ↦
      has-append (fields_func is_separator r) (tokens raw) t ∙ rw ((same_iff r entry).0 e, k) refl
  | inr n ↦
      has-append (fields_func is_separator r) (tokens raw) t
      ∙ ground (arith, tokens-has raw entry t (ground arith) k)
]

pub parse_protocols-excludes_alias :
    (raw : List Text) (alias typ protocol : Text)
    → has (tokens raw) alias ≡ true
    → lookup alias protocol_aliases ≡ some protocol
    → lookup typ protocol_aliases ≡ some protocol
    → is_excluded (parse_protocols raw) typ ≡ true
parse_protocols-excludes_alias raw alias typ protocol h a t =
    let x = lookup-IsAlias alias protocol a in
    let y = lookup-IsAlias typ protocol t in
    parse_protocols-excludes raw alias typ h (λ e. x.named (sym x.bare ∙ e))
      (λ e. x.known (sym (of_stripped x) ∙ e)) (rw y.lowered (y.canonical ∙ sym (of_stripped x)))
  where
    of_stripped : IsAlias alias protocol → canonical_protocol (stripped alias) ≡ protocol
    of_stripped x = rw x.bare x.canonical
