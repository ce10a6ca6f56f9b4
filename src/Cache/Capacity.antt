-- ===== src/Cache/Capacity.antt =====
-- The cache never outgrows its capacity.
use subconverter_ng.Common.{
  ℕ, zero, suc, ◌+◌, ◌≤◌, ◌<◌, ◌≡◌, ◌≢◌, refl, ap, inl, inr, false, none, some, List, [], Text,
  same, same_iff, ltb, leb, lookup, insert, delete, keys, has, length, ℤ, pos, negsuc, Distinct,
  arith, Option-cases, Bool-cases, insert-Distinct, delete-Distinct, length-insert_new,
  length-insert_old, length-delete-le, has-keys-insert, has-keys-delete,
}
use subconverter_ng.Cache.Room.{
  RoomMade, make_room-RoomMade, make_room-length, make_room-Distinct, make_room-no_empty,
  lookup-make_room-none,
}
use subconverter_ng.Cache.{Entry, Cache, Header, max_cap, new_cache, get, make_room, set, flush}

-- Each URL has one entry, none is empty, and there are no more entries than the capacity.
pub record IsValid (c : Cache) : Type 0 where
  pub distinct : Distinct (keys c.entries)
  pub no_empty : has (keys c.entries) [] ≡ false
  pub bounded : length c.entries ≤ max_cap c.max_entries

max_cap-pos : (cap : ℤ) → 0 < max_cap cap
unfolding max_cap
max_cap-pos (pos zero) = omega arith
max_cap-pos (pos (suc n)) = omega arith
max_cap-pos (negsuc n) = omega arith

module _ (now stored : ℕ) (url body : Text) (header : Header) (c : Cache) (v : IsValid c) where
  -- The entry that a call of `set` stores.
  abbrev pub stored_entry : Entry
  stored_entry = record { body = body; header = header; expires = stored + c.ttl }

  pub set_old :
      (e : Entry)
      → lookup url c.entries ≡ some e
      → set now stored url body header c ≡ record c { entries = insert url stored_entry c.entries }
  unfolding set
  set_old e z = rw (z, set)

  pub set_new :
      lookup url c.entries ≡ none
      → length c.entries < max_cap c.max_entries
      → set now stored url body header c ≡ record c { entries = insert url stored_entry c.entries }
  unfolding set
  set_new z h = rw (z, set) (ground arith)

  pub set_full :
      lookup url c.entries ≡ none
      → max_cap c.max_entries ≤ length c.entries
      → set now stored url body header c
        ≡ record c { entries = insert url stored_entry (make_room now c.entries) }
  unfolding set
  set_full z h = rw (z, set) (ground arith)

  pub full-Room : max_cap c.max_entries ≤ length c.entries → RoomMade now c.entries
  full-Room h =
      make_room-RoomMade now c.entries v.distinct v.no_empty
        (λ e. absurd (omega (arith, ap (length {A = Text × Entry}) e, max_cap-pos c.max_entries)))

insert-IsValid_new :
    (url : Text) (e : Entry) (m : List (Text × Entry)) (c : Cache)
    → same url [] ≡ false
    → lookup url m ≡ none
    → Distinct (keys m)
    → has (keys m) [] ≡ false
    → length m < max_cap c.max_entries
    → IsValid (record c { entries = insert url e m })
insert-IsValid_new url e m c u z d n h = record {
  distinct = insert-Distinct url e m d;
  no_empty = rw (has-keys-insert url [] e m, u) n;
  bounded = omega (arith, length-insert_new url e m z);
}

-- `set` keeps a valid cache valid for every URL but the empty one: the number of entries never passes
-- the capacity, also when the cache is full and nothing in it has expired.
pub set-IsValid :
    (now stored : ℕ) (url body : Text) (header : Header) (c : Cache)
    → IsValid c
    → url ≢ []
    → IsValid (set now stored url body header c)
set-IsValid now stored url body header c v u = elim (Option-cases (lookup url c.entries)) [
  | inr (e, z) ↦ rw (set_old now stored url body header c v e z) (record {
    distinct = insert-Distinct url _ c.entries v.distinct;
    no_empty = rw (has-keys-insert url [] new c.entries, named) v.no_empty;
    bounded = omega (arith, length-insert_old url new e c.entries z, v.bounded);
  })
  | inl z ↦ elim (Bool-cases (ltb (length c.entries) (max_cap c.max_entries))) [
    | inl room ↦
        rw (set_new now stored url body header c v z (ground arith))
          (insert-IsValid_new url _ c.entries c named z v.distinct v.no_empty (ground arith))
    | inr full ↦
        let le : max_cap c.max_entries ≤ length c.entries = ground arith in
        let r = full-Room now stored url body header c v le in
        rw (set_full now stored url body header c v z le) (
          insert-IsValid_new url _ _ c named
            (lookup-make_room-none now url c.entries v.distinct r z)
            (make_room-Distinct now c.entries v.distinct r)
            (make_room-no_empty now c.entries v.no_empty r)
            (omega (arith, make_room-length now c.entries r, v.bounded)))
  ]
]
  where
    new : Entry
    new = stored_entry now stored url body header c v

    named : same url [] ≡ false
    named = ground (arith, same_iff url [])

delete-IsValid :
    (url : Text) (c : Cache) → IsValid c → IsValid (record c { entries = delete url c.entries })
delete-IsValid url c v = record {
  distinct = delete-Distinct url c.entries v.distinct;
  no_empty = has-keys-delete url [] c.entries v.no_empty;
  bounded = omega (arith, length-delete-le url c.entries, v.bounded);
}

pub get-IsValid : (now : ℕ) (url : Text) (c : Cache) → IsValid c → IsValid (get now url c).0
get-IsValid now url c v = elim (Option-cases (lookup url c.entries)) [
  | inl z ↦ unfold get in rw (z, get) v
  | inr (e, z) ↦ elim (Bool-cases (leb e.expires now)) [
    | inl old ↦ unfold get in rw (z, get, old) (delete-IsValid url c v)
    | inr new ↦ unfold get in rw (z, get, new) v
  ]
]

-- A new cache and a flushed one hold nothing, and are valid.
pub new_cache-IsValid : (ttl : ℤ) → IsValid (new_cache ttl)
unfolding new_cache keys has max_cap
new_cache-IsValid (pos zero) = record { distinct = tt; no_empty = refl; bounded = omega arith }
new_cache-IsValid (pos (suc n)) = record { distinct = tt; no_empty = refl; bounded = omega arith }
new_cache-IsValid (negsuc n) = record { distinct = tt; no_empty = refl; bounded = omega arith }

pub flush-IsValid : (c : Cache) → IsValid (flush c)
unfolding flush keys has
flush-IsValid c = record { distinct = tt; no_empty = refl; bounded = omega arith }
