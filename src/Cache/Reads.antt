-- ===== src/Cache/Reads.antt =====
-- What can be read from the cache after a call.
use subconverter_ng.Cache.Capacity.{IsValid, stored_entry, set_old, set_new, set_full, full-Room}
use subconverter_ng.Cache.Room.{lookup-make_room}
use subconverter_ng.Cache.Sweeps.{Each}
use subconverter_ng.Cache.{Entry, Cache, Header, max_cap, get, set, flush, len}
use subconverter_ng.Common.{
  ℕ, ◌+◌, ◌≤◌, ◌<◌, ◌≡◌, ◌≢◌, refl, ◌∙◌, ◌⊎◌, inl, inr, false, none, some, Text, same, same_self,
  same_iff, ltb, leb, if◌then◌else◌, lookup, length, arith, Option-cases, Bool-cases, lookup-insert,
  lookup-delete_self,
}

-- Under every URL, `get` answers by the entry that the map holds, and by that alone.
pub get-lookup :
    (now : ℕ) (url : Text) (c : Cache)
    → (get now url c).1 ≡ elim (lookup url c.entries) [
      | none ↦ none
      | some e ↦ if leb e.expires now then none else some (e.body, e.header)
    ]
unfolding get
get-lookup now url c = elim (Option-cases (lookup url c.entries)) [
  | inl z ↦ rw (z, get)
  | inr (e, z) ↦ elim (Bool-cases (leb e.expires now)) [
    | inl old ↦ rw (z, get, old)
    | inr new ↦ rw (z, get, new)
  ]
]

module _ (now stored : ℕ) (url body : Text) (header : Header) (c : Cache) (v : IsValid c) where
  -- `set` stores its entry, in each of its branches, over a map that holds no new entry.
  lookup-set_self :
      lookup url (set now stored url body header c).entries
      ≡ some (stored_entry now stored url body header c v)
  lookup-set_self = elim (Option-cases (lookup url c.entries)) [
    | inr (e, z) ↦
        rw (set_old now stored url body header c v e z)
          (lookup-insert url url _ c.entries ∙ rw (same_self url))
    | inl z ↦ elim (Bool-cases (ltb (length c.entries) (max_cap c.max_entries))) [
      | inl room ↦
          rw (set_new now stored url body header c v z (ground arith))
            (lookup-insert url url _ c.entries ∙ rw (same_self url))
      | inr full ↦
          rw (set_full now stored url body header c v z (ground arith))
            (lookup-insert url url _ _ ∙ rw (same_self url))
    ]
  ]

  -- In a valid cache, a read after a `set` gives the body and headers that were stored until the
  -- TTL has passed, and nothing from then on, whatever the cache had to give up for them.
  pub get-set :
      (later : ℕ)
      → (get later url (set now stored url body header c)).1
        ≡ (if leb (stored + c.ttl) later then none else some (body, header))
  get-set later = get-lookup later url (set now stored url body header c) ∙ rw lookup-set_self

  -- A `set` on a valid cache keeps the entry of every other URL, unless that entry had expired, or
  -- nothing in the cache had expired and no entry of it expires earlier.
  pub lookup-set_ne :
      (j : Text) (e : Entry)
      → url ≢ j
      → lookup j c.entries ≡ some e
      → (lookup j (set now stored url body header c).entries ≡ some e)
        ⊎ (e.expires ≤ now)
        ⊎ Each (λ f. (now < f.expires) × (e.expires ≤ f.expires)) c.entries
  lookup-set_ne j e ne found = elim (Option-cases (lookup url c.entries)) [
    | inr (w, z) ↦ inl (
        rw (set_old now stored url body header c v w z)
          (lookup-insert url j _ c.entries ∙ rw (other, found)))
    | inl z ↦ elim (Bool-cases (ltb (length c.entries) (max_cap c.max_entries))) [
      | inl room ↦ inl (
          rw (set_new now stored url body header c v z (ground arith))
            (lookup-insert url j _ c.entries ∙ rw (other, found)))
      | inr full ↦
          let le : max_cap c.max_entries ≤ length c.entries = ground arith in
          rw (set_full now stored url body header c v z le) (
            rw (lookup-insert url j _ _, other)
              (lookup-make_room now j e c.entries v.distinct
                (full-Room now stored url body header c v le) found))
    ]
  ]
    where
      other : same url j ≡ false
      other = ground (arith, same_iff url j)

-- After a flush nothing can be read, and the cache counts no entry.
pub get-flush :
    (now : ℕ) (url : Text) (c : Cache) → ((get now url (flush c)).1 ≡ none) × (len (flush c) ≡ 0)
unfolding get flush len lookup
get-flush now url c = (refl, refl)

-- A read of a URL in a valid cache removes its entry if that has expired, and else keeps it.
pub lookup-get :
    (now : ℕ) (url : Text) (c : Cache)
    → IsValid c
    → lookup url (get now url c).0.entries ≡ elim (lookup url c.entries) [
      | none ↦ none
      | some e ↦ if leb e.expires now then none else some e
    ]
lookup-get now url c v = elim (Option-cases (lookup url c.entries)) [
  | inl z ↦ unfold get in rw (z, get, z)
  | inr (e, z) ↦ elim (Bool-cases (leb e.expires now)) [
    | inl old ↦ unfold get in rw (z, get, old) (lookup-delete_self url c.entries v.distinct)
    | inr new ↦ unfold get in rw (z, get, new) z
  ]
]
