-- ===== src/Cache/Room.antt =====
-- How `set` makes room in a full cache: by the expired entries, or by one victim.
use subconverter_ng.Common.{
  ℕ, ◌+◌, ◌≤◌, ◌<◌, ◌≡◌, ◌≢◌, refl, sym, subst, ◌∙◌, ◌⊎◌, inl, inr, true, false, none, some, List,
  [], ◌∷◌, Text, same, same_self, same_iff, leb, ◌==◌, lookup, delete, keys, has, length, Distinct,
  Within-self, arith, Bool-cases, delete-Distinct, length-delete, has-keys-delete, lookup-has,
  has-lookup, lookup-delete_ne,
}
use mathlib.Core.Bool.{false≢true}
use subconverter_ng.Cache.Sweeps.{
  Sound, Found, Chosen, Each, Sub-self, sweep-size, sweep-one_each, sweep-Found, sweep-no_empty,
  sweep-keeps, sweep-none,
}
use subconverter_ng.Cache.{Entry, Sweep, sweep, make_room}

abbrev pub begin : List (Text × Entry) → Sweep
begin m = record { entries = m; victim_key = []; victim_expires = 0; purged = 0 }

begin-Sound : (m : List (Text × Entry)) → Distinct (keys m) → Sound m (begin m)
begin-Sound m d = record { apart = d; inside = Within-self (keys m); one_each = d }

-- The two ways in which a full cache makes room.
pub data RoomMade (now : ℕ) (m : List (Text × Entry)) : Type 0 where
  purges :
      (make_room now m ≡ (sweep now m (begin m)).entries)
      → length (make_room now m) < length m
      → RoomMade now m
  evicts :
      (k : Text) (e : Entry)
      → lookup k m ≡ some e
      → make_room now m ≡ delete k m
      → Each (λ f. (now < f.expires) × (e.expires ≤ f.expires)) m
      → RoomMade now m

Each-pair :
    (P Q : Entry → Type 0) (m : List (Text × Entry)) → Each P m → Each Q m → Each (λ e. P e × Q e) m
Each-pair P Q [] p q = tt
Each-pair P Q ((k, e) ∷ m) p q = ((p.0, q.0), Each-pair P Q m p.1 q.1)

make_room_purged :
    (now : ℕ) (m : List (Text × Entry))
    → ((sweep now m (begin m)).purged == 0) ≡ false
    → make_room now m ≡ (sweep now m (begin m)).entries
unfolding make_room
make_room_purged now m old = rw old

make_room_evicted :
    (now : ℕ) (m : List (Text × Entry))
    → ((sweep now m (begin m)).purged == 0) ≡ true
    → same (sweep now m (begin m)).victim_key [] ≡ false
    → make_room now m ≡ delete (sweep now m (begin m)).victim_key (sweep now m (begin m)).entries
unfolding make_room
make_room_evicted now m none_old v = rw (none_old, v)

pub make_room-RoomMade :
    (now : ℕ) (m : List (Text × Entry))
    → Distinct (keys m)
    → has (keys m) [] ≡ false
    → m ≢ []
    → RoomMade now m
make_room-RoomMade now m d n ne = elim (Bool-cases ((sweep now m (begin m)).purged == 0)) [
  | inl none_old ↦
      let found =
        sweep-Found now m m (begin m) (ground arith) n (Sub-self m d) refl (inl (same_self [])) in
      evict none_old found found.chosen
  | inr old ↦
      purges (make_room_purged now m old) (
        rw (make_room_purged now m old)
          (smaller old (sweep-size now m (begin m) (begin-Sound m d))))
]
  where
    smaller :
        ((sweep now m (begin m)).purged == 0) ≡ false
        → length (sweep now m (begin m)).entries + (sweep now m (begin m)).purged ≡ length m + 0
        → length (sweep now m (begin m)).entries < length m
    smaller old size = ground arith

    evict :
        ((sweep now m (begin m)).purged == 0) ≡ true
        → Found now m m (sweep now m (begin m))
        → Chosen m (sweep now m (begin m))
        → RoomMade now m
    evict none_old found (inl none_chosen) =
        absurd (false≢true (sym (found.some_victim ne) ∙ none_chosen))
    evict none_old found (inr (e, at_key, at_instant)) =
        evicts (sweep now m (begin m)).victim_key e at_key
          (make_room_evicted now m none_old (found.some_victim ne) ∙ rw found.unchanged)
          (rw at_instant (Each-pair _ _ m found.live found.earliest))

pub make_room-length :
    (now : ℕ) (m : List (Text × Entry)) → RoomMade now m → length (make_room now m) < length m
make_room-length now m (purges e le) = le
make_room-length now m (evicts k e found is every) =
    rw is (omega (arith, length-delete k e m found))

pub make_room-Distinct :
    (now : ℕ) (m : List (Text × Entry))
    → Distinct (keys m)
    → RoomMade now m
    → Distinct (keys (make_room now m))
make_room-Distinct now m d (purges is le) = rw is (sweep-one_each now m (begin m) (begin-Sound m d))
make_room-Distinct now m d (evicts k e found is every) = rw is (delete-Distinct k m d)

pub make_room-no_empty :
    (now : ℕ) (m : List (Text × Entry))
    → has (keys m) [] ≡ false
    → RoomMade now m
    → has (keys (make_room now m)) [] ≡ false
make_room-no_empty now m n (purges is le) = rw is (sweep-no_empty now m (begin m) n)
make_room-no_empty now m n (evicts k e found is every) = rw is (has-keys-delete k [] m n)

pub lookup-make_room-none :
    (now : ℕ) (url : Text) (m : List (Text × Entry))
    → Distinct (keys m)
    → RoomMade now m
    → lookup url m ≡ none
    → lookup url (make_room now m) ≡ none
lookup-make_room-none now url m d (purges is le) z = rw is (sweep-none now url m (begin m) z)
lookup-make_room-none now url m d (evicts k e found is every) z =
    rw is (lookup-has url (delete k m) (has-keys-delete k url m (has-lookup url m z)))

-- Making room loses a live entry only if no entry was expired and none expires before it.
pub lookup-make_room :
    (now : ℕ) (j : Text) (e : Entry) (m : List (Text × Entry))
    → Distinct (keys m)
    → RoomMade now m
    → lookup j m ≡ some e
    → (lookup j (make_room now m) ≡ some e)
      ⊎ (e.expires ≤ now)
      ⊎ Each (λ f. (now < f.expires) × (e.expires ≤ f.expires)) m
lookup-make_room now j e m d (purges is le) found = elim (Bool-cases (leb e.expires now)) [
  | inl old ↦ inr (inl (ground arith))
  | inr live ↦
      inl (rw is (sweep-keeps now j e m m (begin m) (ground arith) (Sub-self m d) found found))
]
lookup-make_room now j e m d (evicts k w at_k is every) found = elim (Bool-cases (same k j)) [
  | inl t ↦
      let one : w ≡ e = cc ((same_iff k j).0 t) in
      inr (inr (subst (λ x. Each (λ f. (now < f.expires) × (x.expires ≤ f.expires)) m) one every))
  | inr n ↦ inl (rw is (lookup-delete_ne k j m n ∙ found))
]
