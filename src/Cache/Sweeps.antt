-- ===== src/Cache/Sweeps.antt =====
-- The loop of `set` that makes room: what one sweep over the map deletes, and the victim it picks.
use subconverter_ng.Common.{
  ℕ, ◌+◌, ◌≤◌, ◌<◌, ◌≡◌, ◌≢◌, refl, sym, ap, subst, ◌∙◌, ◌⊎◌, inl, inr, true, false, ◌||◌, none,
  some, List, [], ◌∷◌, Text, same, same_self, same_iff, ltb, leb, lookup, delete, keys, has, length,
  Distinct, Within, arith, Option-cases, Bool-cases, delete-Distinct, length-delete,
  has-keys-delete, lookup-has, has-lookup, lookup-delete_ne,
}
use subconverter_ng.Cache.{Entry, Sweep, sweep_step, sweep}

-- A sweep over the rest of the map, which is still in the map.
pub record Sound (m : List (Text × Entry)) (s : Sweep) : Type 0 where
  pub apart : Distinct (keys m)
  pub inside : Within (keys m) (keys s.entries)
  pub one_each : Distinct (keys s.entries)

has-keys-delete_ne :
    (k j : Text) (m : List (Text × Entry))
    → same k j ≡ false
    → has (keys m) j ≡ true
    → has (keys (delete k m)) j ≡ true
unfolding delete keys has
has-keys-delete_ne k j [] n h = h
has-keys-delete_ne k j ((i, w) ∷ m) n h =
    ground (arith, same_iff k j, same_iff i k, same_iff i j, has-keys-delete_ne k j m)

Within-delete :
    (k : Text) (xs : List Text) (m : List (Text × Entry))
    → has xs k ≡ false
    → Within xs (keys m)
    → Within xs (keys (delete k m))
unfolding has
Within-delete k [] m h w = tt
Within-delete k (x ∷ xs) m h w =
    ground (arith, same_iff x k, same_iff k x, has-keys-delete_ne k x m, Within-delete k xs m)

pub lookup-some :
    (k : Text) (m : List (Text × Entry))
    → has (keys m) k ≡ true
    → (e : Entry) × (lookup k m ≡ some e)
lookup-some k m h = elim (Option-cases (lookup k m)) [
  | inl z ↦ absurd (ground (arith, has-lookup k m z))
  | inr r ↦ r
]

pub sweep_step-Sound :
    (now : ℕ) (k : Text) (e : Entry) (m : List (Text × Entry)) (s : Sweep)
    → Sound ((k, e) ∷ m) s
    → Sound m (sweep_step now k e s)
unfolding sweep_step keys
sweep_step-Sound now k e m s h =
    ground
      (arith, h.apart, h.inside, Within-delete k (keys m) s.entries, delete-Distinct k s.entries)

-- Each round deletes an entry exactly when it counts one.
sweep_step-size :
    (now : ℕ) (k : Text) (e : Entry) (m : List (Text × Entry)) (s : Sweep)
    → Sound ((k, e) ∷ m) s
    → length (sweep_step now k e s).entries + (sweep_step now k e s).purged
      ≡ length s.entries + s.purged
unfolding sweep_step keys
sweep_step-size now k e m s h =
    let (v, found) = lookup-some k s.entries h.inside.0 in
    ground (arith, length-delete k v s.entries found)

pub sweep-size :
    (now : ℕ) (m : List (Text × Entry)) (s : Sweep)
    → Sound m s
    → length (sweep now m s).entries + (sweep now m s).purged ≡ length s.entries + s.purged
unfolding sweep
sweep-size now [] s h = refl
sweep-size now ((k, e) ∷ m) s h = omega (
  arith,
  sweep_step-size now k e m s h,
  sweep-size now m (sweep_step now k e s) (sweep_step-Sound now k e m s h),
)

pub sweep-one_each :
    (now : ℕ) (m : List (Text × Entry)) (s : Sweep)
    → Sound m s
    → Distinct (keys (sweep now m s).entries)
unfolding sweep
sweep-one_each now [] s h = h.one_each
sweep-one_each now ((k, e) ∷ m) s h =
    sweep-one_each now m (sweep_step now k e s) (sweep_step-Sound now k e m s h)

sweep_step-purged-le :
    (now : ℕ) (k : Text) (e : Entry) (s : Sweep) → s.purged ≤ (sweep_step now k e s).purged
unfolding sweep_step
sweep_step-purged-le now k e s = ground arith

pub sweep-purged-le :
    (now : ℕ) (m : List (Text × Entry)) (s : Sweep) → s.purged ≤ (sweep now m s).purged
unfolding sweep
sweep-purged-le now [] s = omega arith
sweep-purged-le now ((k, e) ∷ m) s =
    omega (arith, sweep_step-purged-le now k e s, sweep-purged-le now m (sweep_step now k e s))

-- A round that purges nothing looks at a live entry, and leaves the map alone.
module _ (now : ℕ) (k : Text) (e : Entry) (s : Sweep)
    (idle : (sweep_step now k e s).purged ≡ s.purged) where
  idle-live : (now < e.expires) × ((sweep_step now k e s).entries ≡ s.entries)
  unfolding sweep_step
  idle-live = ground arith

  -- The victim afterwards expires no later than this entry, and no later than the one before.
  idle-victim :
      same k [] ≡ false
      → (same (sweep_step now k e s).victim_key [] ≡ false)
        × ((sweep_step now k e s).victim_expires ≤ e.expires)
        × (same s.victim_key [] ≡ false → (sweep_step now k e s).victim_expires ≤ s.victim_expires)
        × (((sweep_step now k e s).victim_key ≡ k)
              × ((sweep_step now k e s).victim_expires ≡ e.expires)
            ⊎ ((sweep_step now k e s).victim_key ≡ s.victim_key)
              × ((sweep_step now k e s).victim_expires ≡ s.victim_expires))
  unfolding sweep_step
  idle-victim h =
      (ground arith, ground arith, λ t. ground arith, pick (Bool-cases (leb e.expires now)))
    where
      pick :
          (leb e.expires now ≡ true) ⊎ (leb e.expires now ≡ false)
          → ((sweep_step now k e s).victim_key ≡ k)
              × ((sweep_step now k e s).victim_expires ≡ e.expires)
            ⊎ ((sweep_step now k e s).victim_key ≡ s.victim_key)
              × ((sweep_step now k e s).victim_expires ≡ s.victim_expires)
      pick (inl t) = absurd (ground arith)
      pick (inr f) = elim (Bool-cases (same s.victim_key [] || ltb e.expires s.victim_expires)) [
        | inl a ↦ inl (ground arith, ground arith)
        | inr b ↦ inr (ground arith, ground arith)
      ]

-- The entry that a sweep has chosen: none yet, or one of the map with its instant.
abbrev pub Chosen : List (Text × Entry) → Sweep → Type 0
Chosen all s =
    (same s.victim_key [] ≡ true)
    ⊎ ((e : Entry) × (lookup s.victim_key all ≡ some e) × (e.expires ≡ s.victim_expires))

-- Every entry of the map passes.
abbrev pub Each : (Entry → Type 0) → List (Text × Entry) → Type 0
Each P [] = Unit
Each P ((k, e) ∷ m) = P e × Each P m

-- Every entry of the rest is what the map has under its key.
abbrev pub Sub : List (Text × Entry) → List (Text × Entry) → Type 0
Sub [] all = Unit
Sub ((k, e) ∷ m) all = (lookup k all ≡ some e) × Sub m all

pub Each-lookup :
    (P : Entry → Type 0) (k : Text) (m : List (Text × Entry)) {e : Entry}
    → Each P m
    → lookup k m ≡ some e
    → P e
unfolding lookup
Each-lookup P k [] h q = absurd (ground arith)
Each-lookup P k ((i, w) ∷ m) {e} h q = elim (Bool-cases (same i k)) [
  | inl t ↦ let found : w ≡ e = ground arith in subst P found h.0
  | inr f ↦ Each-lookup P k m h.1 (ground arith)
]

Sub-cons :
    (k : Text) (e : Entry) (m all : List (Text × Entry))
    → has (keys m) k ≡ false
    → Sub m all
    → Sub m ((k, e) ∷ all)
unfolding lookup has keys
Sub-cons k e [] all h s = tt
Sub-cons k e ((j, w) ∷ m) all h s = ground (arith, same_iff k j, same_iff j k, Sub-cons k e m all)

pub Sub-self : (m : List (Text × Entry)) → Distinct (keys m) → Sub m m
Sub-self [] d = tt
Sub-self ((k, e) ∷ m) d =
    (found, Sub-cons k e m m (unfold keys in d.0) (Sub-self m (unfold keys in d.1)))
  where
    found : lookup k ((k, e) ∷ m) ≡ some e
    found = unfold lookup in rw (same_self k)

-- What a sweep that purges nothing has found of the entries that it went through.
pub record Found (now : ℕ) (all m : List (Text × Entry)) (s : Sweep) : Type 0 where
  pub unchanged : s.entries ≡ all
  pub live : Each (λ e. now < e.expires) m
  pub earliest : Each (λ e. s.victim_expires ≤ e.expires) m
  pub chosen : Chosen all s
  pub some_victim : (m ≢ []) → same s.victim_key [] ≡ false

-- The victim's instant only falls once there is a victim.
sweep-victim_expires :
    (now : ℕ) (m : List (Text × Entry)) (s : Sweep)
    → (sweep now m s).purged ≡ s.purged
    → has (keys m) [] ≡ false
    → same s.victim_key [] ≡ false
    → ((sweep now m s).victim_expires ≤ s.victim_expires)
      × (same (sweep now m s).victim_key [] ≡ false)
unfolding sweep keys has
sweep-victim_expires now [] s p n v = ground arith
sweep-victim_expires now ((k, e) ∷ m) s p n v =
    let idle : (sweep_step now k e s).purged ≡ s.purged =
      omega (arith, sweep_step-purged-le now k e s, sweep-purged-le now m (sweep_step now k e s)) in
    let step = idle-victim now k e s idle (ground arith) in
    let le = step.2 v in
    let rest =
      sweep-victim_expires now m (sweep_step now k e s) (p ∙ sym idle) (ground arith) step.0 in
    (omega arith, rest.1)

pub sweep-Found :
    (now : ℕ) (all m : List (Text × Entry)) (s : Sweep)
    → (sweep now m s).purged ≡ s.purged
    → has (keys m) [] ≡ false
    → Sub m all
    → s.entries ≡ all
    → Chosen all s
    → Found now all m (sweep now m s)
unfolding sweep keys has
sweep-Found now all [] s p n sub same_map c = record {
  unchanged = same_map;
  live = tt;
  earliest = tt;
  chosen = c;
  some_victim = λ ne. absurd (ne refl);
}
sweep-Found now all ((k, e) ∷ m) s p n sub same_map c =
    let s' = sweep_step now k e s in
    let idle : s'.purged ≡ s.purged =
      omega (arith, sweep_step-purged-le now k e s, sweep-purged-le now m s') in
    let live = idle-live now k e s idle in
    let step = idle-victim now k e s idle (ground arith) in
    let p' : (sweep now m s').purged ≡ s'.purged = p ∙ sym idle in
    let n' : has (keys m) [] ≡ false = ground arith in
    let last = sweep-victim_expires now m s' p' n' step.0 in
    let c' : Chosen all s' = pick step.3 c in
    let rest = sweep-Found now all m s' p' n' sub.1 (live.1 ∙ same_map) c' in
    record {
      unchanged = rest.unchanged;
      live = (live.0, rest.live);
      earliest = (omega arith, rest.earliest);
      chosen = rest.chosen;
      some_victim = λ ne. last.1;
    }
  where
    pick :
        ((sweep_step now k e s).victim_key ≡ k)
            × ((sweep_step now k e s).victim_expires ≡ e.expires)
          ⊎ ((sweep_step now k e s).victim_key ≡ s.victim_key)
            × ((sweep_step now k e s).victim_expires ≡ s.victim_expires)
        → Chosen all s
        → Chosen all (sweep_step now k e s)
    pick (inl (a, b)) c = inr (e, rw a sub.0, sym b)
    pick (inr (a, b)) (inl z) = inl (rw a z)
    pick (inr (a, b)) (inr (f, x, y)) = inr (f, rw a x, rw b y)

pub sweep-no_empty :
    (now : ℕ) (m : List (Text × Entry)) (s : Sweep)
    → has (keys s.entries) [] ≡ false
    → has (keys (sweep now m s).entries) [] ≡ false
unfolding sweep
sweep-no_empty now [] s h = h
sweep-no_empty now ((k, e) ∷ m) s h =
    sweep-no_empty now m (sweep_step now k e s) (unfold sweep_step in step)
  where
    step : has (keys (sweep_step now k e s).entries) [] ≡ false
    step = unfold sweep_step in ground (arith, has-keys-delete k [] s.entries h)

sweep_step-keeps :
    (now : ℕ) (j : Text) (e : Entry) (k : Text) (w : Entry) (s : Sweep) (all : List (Text × Entry))
    → now < e.expires
    → lookup k all ≡ some w
    → lookup j all ≡ some e
    → lookup j s.entries ≡ some e
    → lookup j (sweep_step now k w s).entries ≡ some e
unfolding sweep_step
sweep_step-keeps now j e k w s all live a b f = elim (Bool-cases (leb w.expires now)) [
  | inl old ↦ elim (Bool-cases (same k j)) [
    | inl t ↦
        let one : w ≡ e = cc ((same_iff k j).0 t) in
        absurd (ground (arith, ap (λ (x : Entry). x.expires) one))
    | inr n ↦ ground (arith, lookup-delete_ne k j s.entries n)
  ]
  | inr new ↦ ground arith
]

-- A live entry outlives every sweep.
pub sweep-keeps :
    (now : ℕ) (j : Text) (e : Entry) (m all : List (Text × Entry)) (s : Sweep)
    → now < e.expires
    → Sub m all
    → lookup j all ≡ some e
    → lookup j s.entries ≡ some e
    → lookup j (sweep now m s).entries ≡ some e
unfolding sweep
sweep-keeps now j e [] all s live sub a f = f
sweep-keeps now j e ((k, w) ∷ m) all s live sub a f =
    sweep-keeps now j e m all (sweep_step now k w s) live sub.1 a
      (sweep_step-keeps now j e k w s all live sub.0 a f)

-- A sweep adds nothing.
pub sweep-none :
    (now : ℕ) (url : Text) (m : List (Text × Entry)) (s : Sweep)
    → lookup url s.entries ≡ none
    → lookup url (sweep now m s).entries ≡ none
unfolding sweep
sweep-none now url [] s h = h
sweep-none now url ((k, e) ∷ m) s h =
    sweep-none now url m (sweep_step now k e s) (unfold sweep_step in step)
  where
    gone : lookup url (delete k s.entries) ≡ none
    gone =
        lookup-has url (delete k s.entries)
          (has-keys-delete k url s.entries (has-lookup url s.entries h))

    step : lookup url (sweep_step now k e s).entries ≡ none
    step = unfold sweep_step in ground (arith, gone)
