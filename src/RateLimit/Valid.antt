-- ===== src/RateLimit/Valid.antt =====
-- The limiter's invariant: no bucket holds more than the burst, and each client has one bucket.
use subconverter_ng.Common.{
  ℕ, zero, suc, ◌-◌, ◌*◌, ◌≤◌, ◌≡◌, inl, inr, Bool, true, none, some, List, [], ◌∷◌, Text, leb,
  lookup, insert, keys, keep_if, ℤ, pos, negsuc, Distinct, insert-Distinct, keep_if-Distinct, arith,
  Option-cases, Bool-cases,
}
use subconverter_ng.RateLimit.{
  Bucket, Limiter, token, new_limiter, evict_stale, lazy_evict, refilled, spend, allow,
}

-- No bucket of the map holds more than `most`.
abbrev pub Bounded : ℕ → List (Text × Bucket) → Type 0
Bounded most [] = Unit
Bounded most ((k, b) ∷ m) = (b.tokens ≤ most) × Bounded most m

pub record IsValid (l : Limiter) : Type 0 where
  pub positive : 1 ≤ l.burst
  pub bounded : Bounded (l.burst * token) l.buckets
  pub distinct : Distinct (keys l.buckets)

Bounded-insert :
    (most : ℕ) (k : Text) (b : Bucket) (m : List (Text × Bucket))
    → b.tokens ≤ most
    → Bounded most m
    → Bounded most (insert k b m)
unfolding insert
Bounded-insert most k b [] h d = (h, tt)
Bounded-insert most k b ((i, w) ∷ m) h d = ground (arith, Bounded-insert most k b m)

Bounded-keep_if :
    (most : ℕ) (p : Text × Bucket → Bool) (m : List (Text × Bucket))
    → Bounded most m
    → Bounded most (keep_if p m)
Bounded-keep_if most p [] d = tt
Bounded-keep_if most p ((i, w) ∷ m) d = ground (arith, Bounded-keep_if most p m)

pub Bounded-lookup :
    (most : ℕ) (k : Text) (b : Bucket) (m : List (Text × Bucket))
    → Bounded most m
    → lookup k m ≡ some b
    → b.tokens ≤ most
unfolding lookup
Bounded-lookup most k b [] d h = ground arith
Bounded-lookup most k b ((i, w) ∷ m) d h = ground (arith, Bounded-lookup most k b m)

-- A new limiter is valid, whatever rate and burst it is given.
pub new_limiter-IsValid : (rate burst : ℤ) → IsValid (new_limiter rate burst)
unfolding new_limiter keys
new_limiter-IsValid rate (pos zero) = record { positive = omega arith; bounded = tt; distinct = tt }
new_limiter-IsValid rate (pos (suc n)) = record {
  positive = omega arith;
  bounded = tt;
  distinct = tt;
}
new_limiter-IsValid rate (negsuc n) = record { positive = omega arith; bounded = tt; distinct = tt }

pub evict_stale-IsValid : (now : ℕ) {l : Limiter} → IsValid l → IsValid (evict_stale now l)
unfolding evict_stale
evict_stale-IsValid now {l} v = record {
  positive = v.positive;
  bounded = Bounded-keep_if (l.burst * token) _ l.buckets v.bounded;
  distinct = keep_if-Distinct _ l.buckets v.distinct;
}

lazy_evict-IsValid : (now : ℕ) {l : Limiter} → IsValid l → IsValid (lazy_evict now l)
unfolding lazy_evict
lazy_evict-IsValid now {l} v =
    let w = record l { last_evict = some now } in
    let vw : IsValid w = record {
      positive = v.positive;
      bounded = v.bounded;
      distinct = v.distinct;
    } in
    elim (Option-cases l.last_evict) [
      | inl e ↦ rw (e, lazy_evict) vw
      | inr (last, e) ↦ elim (Bool-cases (leb l.evict_interval (now - last))) [
        | inl due ↦ rw (e, lazy_evict, due) (evict_stale-IsValid now vw)
        | inr early ↦ rw (e, lazy_evict, early) v
      ]
    ]

spend-le : (b : Bucket) → (spend b).0.tokens ≤ b.tokens
unfolding spend
spend-le b = ground arith

pub refilled-le :
    (now : ℕ) (l : Limiter) (b : Bucket)
    → b.tokens ≤ l.burst * token
    → (refilled now l b).tokens ≤ l.burst * token
unfolding refilled
refilled-le now l b h = ground arith

insert-IsValid :
    (k : Text) (b : Bucket) {l : Limiter}
    → b.tokens ≤ l.burst * token
    → IsValid l
    → IsValid (record l { buckets = insert k b l.buckets })
insert-IsValid k b {l} h v = record {
  positive = v.positive;
  bounded = Bounded-insert (l.burst * token) k b l.buckets h v.bounded;
  distinct = insert-Distinct k b l.buckets v.distinct;
}

-- The two branches of `Allow`, as equations.
pub allow_new :
    (now : ℕ) (key : Text) (l : Limiter)
    → lookup key l.buckets ≡ none
    → allow now key l ≡ (
      lazy_evict now (record l {
        buckets = insert key (record { tokens = (l.burst - 1) * token; last_seen = now }) l.buckets;
      }),
      true,
    )
unfolding allow
allow_new now key l e = rw (e, allow)

pub allow_old :
    (now : ℕ) (key : Text) (l : Limiter) (b : Bucket)
    → lookup key l.buckets ≡ some b
    → allow now key l ≡ (
      record l { buckets = insert key (spend (refilled now l b)).0 l.buckets },
      (spend (refilled now l b)).1,
    )
unfolding allow
allow_old now key l b e = rw (e, allow)

-- Every request keeps the invariant of a valid limiter, with its refill and with the eviction that it may set off.
pub allow-IsValid : (now : ℕ) (key : Text) {l : Limiter} → IsValid l → IsValid (allow now key l).0
allow-IsValid now key {l} v = elim (Option-cases (lookup key l.buckets)) [
  | inl e ↦
      rw (allow_new now key l e)
        (lazy_evict-IsValid now (insert-IsValid key _ (omega (arith, v.positive)) v))
  | inr (b, e) ↦ rw (allow_old now key l b e) (
      insert-IsValid key _
        (omega (
          arith,
          spend-le (refilled now l b),
          refilled-le now l b (Bounded-lookup _ key b l.buckets v.bounded e),
        ))
        v)
]
