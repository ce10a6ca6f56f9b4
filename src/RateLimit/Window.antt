-- ===== src/RateLimit/Window.antt =====
-- What a client gets in a window of time: runs of `Allow` and `EvictStale`, in any interleaving of
-- the clients.
use native.Mathlib.Nat.{zero-add}
use subconverter_ng.Common.{
  ℕ, ◌+◌, ◌-◌, ◌*◌, ◌≤◌, ◌≡◌, refl, ◌⊎◌, inl, inr, Bool, false, Option, none, some, List, [], ◌∷◌,
  Text, same, same_self, same_iff, leb, if◌then◌else◌, lookup, keys, lookup-insert, lookup-keep_if,
  Distinct, insert-Distinct, arith, Option-cases, Bool-cases, ◌&&◌, ap, sym, subst,
}
use subconverter_ng.RateLimit.{
  Bucket, Limiter, token, is_fresh, evict_stale, lazy_evict, refilled, spend, allow,
}
use subconverter_ng.RateLimit.Valid.{
  IsValid, Bounded-lookup, allow-IsValid, allow_new, allow_old, evict_stale-IsValid, refilled-le,
}

-- One call of the limiter, at an instant.
pub data Event : Type 0 where
  request : ℕ → Text → Event
  evict : ℕ → Event

abbrev pub instant : Event → ℕ
instant (request now key) = now
instant (evict now) = now

-- The state after a call.
abbrev pub after : Event → Limiter → Limiter
after (request now key) l = (allow now key l).0
after (evict now) l = evict_stale now l

-- Whether the call is a request of the client, and it was let through.
abbrev pub serves : Text → Event → Limiter → Bool
serves k (request now key) l = same key k && (allow now key l).1
serves k (evict now) l = false

-- How many requests of the client are let through in a run.
unfoldable pub served : Text → List Event → Limiter → ℕ
served k [] l = 0
served k (e ∷ es) l = (if serves k e l then 1 else 0) + served k es (after e l)

-- The calls stand in the order of time, from `start` to `end`.
abbrev pub InWindow : ℕ → ℕ → List Event → Type 0
InWindow start end [] = start ≤ end
InWindow start end (e ∷ es) = (start ≤ instant e) × InWindow (instant e) end es

InWindow-le : (start end : ℕ) (es : List Event) → InWindow start end es → start ≤ end
InWindow-le start end [] w = w
InWindow-le start end (e ∷ es) w = omega (arith, InWindow-le (instant e) end es w.1)

-- What the client has had, `n` requests after the window opened at `start`, at a burst `most` and
-- a rate `r`: nothing, or the bucket was touched in the window and holds the rest.
data Spent (start most r : ℕ) (n now : ℕ) (o : Option Bucket) : Type 0 where
  fresh : n ≡ 0 → Spent start most r n now o
  used :
      (b : Bucket)
      → o ≡ some b
      → start ≤ b.last_seen
      → b.last_seen ≤ now
      → n * token + b.tokens ≤ most + r * (b.last_seen - start)
      → Spent start most r n now o

refill_split : (r a b c : ℕ) → a ≤ b → b ≤ c → r * (c - a) ≡ r * (b - a) + (c - b) * r
refill_split r a b c h k = grind arith

refilled-gain :
    (now : ℕ) (l : Limiter) (b : Bucket)
    → (refilled now l b).tokens ≤ b.tokens + (now - b.last_seen) * l.refill
unfolding refilled
refilled-gain now l b = ground arith

-- The settings of a limiter never change.
abbrev SameSettings : Limiter → Limiter → Type 0
SameSettings l m = (m.burst ≡ l.burst) × (m.refill ≡ l.refill) × (m.ttl ≡ l.ttl)

lazy_evict-SameSettings : (now : ℕ) (l : Limiter) → SameSettings l (lazy_evict now l)
unfolding lazy_evict
lazy_evict-SameSettings now l = ground arith

allow-SameSettings : (now : ℕ) (key : Text) (l : Limiter) → SameSettings l (allow now key l).0
allow-SameSettings now key l = elim (Option-cases (lookup key l.buckets)) [
  | inl e ↦ rw (allow_new now key l e) (lazy_evict-SameSettings now _)
  | inr (b, e) ↦ rw (allow_old now key l b e) (refl, refl, refl)
]

evict_stale-SameSettings : (now : ℕ) (l : Limiter) → SameSettings l (evict_stale now l)
unfolding evict_stale
evict_stale-SameSettings now l = (refl, refl, refl)

-- A bucket that was touched within the TTL outlives an eviction.
lookup-evict_stale_fresh :
    (now : ℕ) (k : Text) (l : Limiter) (b : Bucket)
    → Distinct (keys l.buckets)
    → lookup k l.buckets ≡ some b
    → now - b.last_seen ≤ l.ttl
    → lookup k (evict_stale now l).buckets ≡ some b
unfolding evict_stale
lookup-evict_stale_fresh now k l b d e h =
    rw (lookup-keep_if (is_fresh l.ttl now) k l.buckets d, e) (ground arith)

lookup-lazy_evict_fresh :
    (now : ℕ) (k : Text) (l : Limiter) (b : Bucket)
    → Distinct (keys l.buckets)
    → lookup k l.buckets ≡ some b
    → now - b.last_seen ≤ l.ttl
    → lookup k (lazy_evict now l).buckets ≡ some b
lookup-lazy_evict_fresh now k l b d e h = elim (Option-cases l.last_evict) [
  | inl z ↦ unfold lazy_evict in rw (z, lazy_evict) e
  | inr (last, z) ↦ elim (Bool-cases (leb l.evict_interval (now - last))) [
    | inl due ↦
        unfold lazy_evict in
        rw (z, lazy_evict, due)
          (lookup-evict_stale_fresh now k (record l { last_evict = some now }) b d e h)
    | inr early ↦ unfold lazy_evict in rw (z, lazy_evict, early) e
  ]
]

-- A request of another client leaves a bucket in use alone.
lookup-allow_other :
    (now : ℕ) (key k : Text) (l : Limiter) (b : Bucket)
    → IsValid l
    → same key k ≡ false
    → lookup k l.buckets ≡ some b
    → now - b.last_seen ≤ l.ttl
    → lookup k (allow now key l).0.buckets ≡ some b
lookup-allow_other now key k l b v ne e h = elim (Option-cases (lookup key l.buckets)) [
  | inl z ↦ rw (allow_new now key l z) (
      lookup-lazy_evict_fresh now k _ b (insert-Distinct key _ l.buckets v.distinct)
        (rw (lookup-insert key k _ l.buckets, ne) e) h)
  | inr (c, z) ↦ rw (allow_old now key l c z) (rw (lookup-insert key k _ l.buckets, ne) e)
]

-- One call spends at most what is left, in a window that is no longer than the TTL.
spend-gain : (b : Bucket) → (if (spend b).1 then 1 else 0) * token + (spend b).0.tokens ≤ b.tokens
unfolding spend
spend-gain b = ground arith

module _ (start most r n prev : ℕ) where
  abbrev Holds : Bucket → Type 0
  Holds b =
      (start ≤ b.last_seen)
      × (b.last_seen ≤ prev)
      × (n * token + b.tokens ≤ most + r * (b.last_seen - start))

module _ (k : Text) (start : ℕ) (n prev now : ℕ) (l : Limiter) (v : IsValid l) (order : prev ≤ now)
    (opened : start ≤ now) (short : now - start ≤ l.ttl)
    (s : Spent start (l.burst * token) l.refill n prev (lookup k l.buckets)) where
  -- A request of another client, or an eviction.
  Spent-keep :
      (m : Limiter)
      → ((b : Bucket)
          → lookup k l.buckets ≡ some b
          → now - b.last_seen ≤ l.ttl
          → lookup k m.buckets ≡ some b)
      → Spent start (l.burst * token) l.refill n now (lookup k m.buckets)
  Spent-keep m keep = go s
    where
      go :
          Spent start (l.burst * token) l.refill n prev (lookup k l.buckets)
          → Spent start (l.burst * token) l.refill n now (lookup k m.buckets)
      go (fresh z) = fresh z
      go (used b e lo hi h) = used b (keep b e (omega arith)) lo (omega arith) h

-- A request of a client that has a bucket.
Spent-spend :
    (start n prev now : ℕ) (l : Limiter) (b c : Bucket)
    → prev ≤ now
    → c ≡ b
    → Holds start (l.burst * token) l.refill n prev c
    → (if (spend (refilled now l b)).1 then 1 else 0) * token
        + (n * token + (spend (refilled now l b)).0.tokens)
      ≤ l.burst * token + l.refill * (now - start)
Spent-spend start n prev now l b c order e h =
    let hb : Holds start (l.burst * token) l.refill n prev b =
      subst (Holds start (l.burst * token) l.refill n prev) e h in
    omega (
      arith,
      spend-gain (refilled now l b),
      refilled-gain now l b,
      refill_split l.refill start b.last_seen now hb.0 (omega arith),
    )

spent-last_seen :
    (now : ℕ) (l : Limiter) (b : Bucket) → (spend (refilled now l b)).0.last_seen ≡ now
unfolding spend refilled
spent-last_seen now l b = ground arith

abbrev count : Bool → ℕ
count b = if b then 1 else 0

-- A request of the client itself: what it gets comes off what is left.
Spent-allow :
    (k : Text) (start n prev now : ℕ) (l : Limiter)
    → IsValid l
    → prev ≤ now
    → start ≤ now
    → Spent start (l.burst * token) l.refill n prev (lookup k l.buckets)
    → Spent start
        (l.burst * token)
        l.refill
        (count (allow now k l).1 + n)
        now
        (lookup k (allow now k l).0.buckets)
Spent-allow k start n prev now l v order opened s = go (Option-cases (lookup k l.buckets)) s
  where
    go :
        (lookup k l.buckets ≡ none) ⊎ ((b : Bucket) × (lookup k l.buckets ≡ some b))
        → Spent start (l.burst * token) l.refill n prev (lookup k l.buckets)
        → Spent start
            (l.burst * token)
            l.refill
            (count (allow now k l).1 + n)
            now
            (lookup k (allow now k l).0.buckets)
    go (inl z) (used b e lo hi h) = absurd (ground arith)
    go (inl z) (fresh none_yet) = rw (allow_new now k l z) (
        used (record { tokens = (l.burst - 1) * token; last_seen = now })
          (lookup-lazy_evict_fresh now k _ _ (insert-Distinct k _ l.buckets v.distinct)
            (rw (lookup-insert k k _ l.buckets, same_self k)) (omega arith))
          opened (omega arith) (omega (arith, v.positive)))
    go (inr (b, z)) (fresh none_yet) = rw (allow_old now k l b z) (
        used (spend (refilled now l b)).0 (rw (lookup-insert k k _ l.buckets, same_self k))
          (rw (spent-last_seen now l b) opened) (rw (spent-last_seen now l b) (omega arith))
          (omega (
            arith,
            spend-gain (refilled now l b),
            refilled-le now l b (Bounded-lookup _ k b l.buckets v.bounded z),
          )))
    go (inr (b, z)) (used c e lo hi h) =
        let b' = (spend (refilled now l b)).0 in
        let n' = count (spend (refilled now l b)).1 + n in
        rw (allow_old now k l b z) (
          used b' (rw (lookup-insert k k _ l.buckets, same_self k))
            (rw (spent-last_seen now l b) opened) (rw (spent-last_seen now l b) (omega arith))
            (subst (λ t. n' * token + b'.tokens ≤ l.burst * token + l.refill * (t - start))
              (sym (spent-last_seen now l b))
              (omega (arith, Spent-spend start n prev now l b c order (cc) (lo, hi, h)))))

-- One call of any kind.
Spent-after :
    (k : Text) (start n prev : ℕ) (e : Event) (l : Limiter)
    → IsValid l
    → prev ≤ instant e
    → start ≤ instant e
    → instant e - start ≤ l.ttl
    → Spent start (l.burst * token) l.refill n prev (lookup k l.buckets)
    → Spent start
        (l.burst * token)
        l.refill
        (count (serves k e l) + n)
        (instant e)
        (lookup k (after e l).buckets)
Spent-after k start n prev (evict now) l v order opened short s = rw zero-add (
    Spent-keep k start n prev now l v order opened short s (evict_stale now l)
      (λ b e h. lookup-evict_stale_fresh now k l b v.distinct e h))
Spent-after k start n prev (request now key) l v order opened short s =
    elim (Bool-cases (same key k)) [
      | inl mine ↦
          rw (mine, (same_iff key k).0 mine) (Spent-allow k start n prev now l v order opened s)
      | inr other ↦
          rw (other, zero-add)
            (Spent-keep k start n prev now l v order opened short s (allow now key l).0
              (λ b e h. lookup-allow_other now key k l b v other e h))
    ]

after-IsValid : (e : Event) {l : Limiter} → IsValid l → IsValid (after e l)
after-IsValid (request now key) v = allow-IsValid now key v
after-IsValid (evict now) v = evict_stale-IsValid now v

after-SameSettings : (e : Event) (l : Limiter) → SameSettings l (after e l)
after-SameSettings (request now key) l = allow-SameSettings now key l
after-SameSettings (evict now) l = evict_stale-SameSettings now l

Spent-bound :
    (start most r n now end : ℕ) {o : Option Bucket}
    → now ≤ end
    → Spent start most r n now o
    → n * token ≤ most + r * (end - start)
Spent-bound start most r n now end h (fresh z) = omega (arith, ap (λ (t : ℕ). t * token) z)
Spent-bound start most r n now end h (used b e lo hi k) =
    omega (arith, refill_split r start b.last_seen end lo (omega arith))

served-le :
    (k : Text) (start end n prev : ℕ) (es : List Event) (l : Limiter)
    → IsValid l
    → start ≤ prev
    → InWindow prev end es
    → end - start ≤ l.ttl
    → Spent start (l.burst * token) l.refill n prev (lookup k l.buckets)
    → (n + served k es l) * token ≤ l.burst * token + l.refill * (end - start)
unfolding served
served-le k start end n prev [] l v opened w short s =
    omega (arith, Spent-bound start _ l.refill n prev end w s)
served-le k start end n prev (e ∷ es) l v opened w short s =
    let st = after-SameSettings e l in
    let last = InWindow-le (instant e) end es w.1 in
    let step = Spent-after k start n prev e l v w.0 (omega arith) (omega arith) s in
    omega (
      arith,
      (rw (st.0, st.1) at
          (served-le k start end (count (serves k e l) + n) (instant e) es (after e l)
            (after-IsValid e v) (omega arith) w.1 (rw st.2 (omega arith)) (rw (st.0, st.1) step))),
    )

-- The rate limit: in a window of time no longer than the TTL of a bucket, whatever the other
-- clients do and whatever evictions fall into it, a client gets at most the burst and what the
-- rate refills in the window: one request for each whole token.
pub served-window :
    (k : Text) (start end : ℕ) (es : List Event) (l : Limiter)
    → IsValid l
    → InWindow start end es
    → end - start ≤ l.ttl
    → served k es l * token ≤ l.burst * token + l.refill * (end - start)
served-window k start end es l v w short =
    omega (arith, served-le k start end 0 start es l v (omega arith) w short (fresh refl))
