-- ===== src/RateLimit.antt =====
-- internal/ratelimit/ratelimit.go: the per-client token-bucket limiter.
--
-- Instants are nanoseconds on one clock; the zero instant of `lastEvict` is `none`. The source's
-- `float64` tokens are exact here: one token is `token` units, so that a rate of r per minute
-- refills r units in each nanosecond. A difference of instants that is negative in the source
-- stops at 0, and every test on one (`> 0`, `>= interval`, `> ttl`) answers the same on both.
-- The mutex makes each call one step.
pub mod Valid
pub mod Window
pub mod Evict
use subconverter_ng.Common.{
  ℕ, zero, suc, ◌+◌, ◌-◌, ◌*◌, Bool, true, false, not, Option, none, some, List, [], ◌∷◌, Text, ltb,
  leb, if◌then◌else◌, lookup, insert, keep_if, ℤ, pos, negsuc,
}

abbrev pub token : ℕ
token = 60000000000

abbrev pub minute : ℕ
minute = 60000000000

pub record Bucket : Type 0 where
  pub tokens : ℕ
  pub last_seen : ℕ

pub record Limiter : Type 0 where
  pub buckets : List (Text × Bucket)
  pub refill : ℕ
  pub burst : ℕ
  pub ttl : ℕ
  pub evict_interval : ℕ
  pub last_evict : Option ℕ

-- `burst <= 0` is taken as 1.
unfoldable pub burst_of : ℤ → ℕ
burst_of (pos zero) = 1
burst_of (pos (suc n)) = suc n
burst_of (negsuc n) = 1

-- `ratePerMin <= 0` is taken as no refill.
unfoldable pub refill_of : ℤ → ℕ
refill_of (pos n) = n
refill_of (negsuc n) = 0

unfoldable pub new_limiter : ℤ → ℤ → Limiter
unfolding burst_of refill_of
new_limiter rate_per_min burst = record {
  buckets = [];
  refill = refill_of rate_per_min;
  burst = burst_of burst;
  ttl = 10 * minute;
  evict_interval = minute;
  last_evict = none;
}

-- The test by which a bucket stays: it has been idle for no longer than the TTL.
abbrev pub is_fresh : ℕ → ℕ → Text × Bucket → Bool
is_fresh ttl now e = not (ltb ttl (now - e.1.last_seen))

unfoldable pub evict_stale : ℕ → Limiter → Limiter
evict_stale now l = record l { buckets = keep_if (is_fresh l.ttl now) l.buckets }

-- The eviction that a new key may set off, at most once in each interval.
unfoldable pub lazy_evict : ℕ → Limiter → Limiter
unfolding evict_stale
lazy_evict now l = elim l.last_evict [
  | none ↦ record l { last_evict = some now }
  | some last ↦
      if leb l.evict_interval (now - last)
      then evict_stale now (record l { last_evict = some now })
      else l
]

-- The bucket after the refill for the time since it was last touched.
unfoldable pub refilled : ℕ → Limiter → Bucket → Bucket
refilled now l b =
    let elapsed = now - b.last_seen in
    let tokens = b.tokens + elapsed * l.refill in
    record {
      tokens =
          if ltb 0 elapsed
          then if ltb (l.burst * token) tokens then l.burst * token else tokens
          else b.tokens;
      last_seen = now;
    }

-- Spends one token if there is one.
unfoldable pub spend : Bucket → Bucket × Bool
spend b = if leb token b.tokens then (record b { tokens = b.tokens - token }, true) else (b, false)

unfoldable pub allow : ℕ → Text → Limiter → Limiter × Bool
unfolding lazy_evict refilled spend
allow now key l = elim (lookup key l.buckets) [
  | none ↦
      let b : Bucket = record { tokens = (l.burst - 1) * token; last_seen = now } in
      (lazy_evict now (record l { buckets = insert key b l.buckets }), true)
  | some b ↦
      let (b', ok) = spend (refilled now l b) in
      (record l { buckets = insert key b' l.buckets }, ok)
]
