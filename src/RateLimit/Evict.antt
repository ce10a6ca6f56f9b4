-- ===== src/RateLimit/Evict.antt =====
-- What an eviction does to a client that has spent its tokens.
use subconverter_ng.Common.{
  ℕ, ◌-◌, ◌<◌, ◌≡◌, true, false, none, some, Text, lookup, lookup-keep_if, arith,
}
use subconverter_ng.RateLimit.{
  Bucket, Limiter, token, is_fresh, evict_stale, refilled, spend, allow,
}
use subconverter_ng.RateLimit.Valid.{IsValid, allow_old, allow_new}

-- A bucket that was idle for longer than the TTL is gone after an eviction.
pub lookup-evict_stale_idle :
    (now : ℕ) (k : Text) (l : Limiter) (b : Bucket)
    → IsValid l
    → lookup k l.buckets ≡ some b
    → l.ttl < now - b.last_seen
    → lookup k (evict_stale now l).buckets ≡ none
unfolding evict_stale
lookup-evict_stale_idle now k l b v e h =
    rw (lookup-keep_if (is_fresh l.ttl now) k l.buckets v.distinct, e) (ground arith)

spend-exhausted :
    (now : ℕ) (l : Limiter) (b : Bucket)
    → l.refill ≡ 0
    → b.tokens < token
    → (spend (refilled now l b)).1 ≡ false
unfolding spend refilled
spend-exhausted now l b r h = rw r (ground arith)

-- A valid limiter with no refill turns away a client whose bucket has less than one token and has
-- been idle for longer than the TTL, and lets it through if the eviction comes first.
pub allow-evict_stale_idle :
    (now : ℕ) (k : Text) (l : Limiter) (b : Bucket)
    → IsValid l
    → lookup k l.buckets ≡ some b
    → l.refill ≡ 0
    → b.tokens < token
    → l.ttl < now - b.last_seen
    → ((allow now k l).1 ≡ false) × ((allow now k (evict_stale now l)).1 ≡ true)
allow-evict_stale_idle now k l b v e r short h = (
  rw (allow_old now k l b e) (spend-exhausted now l b r short),
  rw (allow_new now k (evict_stale now l) (lookup-evict_stale_idle now k l b v e h)),
)
