-- ===== src/Tests/Stores.antt =====
-- Runs of the rate limiter and of the cache.
use subconverter_ng.Common.{
  Bool, Option, zero, suc, ℕ, List, ◌+◌, ◌-◌, ◌*◌, ◌≤◌, ◌<◌, ◌≡◌, ◌≢◌, refl, ◌⊎◌, true, false, none,
  some, [], ◌∷◌, Text, codes, same, leb, if◌then◌else◌, lookup, keys, has, insert, delete, pos,
  arith,
}
use subconverter_ng.Cache.Capacity.{set-IsValid, new_cache-IsValid}
use subconverter_ng.Cache.Sweeps.{Each}
use subconverter_ng.Cache.Reads.{get-set, lookup-set_ne}
use subconverter_ng.Cache.Capacity
use subconverter_ng.Cache.{Cache, max_cap, make_room, sweep, sweep_step, Entry, get, set}
use subconverter_ng.Fetch.Calls.{Explains, fetch_direct-Explains}
use subconverter_ng.Fetch.Again.{get_with_meta_again}
use subconverter_ng.Fetch.{
  Response, Outcome, fetched, fetch_direct, get_with_meta, do_from, finish, is_cloudflare_challenge,
  has_marker,
}
use subconverter_ng.Strings.{contains}
use subconverter_ng.RateLimit.Evict.{allow-evict_stale_idle}
use subconverter_ng.RateLimit.Valid.{IsValid, new_limiter-IsValid}
use subconverter_ng.RateLimit.Window.{Event, request, evict, served, served-window}
use subconverter_ng.RateLimit.{Limiter, token, minute, new_limiter, evict_stale, allow}

abbrev alice : Text
alice = codes "alice"

-- Sixty requests a minute, in bursts of two.
abbrev limiter : Limiter
limiter = new_limiter (pos 60) (pos 2)

abbrev second : ℕ
second = 1000000000

abbrev events : List Event
events =
    request 0 alice
    ∷ request 1 alice
    ∷ request 2 (codes "bob")
    ∷ request 3 alice
    ∷ evict second
    ∷ request (second + 1) alice
    ∷ []

served-events : served alice events limiter ≡ 3
unfolding served allow new_limiter evict_stale lookup same insert
served-events = refl

served-window_example :
    served alice events limiter * token ≤ limiter.burst * token + limiter.refill * (2 * second - 0)
unfolding new_limiter
served-window_example =
    served-window alice 0 (2 * second) events limiter (new_limiter-IsValid (pos 60) (pos 2))
      (
        omega arith,
        (omega arith, (omega arith, (omega arith, (omega arith, (omega arith, omega arith))))),
      )
      (omega arith)

-- No refill, and a burst of two that alice has used up.
abbrev closed : Limiter
closed = record {
  buckets = (alice, record { tokens = 0; last_seen = 1 }) ∷ [];
  refill = 0;
  burst = 2;
  ttl = 10 * minute;
  evict_interval = minute;
  last_evict = none;
}

closed-IsValid : IsValid closed
unfolding keys has
closed-IsValid = record {
  positive = omega arith;
  bounded = (omega arith, tt);
  distinct = (refl, tt);
}

allow-evict_stale_idle_example :
    ((allow (11 * minute) alice closed).1 ≡ false)
    × ((allow (11 * minute) alice (evict_stale (11 * minute) closed)).1 ≡ true)
unfolding lookup same
allow-evict_stale_idle_example =
    allow-evict_stale_idle (11 * minute) alice closed (record { tokens = 0; last_seen = 1 })
      closed-IsValid refl refl (omega arith) (omega arith)

-- A cache of one entry that is full.
abbrev page : Text
page = codes "https://a/page"

abbrev old_page : Text
old_page = codes "https://a/old"

abbrev old_entry : Entry
old_entry = record { body = codes "old"; header = []; expires = 50 }

abbrev full : Cache
full = record { ttl = 100; max_entries = pos 1; entries = (old_page, old_entry) ∷ [] }

full-IsValid : Capacity.IsValid full
unfolding keys has same max_cap
full-IsValid = record { distinct = (refl, tt); no_empty = refl; bounded = omega arith }

set_evicts :
    (set 10 11 page (codes "new") [] full).entries
    ≡ (page, record { body = codes "new"; header = []; expires = 111 }) ∷ []
unfolding set max_cap make_room sweep sweep_step lookup insert delete same
set_evicts = refl

page_named : page ≢ []
page_named e = cc

set-IsValid_example : Capacity.IsValid (set 10 11 page (codes "new") [] full)
set-IsValid_example = set-IsValid 10 11 page (codes "new") [] full full-IsValid page_named

get-set_example :
    (get 60 page (set 10 11 page (codes "new") [] full)).1
    ≡ (if leb (11 + 100) 60 then none else some (codes "new", []))
get-set_example = get-set 10 11 page (codes "new") [] full full-IsValid 60

lookup-set_ne_example :
    (lookup old_page (set 10 11 page (codes "new") [] full).entries ≡ some old_entry)
    ⊎ (50 ≤ 10)
    ⊎ Each (λ f. (10 < f.expires) × (50 ≤ f.expires)) full.entries
unfolding lookup same
lookup-set_ne_example =
    lookup-set_ne 10 11 page (codes "new") [] full full-IsValid old_page old_entry (λ e. cc) refl

-- An origin whose first attempt fails, and whose second is answered.
abbrev origin : Bool → ℕ → Option Response
origin again zero = none
origin again (suc n) = some (record { body = codes "body"; header = []; status = 200 })

fetch_direct-Explains_example :
    Explains origin
      (some true)
      2
      10
      11
      page
      (some full)
      (fetch_direct origin (some true) 2 10 11 page (some full)).cache
      (fetch_direct origin (some true) 2 10 11 page (some full)).result
    × ((fetch_direct origin (some true) 2 10 11 page (some full)).requests ≤ 2 * suc 2)
fetch_direct-Explains_example = fetch_direct-Explains origin (some true) 2 10 11 page (some full)

abbrev later_call : Outcome
later_call =
    get_with_meta origin (some true) 2 10 11 page true 20 21
      (fetch_direct origin (some true) 2 10 11 page (some full)).cache

origin_answers :
    (fetch_direct origin (some true) 2 10 11 page (some full)).result ≡ fetched (codes "body") []
unfolding fetch_direct do_from finish is_cloudflare_challenge has_marker contains
origin_answers = refl

get_with_meta_again_example :
    (later_call.result ≡ fetched (codes "body") []) × (later_call.requests ≡ 0)
get_with_meta_again_example =
    get_with_meta_again origin (some true) 2 10 11 page full (codes "body") [] 20 21 full-IsValid
      (λ e. cc) origin_answers (omega arith)
