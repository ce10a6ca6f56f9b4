-- ===== src/Cache.antt =====
-- internal/fetch/cache.go: the in-memory TTL cache of successful responses, keyed by URL.
--
-- Instants and the TTL are nanoseconds. The entries stand in the order in which a `range` over the
-- map visits them; nothing is assumed of that order. The mutex makes each call one step. A call of
-- `set` that makes room reads the clock twice, so it takes two instants.
pub mod Sweeps
mod Room
pub mod Capacity
pub mod Reads
use subconverter_ng.Common.{
  ℕ, zero, suc, ◌+◌, Bool, true, false, ◌||◌, Option, none, some, List, [], ◌∷◌, Text, same, ltb,
  leb, ◌==◌, if◌then◌else◌, lookup, insert, delete, length, ℤ, pos, negsuc,
}

abbrev pub default_max_entries : ℕ
default_max_entries = 1000

abbrev pub default_cache_ttl : ℕ
default_cache_ttl = 300000000000

-- `http.Header`.
abbrev pub Header : Type 0
Header = List (Text × List Text)

pub record Entry : Type 0 where
  pub body : Text
  pub header : Header
  pub expires : ℕ

pub record Cache : Type 0 where
  pub ttl : ℕ
  pub max_entries : ℤ
  pub entries : List (Text × Entry)

-- `ttl <= 0` is taken as the default.
unfoldable pub new_cache : ℤ → Cache
new_cache (pos zero) = record {
  ttl = default_cache_ttl;
  max_entries = pos default_max_entries;
  entries = [];
}
new_cache (pos (suc n)) = record {
  ttl = suc n;
  max_entries = pos default_max_entries;
  entries = [];
}
new_cache (negsuc n) = record {
  ttl = default_cache_ttl;
  max_entries = pos default_max_entries;
  entries = [];
}

unfoldable pub get : ℕ → Text → Cache → Cache × Option (Text × Header)
get now url c = elim (lookup url c.entries) [
  | none ↦ (c, none)
  | some e ↦
      if leb e.expires now
      then (record c { entries = delete url c.entries }, none)
      else (c, some (e.body, e.header))
]

-- `maxCap`: a capacity that is not positive is taken as the default.
unfoldable pub max_cap : ℤ → ℕ
max_cap (pos zero) = default_max_entries
max_cap (pos (suc n)) = suc n
max_cap (negsuc n) = default_max_entries

-- The variables of the loop that makes room; the empty key stands for no victim.
pub record Sweep : Type 0 where
  pub entries : List (Text × Entry)
  pub victim_key : Text
  pub victim_expires : ℕ
  pub purged : ℕ

-- One round of the loop.
unfoldable pub sweep_step : ℕ → Text → Entry → Sweep → Sweep
sweep_step now k e s =
    if leb e.expires now
    then record s { entries = delete k s.entries; purged = s.purged + 1 }
    else if same s.victim_key [] || ltb e.expires s.victim_expires
    then record s { victim_key = k; victim_expires = e.expires }
    else s

unfoldable pub sweep : ℕ → List (Text × Entry) → Sweep → Sweep
sweep now [] s = s
sweep now ((k, e) ∷ m) s = sweep now m (sweep_step now k e s)

-- The entries after room was made: without the expired ones, or without the victim.
unfoldable pub make_room : ℕ → List (Text × Entry) → List (Text × Entry)
make_room now m =
    let s = sweep now m (record { entries = m; victim_key = []; victim_expires = 0; purged = 0 }) in
    if s.purged == 0
    then (if same s.victim_key [] then s.entries else delete s.victim_key s.entries)
    else s.entries

unfoldable pub set : ℕ → ℕ → Text → Text → Header → Cache → Cache
set now stored url body header c =
    let e : Entry = record { body = body; header = header; expires = stored + c.ttl } in
    elim (lookup url c.entries) [
      | some _ ↦ record c { entries = insert url e c.entries }
      | none ↦ record c {
        entries = insert url e (
            if leb (max_cap c.max_entries) (length c.entries)
            then make_room now c.entries
            else c.entries);
      }
    ]

unfoldable pub flush : Cache → Cache
flush c = record c { entries = [] }

unfoldable pub len : Cache → ℕ
len c = length c.entries
