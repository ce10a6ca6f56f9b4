-- ===== src/Fetch/Calls.antt =====
-- What a fetch that reaches the network ends with, and how much it asks of it.
use subconverter_ng.Cache.{Cache}
use subconverter_ng.Common.{
  ℕ, if◌then◌else◌, zero, suc, ◌+◌, ◌*◌, ◌≤◌, ◌<◌, ◌≡◌, refl, subst, subst⁻¹, inl, inr, Bool, true,
  false, Option, none, some, Text, ◌==◌, ==_iff, take, arith, Bool-cases, Option-cases,
}
use subconverter_ng.Fetch.{
  Response, Failure, Result, fetched, failed, unreachable, blocked, unsolved,
  max_response_body_size, do_from, maybe_cache, finish, Outcome, failing, replay, solve,
  fetch_direct, is_cloudflare_challenge,
}

-- An answer as `do` reads it.
abbrev pub limited : Response → Response
limited r = record r { body = take max_response_body_size r.body }

do_from_hit :
    (net : ℕ → Option Response) (left attempt : ℕ) (r : Response)
    → net attempt ≡ some r
    → do_from net (suc left) attempt ≡ (some (limited r), 1)
unfolding do_from
do_from_hit net left attempt r e = rw (e, do_from)

do_from_miss :
    (net : ℕ → Option Response) (left attempt : ℕ)
    → net attempt ≡ none
    → do_from net (suc left) attempt
      ≡ ((do_from net left (suc attempt)).0, suc (do_from net left (suc attempt)).1)
unfolding do_from
do_from_miss net left attempt e = rw (e, do_from)

-- The answer is that of one of the attempts.
abbrev Answered : (ℕ → Option Response) → ℕ → Option Response → Type 0
Answered net end none = Unit
Answered net end (some a) =
    (k : ℕ) × (k < end) × (r : Response) × (net k ≡ some r) × (a ≡ limited r)

do_from-Answered :
    (net : ℕ → Option Response) (left attempt : ℕ)
    → Answered net (attempt + left) (do_from net left attempt).0
      × ((do_from net left attempt).1 ≤ left)
unfolding do_from
do_from-Answered net zero attempt = (tt, omega arith)
do_from-Answered net (suc left) attempt = elim (Option-cases (net attempt)) [
  | inr (r, e) ↦
      subst⁻¹ (λ a. Answered net (attempt + suc left) a.0 × (a.1 ≤ suc left))
        (do_from_hit net left attempt r e) ((attempt, omega arith, r, e, refl), omega arith)
  | inl e ↦
      let (a, n) = do_from-Answered net left (suc attempt) in
      subst⁻¹ (λ a. Answered net (attempt + suc left) a.0 × (a.1 ≤ suc left))
        (do_from_miss net left attempt e)
        (widen (do_from net left (suc attempt)).0 a, omega (arith, n))
]
  where
    widen :
        (a : Option Response)
        → Answered net (suc attempt + left) a
        → Answered net (attempt + suc left) a
    widen none h = tt
    widen (some a) (k, l, r, e, s) = (k, omega (arith, l), r, e, s)

-- All the attempts.
all_attempts-Answered :
    (net : ℕ → Option Response) (n : ℕ)
    → Answered net n (do_from net n 0).0 × ((do_from net n 0).1 ≤ n)
all_attempts-Answered net n =
    subst (λ end. Answered net end (do_from net n 0).0 × ((do_from net n 0).1 ≤ n)) plain
      (do_from-Answered net n 0)
  where
    plain : 0 + n ≡ n
    plain = omega arith

module _ (origin : Bool → ℕ → Option Response) (solver : Option Bool) (max_retries : ℕ)
    (now stored : ℕ) (target : Text) where
  -- A success is an answer of the origin with status 200, cut at the size limit, and it is cached;
  -- after a failure the cache is as it was.
  abbrev pub Explains : Option Cache → Option Cache → Result → Type 0
  Explains before after (fetched body header) =
      (b : Bool) × (k : ℕ) × (k ≤ max_retries)
      × (r : Response) × (origin b k ≡ some r)
      × (r.status ≡ 200)
      × (body ≡ take max_response_body_size r.body)
      × (header ≡ r.header)
      × (after ≡ maybe_cache now stored target (limited r) before)
  Explains before after (failed why) = after ≡ before

  finish-Explains :
      (b : Bool) (k : ℕ) (r : Response) (n : ℕ) (cache : Option Cache)
      → k ≤ max_retries
      → origin b k ≡ some r
      → Explains cache
          (finish now stored target (limited r) n cache).cache
          (finish now stored target (limited r) n cache).result
        × ((finish now stored target (limited r) n cache).requests ≡ n)
  unfolding finish
  finish-Explains b k r n cache l e = elim (Bool-cases (r.status == 200)) [
    | inl t ↦ rw t ((b, k, l, r, e, (==_iff r.status 200).0 t, refl, refl, refl), refl)
    | inr f ↦ rw f (refl, refl)
  ]

  -- What a step of the call ends with, given what was asked before it and may be asked in all.
  abbrev IsFine : ℕ → Option Cache → Outcome → Type 0
  IsFine most before o = Explains before o.cache o.result × (o.requests ≤ most)

  replay-IsFine :
      (n : ℕ) (cache : Option Cache)
      → IsFine
          (n + suc max_retries)
          cache
          (replay origin solver max_retries now stored target n cache)
  unfolding replay
  replay-IsFine n cache =
      go (do_from (origin true) (suc max_retries) 0).0 (do_from (origin true) (suc max_retries) 0).1
        (all_attempts-Answered (origin true) (suc max_retries)).0
        (all_attempts-Answered (origin true) (suc max_retries)).1
    where
      go :
          (a : Option Response) (m : ℕ)
          → Answered (origin true) (suc max_retries) a
          → m ≤ suc max_retries
          → IsFine (n + suc max_retries) cache (elim a [
            | none ↦ failing unreachable (n + m) cache
            | some r ↦ finish now stored target r (n + m) cache
          ])
      go none m h l = (refl, omega (arith, l))
      go (some a) m (k, j, r, e, s) l =
          let fine = finish-Explains true k r (n + m) cache (omega (arith, j)) e in
          rw s (fine.0, omega (arith, fine.1, l))

  solve-IsFine :
      (why : Failure) (n : ℕ) (cache : Option Cache)
      → IsFine
          (n + suc max_retries)
          cache
          (solve origin solver max_retries now stored target why n cache)
  unfolding solve
  solve-IsFine why n cache = go solver
    where
      go :
          (s : Option Bool)
          → IsFine (n + suc max_retries) cache (elim s [
            | none ↦ failing why n cache
            | some false ↦ failing unsolved n cache
            | some true ↦ replay origin solver max_retries now stored target n cache
          ])
      go none = (refl, omega arith)
      go (some false) = (refl, omega arith)
      go (some true) = replay-IsFine n cache

  -- A fetch that reaches the network makes at most twice as many requests as there are attempts.
  -- What it succeeds with is an answer of the origin with status 200, cut at the size limit and
  -- offered to the cache; if it fails, the cache is as it was.
  pub fetch_direct-Explains :
      (cache : Option Cache)
      → Explains cache
          (fetch_direct origin solver max_retries now stored target cache).cache
          (fetch_direct origin solver max_retries now stored target cache).result
        × ((fetch_direct origin solver max_retries now stored target cache).requests
            ≤ 2 * suc max_retries)
  unfolding fetch_direct
  fetch_direct-Explains cache =
      go (do_from (origin false) (suc max_retries) 0).0
        (do_from (origin false) (suc max_retries) 0).1
        (all_attempts-Answered (origin false) (suc max_retries)).0
        (all_attempts-Answered (origin false) (suc max_retries)).1
    where
      wide :
          (n : ℕ) (o : Outcome)
          → n ≤ suc max_retries
          → IsFine (n + suc max_retries) cache o
          → IsFine (2 * suc max_retries) cache o
      wide n o l (h, m) = (h, omega (arith, l, m))

      go :
          (a : Option Response) (n : ℕ)
          → Answered (origin false) (suc max_retries) a
          → n ≤ suc max_retries
          → IsFine (2 * suc max_retries) cache (elim a [
            | none ↦ solve origin solver max_retries now stored target unreachable n cache
            | some r ↦
                if is_cloudflare_challenge r.status r.body
                then solve origin solver max_retries now stored target blocked n cache
                else finish now stored target r n cache
          ])
      go none n h l = wide n _ l (solve-IsFine unreachable n cache)
      go (some a) n (k, j, r, e, s) l =
          elim (Bool-cases (is_cloudflare_challenge a.status a.body)) [
            | inl t ↦ rw t (wide n _ l (solve-IsFine blocked n cache))
            | inr f ↦
                let fine = finish-Explains false k r n cache (omega (arith, j)) e in
                rw f (rw s (fine.0, omega (arith, fine.1, l)))
          ]
