-- ===== src/Fetch.antt =====
-- internal/fetch/fetch.go: the client that fetches a URL through the SSRF check, the cache, the
-- retries and the replay after a Cloudflare challenge.
--
-- `origin` is the network: what the attempt of a number, in the first run of attempts or in the
-- replay, is answered with; `none` is an error of the request or of reading its body. `solve` says
-- whether FlareSolverr answers. A body is its bytes. The calls of the clock are arguments. Callers
-- that share a flight get the answer of one, so a flight is a call.
pub mod Calls
pub mod Again
pub mod Client
use subconverter_ng.Cache
use subconverter_ng.Cache.{Cache, Header}
use subconverter_ng.Common.{
  ℕ, zero, suc, ◌+◌, ◌*◌, Bool, true, false, not, ◌&&◌, ◌||◌, Option, none, some, List, [], ◌∷◌,
  Text, codes, same, ◌==◌, if◌then◌else◌, take, ℤ, pos, negsuc,
}
use subconverter_ng.Strings.{contains}

pub record Response : Type 0 where
  pub body : Text
  pub header : Header
  pub status : ℕ

-- Why a fetch fails, beside the messages.
pub data Failure : Type 0 where
  refused unreachable blocked unsolved : Failure
  unexpected_status : ℕ → Failure

-- What a call ends with.
pub data Result : Type 0 where
  fetched : Text → Header → Result
  failed : Failure → Result

abbrev pub max_response_body_size : ℕ
max_response_body_size = 10 * 1048576

abbrev pub challenge_markers : List Text
challenge_markers =
    codes "Just a moment..."
    ∷ codes "Attention Required! | Cloudflare"
    ∷ codes "cf-browser-verification"
    ∷ codes "_cf_chl_opt"
    ∷ codes "challenge-platform"
    ∷ []

unfoldable pub has_marker : List Text → Text → Bool
has_marker [] s = false
has_marker (m ∷ ms) s = contains s m || has_marker ms s

unfoldable pub is_cloudflare_challenge : ℕ → Text → Bool
is_cloudflare_challenge status body =
    if not (status == 403) && not (status == 503) && not (status == 200)
    then false
    else has_marker challenge_markers (take 8192 body)

-- The loop of `do`, from an attempt on: the answer, if there is one, and the requests made.
unfoldable pub do_from : (ℕ → Option Response) → ℕ → ℕ → Option Response × ℕ
do_from net zero attempt = (none, 0)
do_from net (suc left) attempt =
    let (later, n) = do_from net left (suc attempt) in
    elim (net attempt) [
      | none ↦ (later, suc n)
      | some r ↦ (some (record r { body = take max_response_body_size r.body }), 1)
    ]

-- `maybeCache`.
unfoldable pub maybe_cache : ℕ → ℕ → Text → Response → Option Cache → Option Cache
maybe_cache now stored target r none = none
maybe_cache now stored target r (some c) =
    if not (r.status == 200) || same r.body []
    then some c
    else some (Cache.set now stored target r.body r.header c)

-- `FlushCache`.
unfoldable pub flush_cache : Option Cache → Option Cache
flush_cache none = none
flush_cache (some c) = some (Cache.flush c)

-- How a call ends: the result, the cache, and the number of requests to the origin.
pub record Outcome : Type 0 where
  pub result : Result
  pub cache : Option Cache
  pub requests : ℕ

-- What is done with an answer: only a 200 is a success.
unfoldable pub finish : ℕ → ℕ → Text → Response → ℕ → Option Cache → Outcome
finish now stored target r n cache =
    if r.status == 200
    then record {
      result = fetched r.body r.header;
      cache = maybe_cache now stored target r cache;
      requests = n;
    }
    else record { result = failed (unexpected_status r.status); cache = cache; requests = n }

abbrev pub failing : Failure → ℕ → Option Cache → Outcome
failing why n cache = record { result = failed why; cache = cache; requests = n }

module _ (origin : Bool → ℕ → Option Response) (solver : Option Bool) (max_retries : ℕ)
    (now stored : ℕ) (target : Text) where
  -- The request again, with what FlareSolverr gave.
  unfoldable pub replay : ℕ → Option Cache → Outcome
  replay n cache =
      let (answer, m) = do_from (origin true) (suc max_retries) 0 in
      elim answer [
        | none ↦ failing unreachable (n + m) cache
        | some r ↦ finish now stored target r (n + m) cache
      ]

  -- The answer was an error or a challenge; `solver` is `none` if FlareSolverr is not configured,
  -- and else says whether it solves the challenge.
  unfoldable pub solve : Failure → ℕ → Option Cache → Outcome
  solve why n cache = elim solver [
    | none ↦ failing why n cache
    | some false ↦ failing unsolved n cache
    | some true ↦ replay n cache
  ]

  unfoldable pub fetch_direct : Option Cache → Outcome
  fetch_direct cache =
      let (answer, n) = do_from (origin false) (suc max_retries) 0 in
      elim answer [
        | none ↦ solve unreachable n cache
        | some r ↦
            if is_cloudflare_challenge r.status r.body
            then solve blocked n cache
            else finish now stored target r n cache
      ]

  -- A look into the cache, if there is one.
  unfoldable pub look : ℕ → Option Cache → Option Cache × Option (Text × Header)
  look at none = (none, none)
  look at (some c) = let (c', hit) = Cache.get at target c in (some c', hit)

  -- `GetWithMeta`: `valid` is what the SSRF check says of the target; the cache is looked into
  -- before the flight and in it.
  unfoldable pub get_with_meta : Bool → ℕ → ℕ → Option Cache → Outcome
  get_with_meta valid first second cache =
      let (before, hit) = look first cache in
      let (inside, hit') = look second before in
      if not valid then failing refused 0 cache else elim hit [
        | some (body, header) ↦ record {
          result = fetched body header;
          cache = before;
          requests = 0;
        }
        | none ↦ elim hit' [
          | some (body, header) ↦ record {
            result = fetched body header;
            cache = inside;
            requests = 0;
          }
          | none ↦ fetch_direct inside
        ]
      ]
