-- ===== src/Fetch/Again.antt =====
-- What a fetch has stored is what a later call gives, without a request.
use subconverter_ng.Cache
use subconverter_ng.Cache.Capacity.{IsValid}
use subconverter_ng.Cache.Reads.{get-set}
use subconverter_ng.Cache.{Cache, Header}
use subconverter_ng.Common.{
  ℕ, ◌+◌, ◌≡◌, ◌≢◌, ◌<◌, refl, sym, ◌∙◌, subst, Bool, true, false, Option, some, [], Text, same_ne,
  ==_iff, leb, arith,
}
use subconverter_ng.Fetch.Calls.{limited, Explains, fetch_direct-Explains}
use subconverter_ng.Fetch.{Response, fetched, maybe_cache, fetch_direct, look, get_with_meta}

maybe_cache_stored :
    (now stored : ℕ) (target : Text) (r : Response) (c : Cache)
    → r.status ≡ 200
    → r.body ≢ []
    → maybe_cache now stored target r (some c)
      ≡ some (Cache.set now stored target r.body r.header c)
unfolding maybe_cache
maybe_cache_stored now stored target r c s b = rw ((==_iff r.status 200).1 s, same_ne b) refl

module _ (origin : Bool → ℕ → Option Response) (solver : Option Bool) (max_retries : ℕ)
    (now stored : ℕ) (target : Text) where
  get_with_meta_hit :
      (later second : ℕ) (c : Cache) (body : Text) (header : Header)
      → (Cache.get later target c).1 ≡ some (body, header)
      → ((get_with_meta origin solver max_retries now stored target true later second
            (some c)).result
          ≡ fetched body header)
        × ((get_with_meta origin solver max_retries now stored target true later second
              (some c)).requests
            ≡ 0)
  unfolding get_with_meta look
  get_with_meta_hit later second c body header e = (rw (e, get_with_meta), rw (e, get_with_meta))

  -- After a fetch into a valid cache that gave a body which is not empty, a call for the same URL
  -- gives that body and its headers again without a request, until the TTL has passed.
  pub get_with_meta_again :
      (c : Cache) (body : Text) (header : Header) (later second : ℕ)
      → IsValid c
      → body ≢ []
      → (fetch_direct origin solver max_retries now stored target (some c)).result
        ≡ fetched body header
      → later < stored + c.ttl
      → ((get_with_meta origin solver max_retries now stored target true later second
            (fetch_direct origin solver max_retries now stored target (some c)).cache).result
          ≡ fetched body header)
        × ((get_with_meta origin solver max_retries now stored target true later second
              (fetch_direct origin solver max_retries now stored target (some c)).cache).requests
            ≡ 0)
  get_with_meta_again c body header later second v full e early = go (
      subst
        (Explains origin solver max_retries now stored target (some c)
          (fetch_direct origin solver max_retries now stored target (some c)).cache)
        e (fetch_direct-Explains origin solver max_retries now stored target (some c)).0)
    where
      live : leb (stored + c.ttl) later ≡ false
      live = ground arith

      read :
          (Cache.get later target (Cache.set now stored target body header c)).1
          ≡ some (body, header)
      read = get-set now stored target body header c v later ∙ rw live

      go :
          Explains origin solver max_retries now stored target
            (some c)
            (fetch_direct origin solver max_retries now stored target (some c)).cache
            (fetched body header)
          → ((get_with_meta origin solver max_retries now stored target true later second
                (fetch_direct origin solver max_retries now stored target (some c)).cache).result
              ≡ fetched body header)
            × ((get_with_meta origin solver max_retries now stored target true later second
                  (fetch_direct origin solver max_retries now stored target
                    (some c)).cache).requests
                ≡ 0)
      go (b, k, l, r, a, s, bd, hd, after) =
          rw
            (
              after ∙ maybe_cache_stored now stored target (limited r) c s (λ z. full (bd ∙ z)),
              sym bd,
              sym hd,
            )
            (get_with_meta_hit later second (Cache.set now stored target body header c) body header
              read)
