-- ===== src/Swr.antt =====
-- src/swr.rs: stale-while-revalidate: `swr`, the background revalidation, and the deduplicated load.
pub mod Data
pub mod Direct
pub mod Reads
pub mod RoundTrip
pub mod Overflow
pub mod Renewal
pub mod Safety
pub mod Guarantee
pub mod Marks
pub mod Among
pub mod Bounded
pub mod Loads
pub mod Answers
pub mod Outcomes
pub mod Total
pub mod Revalidation
pub mod Interleavings
use swr_cache.Base.{Bool, true, false, Option, none, some, String, Result, ok, err, if◌then◌else◌}
use swr_cache.Base.Int.{◌+i64◌}
use swr_cache.Base.Dict.{insert, remove, contains_key}
use swr_cache.Base.Cell.{update}
use swr_cache.Base.Async.{Async, ret, ◌>>=◌, ◌>>◌, gets, modify, spawn}
use swr_cache.Platform.{Serde, Platform}
use swr_cache.Utils.{build_cache_key, now_ms}
use swr_cache.Error.{CacheError, operation}
use Data.{GetResult, SwrCache, Origin, entry_for, retried}
use Direct.{get_internal, store_entry, cache_value}

module _ {J : Serde} {W : Type 0} (P : Platform W) {t : Serde.TypeId J} where
  -- The end of a revalidation, with what the origin gave.
  unfoldable pub store_loaded :
      SwrCache J W t → String → String → Option (Serde.Val J t) → Async W (Unit {0})
  unfolding store_entry
  store_loaded c namespace key none = ret tt
  store_loaded c namespace key (some v) = do
    now ← gets (now_ms P)
    let fresh_until = now +i64 c.fresh_ms
    let stale_until = now +i64 c.stale_ms
    store_entry c namespace key (entry_for t c.store.storage_mode v fresh_until stale_until)

  -- The task of `spawn_revalidation`. The check and the mark are two segments.
  unfoldable pub revalidation : SwrCache J W t → String → String → Origin J W t → Async W (Unit {0})
  unfolding store_loaded
  revalidation c namespace key load_from_origin = do
    let revalidate_key = build_cache_key namespace key
    running ← gets (λ w. contains_key revalidate_key (c.revalidating.read w))
    if running then ret tt else do
      modify (update c.revalidating (insert revalidate_key none))
      value ← load_from_origin key
      store_loaded c namespace key value
      modify (update c.revalidating (remove revalidate_key))

  unfoldable pub spawn_revalidation :
      SwrCache J W t → String → String → Origin J W t → Async W (Unit {0})
  unfolding revalidation
  spawn_revalidation c namespace key load_from_origin =
      spawn (revalidation c namespace key load_from_origin)

  -- The wait for another load, and the second look into the store.
  unfoldable pub retry : SwrCache J W t → String → String → Async W (Option (Serde.Val J t))
  unfolding retried
  retry c namespace key = do
    Platform.sleep P 100
    found ← c.store.get namespace key
    ret (retried t found)

  unfoldable pub load_marked :
      SwrCache J W t
      → String
      → String
      → Origin J W t
      → Async W (Result String (Option (Serde.Val J t)))
  load_marked c namespace key load_from_origin = do
    let revalidate_key = build_cache_key namespace key
    modify (update c.revalidating (insert revalidate_key none))
    result ← load_from_origin key
    modify (update c.revalidating (remove revalidate_key))
    ret (ok result)

  -- A value from the second look ends the load; without one the origin is asked.
  abbrev pub load_unless :
      SwrCache J W t
      → String
      → String
      → Origin J W t
      → Option (Serde.Val J t)
      → Async W (Result String (Option (Serde.Val J t)))
  load_unless c namespace key load_from_origin (some value) = ret (ok (some value))
  load_unless c namespace key load_from_origin none = load_marked c namespace key load_from_origin

  unfoldable pub deduplicated_load_from_origin :
      SwrCache J W t
      → String
      → String
      → Origin J W t
      → Async W (Result String (Option (Serde.Val J t)))
  unfolding retry load_marked
  deduplicated_load_from_origin c namespace key load_from_origin = do
    let revalidate_key = build_cache_key namespace key
    loading ← gets (λ w. contains_key revalidate_key (c.revalidating.read w))
    cached ← if loading then retry c namespace key else ret none
    load_unless c namespace key load_from_origin cached

  -- What `swr` does with the result of a load for an expired entry.
  unfoldable pub or_expired :
      SwrCache J W t
      → String
      → String
      → Serde.Val J t
      → Result String (Option (Serde.Val J t))
      → Async W (Result CacheError (Option (Serde.Val J t)))
  unfolding cache_value
  or_expired c namespace key value (ok (some fresh_value)) = do
    cache_value P c namespace key fresh_value
    ret (ok (some fresh_value))
  or_expired c namespace key value (ok none) = ret (ok (some value))
  or_expired c namespace key value (err e) = ret (ok (some value))

  -- What `swr` does with the result of a load on a miss.
  unfoldable pub cache_loaded :
      SwrCache J W t
      → String
      → String
      → Result String (Option (Serde.Val J t))
      → Async W (Result CacheError (Option (Serde.Val J t)))
  unfolding cache_value
  cache_loaded c namespace key (ok (some v)) = do cache_value P c namespace key v; ret (ok (some v))
  cache_loaded c namespace key (ok none) = ret (ok none)
  cache_loaded c namespace key (err e) = ret (err (operation c.store.name key e))

  -- The arms of the match in `swr`, in its order.
  unfoldable pub answer :
      SwrCache J W t
      → String
      → String
      → Origin J W t
      → Option (Serde.Val J t)
      → Bool
      → Bool
      → Async W (Result CacheError (Option (Serde.Val J t)))
  unfolding spawn_revalidation deduplicated_load_from_origin or_expired cache_loaded
  answer c namespace key load_from_origin (some value) true false = do
    spawn_revalidation c namespace key load_from_origin
    ret (ok (some value))
  answer c namespace key load_from_origin (some value) true true = do
    loaded ← deduplicated_load_from_origin c namespace key load_from_origin
    or_expired c namespace key value loaded
  answer c namespace key load_from_origin (some value) false false = ret (ok (some value))
  answer c namespace key load_from_origin (some value) false true = do
    loaded ← deduplicated_load_from_origin c namespace key load_from_origin
    cache_loaded c namespace key loaded
  answer c namespace key load_from_origin none revalidate is_expired = do
    loaded ← deduplicated_load_from_origin c namespace key load_from_origin
    cache_loaded c namespace key loaded

  abbrev pub answer_result :
      SwrCache J W t
      → String
      → String
      → Origin J W t
      → Result CacheError (GetResult (Serde.Val J t))
      → Async W (Result CacheError (Option (Serde.Val J t)))
  answer_result c namespace key load_from_origin (ok r) =
      answer c namespace key load_from_origin r.value r.revalidate r.is_expired
  answer_result c namespace key load_from_origin (err e) =
      answer c namespace key load_from_origin none false false

  unfoldable pub swr :
      SwrCache J W t
      → String
      → String
      → Origin J W t
      → Async W (Result CacheError (Option (Serde.Val J t)))
  unfolding get_internal answer
  swr c namespace key load_from_origin = do
    res ← get_internal P c namespace key
    answer_result c namespace key load_from_origin res
