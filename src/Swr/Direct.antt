-- ===== src/Swr/Direct.antt =====
-- src/swr.rs: reads, writes and removals, and the write in the background.
use swr_cache.Base.{false, Option, none, some, String, [], ◌∷◌, Result, ok, err, map_or}
use swr_cache.Base.Int.{◌+i64◌}
use swr_cache.Base.Async.{Async, ret, ◌>>=◌, ◌>>◌, ◌>>?◌, gets, spawn}
use swr_cache.Platform.{Serde, Platform}
use swr_cache.Utils.{now_ms}
use swr_cache.Error.{CacheError}
use swr_cache.Entry.{Entry, StoredEntry, serialize_failed, into_typed}
use swr_cache.Swr.Data.{GetResult, SetOptions, SwrCache, classify, entry_for}

abbrev pub typed_result :
    {W V : Type 0}
    → Platform W
    → Result CacheError (Entry V)
    → Async W (Result CacheError (GetResult V))
typed_result P (err e) = ret (err e)
typed_result P (ok entry) = do now ← gets (now_ms P); ret (ok (classify entry now))

module _ {J : Serde} {W : Type 0} {t : Serde.TypeId J} where
  unfoldable pub remove_key :
      SwrCache J W t → String → String → Async W (Result CacheError (Unit {0}))
  remove_key c namespace key = c.store.remove namespace (key ∷ [])

  -- A write, or serde_json's error.
  abbrev pub write_entry :
      SwrCache J W t
      → String
      → String
      → Result String (StoredEntry J)
      → Async W (Result CacheError (Unit {0}))
  write_entry c namespace key (ok stored_entry) = c.store.set namespace key stored_entry
  write_entry c namespace key (err e) = ret (err (serialize_failed e))

  -- A write in the background: a failure is logged and dropped.
  unfoldable pub store_entry :
      SwrCache J W t → String → String → Result String (StoredEntry J) → Async W (Unit {0})
  store_entry c namespace key (err e) = ret tt
  store_entry c namespace key (ok entry) = c.store.set namespace key entry >> ret tt

module _ {J : Serde} {W : Type 0} (P : Platform W) {t : Serde.TypeId J} where
  abbrev pub stored_result :
      Option (StoredEntry J) → Async W (Result CacheError (GetResult (Serde.Val J t)))
  stored_result none = ret (ok (record { value = none; revalidate = false; is_expired = false }))
  stored_result (some stored) = typed_result P (into_typed t stored)

  unfoldable pub get_internal :
      SwrCache J W t → String → String → Async W (Result CacheError (GetResult (Serde.Val J t)))
  get_internal c namespace key = c.store.get namespace key >>? stored_result

  unfoldable pub get :
      SwrCache J W t → String → String → Async W (Result CacheError (Option (Serde.Val J t)))
  unfolding get_internal
  get c namespace key = get_internal c namespace key >>? λ result. ret (ok result.value)

  unfoldable pub set :
      SwrCache J W t
      → String
      → String
      → Serde.Val J t
      → Option SetOptions
      → Async W (Result CacheError (Unit {0}))
  set c namespace key value opts = do
    now ← gets (now_ms P)
    let fresh_ms = map_or opts (λ o. o.fresh_ms) c.fresh_ms
    let stale_ms = map_or opts (λ o. o.stale_ms) c.stale_ms
    write_entry c namespace key
        (entry_for t c.store.storage_mode value (now +i64 fresh_ms) (now +i64 stale_ms))

  unfoldable pub cache_value : SwrCache J W t → String → String → Serde.Val J t → Async W (Unit {0})
  unfolding store_entry
  cache_value c namespace key value = do
    now ← gets (now_ms P)
    let fresh_until = now +i64 c.fresh_ms
    let stale_until = now +i64 c.stale_ms
    spawn (
        store_entry c namespace key
          (entry_for t c.store.storage_mode value fresh_until stale_until))
