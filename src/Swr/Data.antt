-- ===== src/Swr/Data.antt =====
-- src/swr.rs: the data of SwrCache, the age of an entry, and the entry for a store's form.
use swr_cache.Base.{
  Bool, true, false, Option, none, some, String, [], Result, ok, err, if◌then◌else◌,
}
use swr_cache.Base.Int.{ℤ, leb_ℤ}
use swr_cache.Base.Dict.{Dict}
use swr_cache.Base.Cell.{Cell}
use swr_cache.Base.Async.{Async}
use swr_cache.Platform.{Serde}
use swr_cache.Error.{CacheError}
use swr_cache.Entry.{
  Entry, StorageMode, typed_mode, serialized_mode, StoredEntry, from_typed_with_serializer,
  from_serialized, into_typed,
}
use swr_cache.Store.{Store}

-- `Mutex<Option<oneshot::Receiver<Option<V>>>>`: a receiver stands for the value that it will get.
-- The code puts `None` there and reads none of them: only the keys of the map count.
abbrev pub Slot : Type 0 → Type 0
Slot V = Option (Option V)

pub record GetResult (V : Type 0) : Type 0 where
  pub value : Option V
  pub revalidate : Bool
  pub is_expired : Bool

pub record SetOptions : Type 0 where
  pub fresh_ms : ℤ
  pub stale_ms : ℤ

-- `SwrCache<V>` for the type `V` that `t` names.
pub record SwrCache (J : Serde) (W : Type 0) (t : Serde.TypeId J) : Type 0 where
  pub store : Store J W
  pub fresh_ms : ℤ
  pub stale_ms : ℤ
  pub revalidating : Cell W (Dict (Slot (Serde.Val J t)))

-- `SwrCache::clone`: another handle on the same store and on the same map of revalidations.
abbrev pub clone : {J : Serde} {W : Type 0} {t : Serde.TypeId J} → SwrCache J W t → SwrCache J W t
clone c = record {
  store = c.store;
  fresh_ms = c.fresh_ms;
  stale_ms = c.stale_ms;
  revalidating = c.revalidating;
}

-- `F: FnOnce(String) -> Fut`, `Fut: Future<Output = Option<V>>`
abbrev pub Origin : (J : Serde) → Type 0 → Serde.TypeId J → Type 0
Origin J W t = String → Async W (Option (Serde.Val J t))

-- The end of `get_internal`: which of the three ages the entry has.
unfoldable pub classify : {V : Type 0} → Entry V → ℤ → GetResult V
classify entry now =
    if leb_ℤ entry.stale_until now
    then record { value = some entry.value; revalidate = true; is_expired = true }
    else (if leb_ℤ entry.fresh_until now
        then record { value = some entry.value; revalidate = true; is_expired = false }
        else record { value = some entry.value; revalidate = false; is_expired = false })

-- The entry for the store's preferred form, or serde_json's error.
unfoldable pub entry_for :
    {J : Serde} (t : Serde.TypeId J)
    → StorageMode
    → Serde.Val J t
    → ℤ
    → ℤ
    → Result String (StoredEntry J)
unfolding from_typed_with_serializer from_serialized
entry_for t typed_mode value fresh stale = ok (from_typed_with_serializer t value fresh stale)
entry_for {J} t serialized_mode value fresh stale = elim (Serde.to_string J t value fresh stale) [
  | ok json ↦ ok (from_serialized json fresh stale)
  | err e ↦ err e
]

-- The second look into the store after the wait: whatever age the entry has.
unfoldable pub retried :
    {J : Serde} (t : Serde.TypeId J)
    → Result CacheError (Option (StoredEntry J))
    → Option (Serde.Val J t)
retried t (ok (some stored)) = elim (into_typed t stored) [
  | ok entry ↦ some entry.value
  | err e ↦ none
]
retried t (ok none) = none
retried t (err e) = none

module _ {J : Serde} {W : Type 0} {t : Serde.TypeId J} where
  -- `SwrCache::new`: the map of revalidations is new memory.
  unfoldable pub new :
      Store J W → ℤ → ℤ → Cell W (Dict (Slot (Serde.Val J t))) → W → SwrCache J W t × W
  new store fresh_ms stale_ms cell w = (
    record { store = store; fresh_ms = fresh_ms; stale_ms = stale_ms; revalidating = cell },
    cell.write [] w,
  )
