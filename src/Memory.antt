-- ===== src/Memory.antt =====
-- src/stores/memory.rs: HashMapStore, a map behind a lock, with eviction after a write.
pub mod Evict
pub mod Access
pub mod Writes
pub mod Races
pub mod Lawful
pub mod Safety
pub mod Guarantee
pub mod Keyed
pub mod Bounded
use swr_cache.Base.{
  ℕ, ◌-◌, Bool, true, Option, none, some, String, List, [], ◌∷◌, map, Result, ok, ltb, length, take,
  if◌then◌else◌,
}
use swr_cache.Base.Int.{ℤ, ltb_ℤ}
use swr_cache.Base.Dict.{Dict, lookup, insert, remove, retain}
use swr_cache.Base.Dict.Sort.{sort_by_key}
use swr_cache.Base.Cell.{Cell, update}
use swr_cache.Base.Async.{Async, ret, ◌>>=◌, ◌>>◌, gets, modify}
use swr_cache.Platform.{Serde, Floats, Platform}
use swr_cache.Utils.{build_cache_key, now_ms, rand_simple}
use swr_cache.Error.{CacheError}
use swr_cache.Entry.{StoredEntry, typed_mode, stale_until, is_expired}
use swr_cache.Store.{Store}

pub record EvictOnSetConfig (F : Floats) : Type 0 where
  pub frequency : Floats.F64 F
  pub max_items : ℕ

pub record HashMapStoreConfig (F : Floats) : Type 0 where
  pub evict_on_set : Option (EvictOnSetConfig F)

-- `HashMapStoreConfig::default()`
abbrev pub default_config : (F : Floats) → HashMapStoreConfig F
default_config F = record { evict_on_set = none }

pub record HashMapStore (J : Serde) {W : Type 0} (P : Platform W) : Type 0 where
  pub state : Cell W (Dict (StoredEntry J))
  pub evict_on_set : Option (EvictOnSetConfig (Platform.floats P))

-- The entries with their times of expiry, as `iter().map(…).collect()`.
abbrev pub expiries : {J : Serde} → Dict (StoredEntry J) → Dict ℤ
expiries [] = []
expiries ((k, v) ∷ m) = (k, stale_until v) ∷ expiries m

-- `for (key, _) in entries { state.remove(&key); }`
unfoldable pub remove_all {ℓ κ} : {V : Type ℓ} {T : Type κ} → Dict T → Dict V → Dict V
remove_all [] m = m
remove_all ((k, _) ∷ ks) m = remove_all ks (remove k m)

module _ {J : Serde} where
  -- `state.retain(|_, v| v.stale_until() > now)`
  unfoldable pub drop_expired : ℤ → Dict (StoredEntry J) → Dict (StoredEntry J)
  drop_expired now state = retain (λ v. ltb_ℤ now (stale_until v)) state

  -- What is over `max_items` goes, the entries that expire first.
  unfoldable pub drop_oldest : ℕ → Dict (StoredEntry J) → Dict (StoredEntry J)
  unfolding remove_all
  drop_oldest max_items state =
      if ltb max_items (length state)
      then remove_all (take (length state - max_items) (sort_by_key (expiries state))) state
      else state

  -- The part of `maybe_evict` under the write lock.
  unfoldable pub evict : ℕ → ℤ → Dict (StoredEntry J) → Dict (StoredEntry J)
  unfolding drop_expired drop_oldest
  evict max_items now state = drop_oldest max_items (drop_expired now state)

  abbrev pub remove_keys : String → List String → Dict (StoredEntry J) → Dict (StoredEntry J)
  remove_keys namespace [] m = m
  remove_keys namespace (key ∷ keys) m =
      remove_keys namespace keys (remove (build_cache_key namespace key) m)

module _ {W : Type 0} (P : Platform W) where
  open (Platform.floats P) use {lt, le, one_f}

  unfoldable pub should_evict : EvictOnSetConfig (Platform.floats P) → W → Bool
  should_evict config w =
      if le one_f config.frequency then true else lt (rand_simple P w) config.frequency

module _ {J : Serde} {W : Type 0} (P : Platform W) where
  abbrev pub evict_by :
      Cell W (Dict (StoredEntry J))
      → Option (EvictOnSetConfig (Platform.floats P))
      → Async W (Unit {0})
  evict_by cell none = ret tt
  evict_by cell (some config) = if le config.frequency zero_f then ret tt else do
    chosen ← gets (should_evict P config)
    if chosen then modify (λ w. update cell (evict config.max_items (now_ms P w)) w) else ret tt
    where
      open (Platform.floats P) use {le, zero_f}

module _ {J : Serde} {W : Type 0} {P : Platform W} where
  -- `HashMapStore::new`: the map is new memory.
  unfoldable pub new_store :
      Cell W (Dict (StoredEntry J))
      → HashMapStoreConfig (Platform.floats P)
      → W
      → HashMapStore J P × W
  new_store cell config w =
      (record { state = cell; evict_on_set = config.evict_on_set }, cell.write [] w)

  unfoldable pub maybe_evict : HashMapStore J P → Async W (Unit {0})
  maybe_evict s = evict_by P s.state s.evict_on_set

  -- What `get` does with what it found under the read lock. The lock is given up before the write
  -- lock is taken, so another task may run in between.
  abbrev pub serve :
      HashMapStore J P
      → String
      → Option (StoredEntry J) × ℤ
      → Async W (Result CacheError (Option (StoredEntry J)))
  serve s cache_key (none, now) = ret (ok none)
  serve s cache_key (some stored, now) =
      if is_expired stored now
      then modify (update s.state (remove cache_key)) >> ret (ok none)
      else ret (ok (some stored))

  unfoldable pub get :
      HashMapStore J P → String → String → Async W (Result CacheError (Option (StoredEntry J)))
  get s namespace key = do
    let cache_key = build_cache_key namespace key
    found ← gets (λ w. (lookup cache_key (s.state.read w), now_ms P w))
    serve s cache_key found

  unfoldable pub set :
      HashMapStore J P → String → String → StoredEntry J → Async W (Result CacheError (Unit {0}))
  unfolding maybe_evict
  set s namespace key entry = do
    let cache_key = build_cache_key namespace key
    modify (update s.state (insert cache_key entry))
    maybe_evict s
    ret (ok tt)

  unfoldable pub remove_all_keys :
      HashMapStore J P → String → List String → Async W (Result CacheError (Unit {0}))
  remove_all_keys s namespace keys = do
    modify (update s.state (remove_keys namespace keys))
    ret (ok tt)

  -- `impl Store for HashMapStore`
  unfoldable pub hash_map_store : HashMapStore J P → Store J W
  unfolding get set remove_all_keys
  hash_map_store s = record {
    name = "hashmap";
    storage_mode = typed_mode;
    get = get s;
    set = set s;
    remove = remove_all_keys s;
  }
