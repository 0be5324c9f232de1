-- ===== src/Moka.antt =====
-- src/stores/moka.rs: MokaStore, a store over the `moka` crate's concurrent cache.
pub mod Reads
pub mod Safety
pub mod Bounded
use swr_cache.Base.{
  ℕ, ◌⊎◌, ◌≡◌, Option, none, some, String, List, [], ◌∷◌, Result, ok, if◌then◌else◌,
}
use swr_cache.Base.Async.{Async, ret, ◌>>=◌, ◌>>◌, gets, modify, atomic}
use swr_cache.Platform.{Serde, Platform}
use swr_cache.Utils.{build_cache_key, now_ms}
use swr_cache.Error.{CacheError}
use swr_cache.Entry.{StoredEntry, typed_mode, is_expired}
use swr_cache.Store.{Store}

-- The crate's `moka::future::Cache<String, StoredEntry>` and its builder, durations in nanoseconds.
-- A read writes too: it counts as an access, and may evict.
pub record MokaCrate (J : Serde) (W : Type 0) : Type 1 where
  pub Builder : Type 0
  pub builder : Builder
  pub max_capacity : ℕ → Builder → Builder
  pub time_to_live : ℕ → Builder → Builder
  pub time_to_idle : ℕ → Builder → Builder
  pub Cache : Type 0
  pub build : Builder → W → Cache × W
  pub cache_get : Cache → String → W → Option (StoredEntry J) × W
  pub cache_insert : Cache → String → StoredEntry J → W → W
  pub invalidate : Cache → String → W → W
  pub entry_count : Cache → W → ℕ
  pub weighted_size : Cache → W → ℕ

pub record MokaStoreConfig : Type 0 where
  pub max_capacity : ℕ
  pub time_to_live : Option ℕ
  pub time_to_idle : Option ℕ

-- `MokaStoreConfig::default()`
abbrev pub default_config : MokaStoreConfig
default_config = record { max_capacity = 10_000; time_to_live = none; time_to_idle = none }

pub record MokaStore {J : Serde} {W : Type 0} (M : MokaCrate J W) : Type 0 where
  pub cache : MokaCrate.Cache M

-- `if let Some(d) = limit { builder = set(builder, d); }`
abbrev limited : {B : Type 0} → Option ℕ → (ℕ → B → B) → B → B
limited none set b = b
limited (some d) set b = set d b

module _ {J : Serde} {W : Type 0} (M : MokaCrate J W) where
  -- `MokaStore::new`
  unfoldable pub new : MokaStoreConfig → W → MokaStore M × W
  new config w =
      let b = MokaCrate.max_capacity M config.max_capacity (MokaCrate.builder M) in
      let b' = limited config.time_to_live (MokaCrate.time_to_live M) b in
      let b'' = limited config.time_to_idle (MokaCrate.time_to_idle M) b' in
      let (cache, w') = MokaCrate.build M b'' w in (record { cache = cache }, w')

  unfoldable pub stats : MokaStore M → W → ℕ × ℕ
  stats s w = (MokaCrate.entry_count M s.cache w, MokaCrate.weighted_size M s.cache w)

  unfoldable pub set :
      MokaStore M → String → String → StoredEntry J → Async W (Result CacheError (Unit {0}))
  set s namespace key entry = do
    modify (MokaCrate.cache_insert M s.cache (build_cache_key namespace key) entry)
    ret (ok tt)

  unfoldable pub remove :
      MokaStore M → String → List String → Async W (Result CacheError (Unit {0}))
  remove s namespace [] = ret (ok tt)
  remove s namespace (key ∷ keys) =
      modify (MokaCrate.invalidate M s.cache (build_cache_key namespace key))
      >> remove s namespace keys

  module _ (P : Platform W) where
    -- What `get` does with what moka found.
    unfoldable pub serve :
        MokaStore M
        → String
        → Option (StoredEntry J)
        → Async W (Result CacheError (Option (StoredEntry J)))
    serve s cache_key none = ret (ok none)
    serve s cache_key (some entry) = do
      now ← gets (now_ms P)
      if is_expired entry now
          then modify (MokaCrate.invalidate M s.cache cache_key) >> ret (ok none)
          else ret (ok (some entry))

    unfoldable pub get :
        MokaStore M → String → String → Async W (Result CacheError (Option (StoredEntry J)))
    unfolding serve
    get s namespace key = do
      let cache_key = build_cache_key namespace key
      found ← atomic (MokaCrate.cache_get M s.cache cache_key)
      serve s cache_key found

    -- `impl Store for MokaStore`
    unfoldable pub moka_store : MokaStore M → Store J W
    unfolding get set remove
    moka_store s = record {
      name = "moka";
      storage_mode = typed_mode;
      get = get s;
      set = set s;
      remove = remove s;
    }
