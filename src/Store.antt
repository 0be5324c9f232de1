-- ===== src/Store.antt =====
-- src/store.rs: the interface of a store, as its methods over the shared world.
pub mod Laws
pub mod Safety
pub mod Keyed
pub mod Guarantee
pub mod Written
use swr_cache.Base.{String, List, Result}
use swr_cache.Base.Async.{Async}
use swr_cache.Platform.{Serde}
use swr_cache.Error.{CacheError}
use swr_cache.Entry.{StorageMode, serialized_mode, StoredEntry}
use mathlib.Core.Option.{Option}

-- `Arc<dyn Store>`: the methods of one store, over the world that holds its memory. Two uses of one
-- record are two handles on the same store.
pub record Store (J : Serde) (W : Type 0) : Type 0 where
  pub name : String
  pub storage_mode : StorageMode
  pub get : String → String → Async W (Result CacheError (Option (StoredEntry J)))
  pub set : String → String → StoredEntry J → Async W (Result CacheError (Unit {0}))
  pub remove : String → List String → Async W (Result CacheError (Unit {0}))

-- The trait's default for a store that names no mode.
abbrev pub default_storage_mode : StorageMode
default_storage_mode = serialized_mode
