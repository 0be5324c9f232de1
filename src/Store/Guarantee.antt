-- ===== src/Store/Guarantee.antt =====
-- What each segment of a store's methods does to the world around it (src/store.rs).
use swr_cache.Base.{String, List}
use swr_cache.Base.Async.Guarantee.{Guarantees}
use swr_cache.Platform.{Serde}
use swr_cache.Entry.{StoredEntry}
use swr_cache.Store.{Store}

pub record StoreGuarantees {J : Serde} {W : Type 0} (S : Store J W) (R : W → W → Type 0)
    : Type 0 where
  pub gets : (namespace key : String) → Guarantees R (S.get namespace key)
  pub sets : (namespace key : String) (e : StoredEntry J) → Guarantees R (S.set namespace key e)
  pub removes : (namespace : String) (keys : List String) → Guarantees R (S.remove namespace keys)
