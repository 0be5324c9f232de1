-- ===== src/Store/Safety.antt =====
-- What a store may be relied on whatever runs beside it (src/store.rs): no entry that it gives was
-- never given to it.
use swr_cache.Base.{Option, none, some, String, List, Result, ok, err}
use swr_cache.Base.Async.Safe.{Ensures}
use swr_cache.Platform.{Serde}
use swr_cache.Utils.{build_cache_key}
use swr_cache.Error.{CacheError}
use swr_cache.Entry.{StoredEntry}
use swr_cache.Store.{Store}

-- A result of a read whose entry, if there is one, fits.
abbrev pub Found : {A : Type 0} → (A → Type 0) → Result CacheError (Option A) → Type 0
Found Fits (ok (some a)) = Fits a
Found Fits (ok none) = Unit
Found Fits (err x) = Unit

module _ {J : Serde} {W : Type 0} where
  -- Given only entries that fit their composite keys, the store keeps its invariant segment by
  -- segment, and gives only entries that fit the key asked for.
  pub record IsSafeStore (S : Store J W) (Inv : W → Type 0) (Fits : String → StoredEntry J → Type 0)
      : Type 0 where
    pub reads :
        (namespace key : String)
        → Ensures Inv (Found (Fits (build_cache_key namespace key))) (S.get namespace key)
    pub writes :
        (namespace key : String) (e : StoredEntry J)
        → Fits (build_cache_key namespace key) e
        → Ensures Inv (λ _. Unit {0}) (S.set namespace key e)
    pub removes :
        (namespace : String) (keys : List String)
        → Ensures Inv (λ _. Unit {0}) (S.remove namespace keys)
