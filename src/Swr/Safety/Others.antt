-- ===== src/Swr/Safety/Others.antt =====
-- Calls of a cache at a key where any entry is in order, such as those of a cache of another type
-- that has the same store (src/swr.rs).
use swr_cache.Base.{Option, none, some, String, Result, ok, err}
use swr_cache.Base.Async.{ret}
use swr_cache.Base.Async.Safe.{Ensures, returns, steps, Ensures-bind}
use swr_cache.Platform.{Serde, Platform}
use swr_cache.Utils.{build_cache_key}
use swr_cache.Error.{CacheError}
use swr_cache.Entry.{Entry, StoredEntry, into_typed}
use swr_cache.Store.Safety.{IsSafeStore}
use swr_cache.Swr.Data.{SwrCache, SetOptions, GetResult}
use swr_cache.Swr.Direct.{stored_result, typed_result, get_internal, get, set, write_entry}

module _ {J : Serde} {W : Type 0} (P : Platform W) {t : Serde.TypeId J} (c : SwrCache J W t)
    (Inv : W → Type 0) (Fits : String → StoredEntry J → Type 0)
    (store : IsSafeStore c.store Inv Fits) (namespace key : String) where
  write_any :
      ((e : StoredEntry J) → Fits (build_cache_key namespace key) e)
      → (r : Result String (StoredEntry J))
      → Ensures Inv (λ _. Unit {0}) (write_entry c namespace key r)
  write_any any (ok e) = store.writes namespace key e (any e)
  write_any any (err x) = returns tt

  pub set_any :
      (v : Serde.Val J t) (opts : Option SetOptions)
      → ((e : StoredEntry J) → Fits (build_cache_key namespace key) e)
      → Ensures Inv (λ _. Unit {0}) (set P c namespace key v opts)
  unfolding set
  set_any v opts any = steps (λ w i. i) (λ w _. write_any any _)

  typed_any :
      (r : Result CacheError (Entry (Serde.Val J t)))
      → Ensures Inv (λ _. Unit {0}) (typed_result P r)
  typed_any (ok e) = steps (λ w i. i) (λ w _. returns tt)
  typed_any (err x) = returns tt

  found_any :
      (r : Result CacheError (Option (StoredEntry J)))
      → Ensures Inv
          (λ _. Unit {0})
          (elim r [ ok o ↦ stored_result P {t = t} o | err x ↦ ret (err x) ])
  found_any (ok (some e)) = typed_any (into_typed t e)
  found_any (ok none) = returns tt
  found_any (err x) = returns tt

  get_any_result :
      (r : Result CacheError (GetResult (Serde.Val J t)))
      → Ensures Inv {A = Result CacheError (Option (Serde.Val J t))}
          (λ _. Unit {0})
          (elim r [ ok o ↦ ret (ok o.value) | err x ↦ ret (err x) ])
  get_any_result (ok o) = returns tt
  get_any_result (err x) = returns tt

  pub get_any : Ensures Inv (λ _. Unit {0}) (get P c namespace key)
  unfolding get get_internal
  get_any =
      Ensures-bind (Ensures-bind (store.reads namespace key) (λ r _. found_any r))
        (λ r _. get_any_result r)
