-- ===== src/Swr/Safety/Reads.antt =====
-- Reads of a SwrCache under any interleaving (src/swr.rs: get_internal, get).
use swr_cache.Base.{ℕ, ◌≡◌, refl, Option, none, some, String, Result, ok, err}
use swr_cache.Base.Cell.{Guards}
use swr_cache.Base.Async.{ret}
use swr_cache.Base.Async.Safe.{Ensures, returns, steps, Ensures-bind}
use swr_cache.Platform.{Serde, RoundTrips, Platform}
use swr_cache.Utils.{build_cache_key, now_ms}
use swr_cache.Error.{CacheError}
use swr_cache.Entry.{Entry, StoredEntry, into_typed}
use swr_cache.Entry.Carries.{Carries, Carries-right}
use swr_cache.Store.Safety.{Found, IsSafeStore}
use swr_cache.Swr.Data.{SwrCache, GetResult}
use swr_cache.Swr.Direct.{stored_result, typed_result, get_internal, get}
use swr_cache.Swr.Safety.Values.{RightOption, RightGet, classify-RightOption}

module _ {J : Serde} {W : Type 0} (P : Platform W) {t : Serde.TypeId J} (c : SwrCache J W t)
    (Inv : W → Type 0) (Right : String → Serde.Val J t → Type 0)
    (store : IsSafeStore c.store Inv (λ k. Carries t (Right k)))
    (marks : Guards Inv c.revalidating (λ _. Unit {0}))
    (sleeps : (n : ℕ) → Ensures Inv (λ _. Unit {0}) (Platform.sleep P n)) (r : RoundTrips J)
    (namespace key : String) where
  -- The values that are right for the key.
  abbrev RightHere : Serde.Val J t → Type 0
  RightHere = Right (build_cache_key namespace key)

  Ensures-typed_result :
      (e : StoredEntry J)
      → Carries t RightHere e
      → Ensures Inv (RightGet RightHere) (typed_result P (into_typed t e))
  Ensures-typed_result e h =
      typed_safe (into_typed t e) (λ x read. Carries-right t RightHere e x h read)
    where
      typed_safe :
          (o : Result CacheError (Entry (Serde.Val J t)))
          → ((x : Entry (Serde.Val J t)) → o ≡ ok x → RightHere x.value)
          → Ensures Inv (RightGet RightHere) (typed_result P o)
      typed_safe (ok x) right =
          steps (λ w i. i)
            (λ w _. returns (classify-RightOption RightHere x (now_ms P w) (right x refl)))
      typed_safe (err x) right = returns tt

  Ensures-after_read :
      (found : Result CacheError (Option (StoredEntry J)))
      → Found (Carries t RightHere) found
      → Ensures Inv
          (RightGet RightHere)
          (elim found [ ok a ↦ stored_result P a | err x ↦ ret (err x) ])
  Ensures-after_read (ok (some e)) h = Ensures-typed_result e h
  Ensures-after_read (ok none) h = returns tt
  Ensures-after_read (err x) h = returns tt

  pub Ensures-get_internal : Ensures Inv (RightGet RightHere) (get_internal P c namespace key)
  unfolding get_internal
  Ensures-get_internal = Ensures-bind (store.reads namespace key) Ensures-after_read

  after_get :
      (o : Result CacheError (GetResult (Serde.Val J t)))
      → RightGet RightHere o
      → Ensures Inv (Found RightHere) (elim o [ ok a ↦ ret (ok a.value) | err x ↦ ret (err x) ])
  after_get (ok g) h = returns (right_found g.value h)
    where
      right_found : (o : Option (Serde.Val J t)) → RightOption RightHere o → Found RightHere (ok o)
      right_found none h' = tt
      right_found (some v) h' = h'
  after_get (err x) h = returns tt

  -- A read that gives a value gives one that is right for its key.
  pub Ensures-get : Ensures Inv (Found RightHere) (get P c namespace key)
  unfolding get
  Ensures-get = Ensures-bind Ensures-get_internal after_get
