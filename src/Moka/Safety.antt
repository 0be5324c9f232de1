-- ===== src/Moka/Safety.antt =====
-- A MokaStore under any interleaving (src/stores/moka.rs).
use swr_cache.Base.{Option, none, some, String, List, [], ◌∷◌, ok}
use swr_cache.Base.Async.Safe.{Ensures, returns, steps, Ensures-if}
use swr_cache.Platform.{Serde, Platform}
use swr_cache.Utils.{build_cache_key, now_ms}
use swr_cache.Entry.{StoredEntry, is_expired}
use swr_cache.Moka.{MokaCrate, MokaStore, get, set, remove, serve, moka_store}
use swr_cache.Store.Safety.{Found, IsSafeStore}

-- What moka's documentation says of one cache, in terms of an invariant: it makes up no entry, and a
-- read, with the eviction that it may cause, an insertion of a fitting entry and an invalidation
-- leave only entries that fit.
pub record MokaKeeps {J : Serde} {W : Type 0} (M : MokaCrate J W) (c : MokaCrate.Cache M)
    (Inv : W → Type 0) (Fits : String → StoredEntry J → Type 0) : Type 0 where
  pub gets :
      (k : String) (w : W)
      → Inv w
      → Found (Fits k) (ok (MokaCrate.cache_get M c k w).0) × Inv (MokaCrate.cache_get M c k w).1
  pub inserts :
      (k : String) (e : StoredEntry J) (w : W)
      → Fits k e
      → Inv w
      → Inv (MokaCrate.cache_insert M c k e w)
  pub invalidates : (k : String) (w : W) → Inv w → Inv (MokaCrate.invalidate M c k w)

module _ {J : Serde} {W : Type 0} (M : MokaCrate J W) (P : Platform W) (s : MokaStore M)
    (Inv : W → Type 0) (Fits : String → StoredEntry J → Type 0)
    (moka : MokaKeeps M s.cache Inv Fits) where
  Ensures-serve :
      (k : String) (found : Option (StoredEntry J))
      → Found (Fits k) (ok found)
      → Ensures Inv (Found (Fits k)) (serve M P s k found)
  unfolding serve
  Ensures-serve k none h = returns tt
  Ensures-serve k (some e) h =
      steps (λ w i. i)
        (λ w _.
          Ensures-if (is_expired e (now_ms P w))
            (λ _. steps (moka.invalidates k) (λ _ _. returns tt)) (λ _. returns h))

  Ensures-get :
      (namespace key : String)
      → Ensures Inv (Found (Fits (build_cache_key namespace key))) (get M P s namespace key)
  unfolding get
  Ensures-get namespace key =
      let k = build_cache_key namespace key in
      steps (λ w i. (moka.gets k w i).1) (λ w i. Ensures-serve k _ (moka.gets k w i).0)

  Ensures-set :
      (namespace key : String) (e : StoredEntry J)
      → Fits (build_cache_key namespace key) e
      → Ensures Inv (λ _. Unit {0}) (set M s namespace key e)
  unfolding set
  Ensures-set namespace key e fit =
      steps (λ w i. moka.inserts (build_cache_key namespace key) e w fit i) (λ _ _. returns tt)

  Ensures-remove :
      (namespace : String) (keys : List String)
      → Ensures Inv (λ _. Unit {0}) (remove M s namespace keys)
  unfolding remove
  Ensures-remove namespace [] = returns tt
  Ensures-remove namespace (key ∷ keys) =
      steps (moka.invalidates (build_cache_key namespace key))
        (λ _ _. Ensures-remove namespace keys)

  -- A MokaStore, over a moka cache that makes up no entry: every interleaving of reads, writes and
  -- removals, the removal of an expired entry by a read included, keeps each entry under a key that
  -- it fits, and a read gives only entries that fit the key asked for.
  pub moka_store-IsSafeStore : IsSafeStore (moka_store M P s) Inv Fits
  unfolding moka_store
  moka_store-IsSafeStore = record {
    reads = Ensures-get;
    writes = Ensures-set;
    removes = Ensures-remove;
  }
