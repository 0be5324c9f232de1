-- ===== src/Memory/Safety.antt =====
-- HashMapStore under any interleaving (src/stores/memory.rs).
use swr_cache.Base.{ℕ, ◌≡◌, refl, Option, none, some, String, List, [], ◌∷◌}
use swr_cache.Base.Int.{ℤ}
use swr_cache.Base.Dict.{Dict, lookup, insert, remove}
use swr_cache.Base.Dict.Fit.{IsFit, IsFit-insert, IsFit-remove}
use swr_cache.Base.Cell.{Guards, update}
use swr_cache.Base.Async.Safe.{Ensures, returns, steps, Ensures-if, Ensures-bind, Ensures-modify}
use swr_cache.Platform.{Serde, Platform}
use swr_cache.Utils.{build_cache_key, now_ms}
use swr_cache.Entry.{StoredEntry, is_expired}
use swr_cache.Memory.{
  EvictOnSetConfig, HashMapStore, evict, should_evict, evict_by, maybe_evict, remove_keys, get, set,
  remove_all_keys, serve, hash_map_store,
}
use swr_cache.Memory.Evict.{evict_size, evict_sound}
use swr_cache.Store.Safety.{Found, IsSafeStore}

module _ {J : Serde} (Fits : String → StoredEntry J → Type 0) where
  IsFit-remove_keys :
      (namespace : String) (keys : List String) (m : Dict (StoredEntry J))
      → IsFit Fits m
      → IsFit Fits (remove_keys namespace keys m)
  IsFit-remove_keys namespace [] m v = v
  IsFit-remove_keys namespace (key ∷ keys) m v =
      IsFit-remove_keys namespace keys _ (IsFit-remove Fits (build_cache_key namespace key) m v)

  IsFit-evict :
      (max_items : ℕ) (now : ℤ) (m : Dict (StoredEntry J))
      → IsFit Fits m
      → IsFit Fits (evict max_items now m)
  IsFit-evict max_items now m v = record {
    map = (evict_size max_items now m v.map).0;
    fits = λ k e found. v.fits k e (evict_sound max_items now m v.map k found).0;
  }

module _ {J : Serde} {W : Type 0} {P : Platform W} (s : HashMapStore J P) (Inv : W → Type 0)
    (Fits : String → StoredEntry J → Type 0) (guards : Guards Inv s.state (IsFit Fits)) where
  Ensures-update :
      (f : Dict (StoredEntry J) → Dict (StoredEntry J))
      → ((m : Dict (StoredEntry J)) → IsFit Fits m → IsFit Fits (f m))
      → (w : W) → Inv w
      → Inv (update s.state f w)
  Ensures-update f keep w i = guards.admits (f (s.state.read w)) w i (keep _ (guards.holds w i))

  -- What was found under the read lock fits the key.
  abbrev FoundFits : String → Option (StoredEntry J) × ℤ → Type 0
  FoundFits k (none, now) = Unit
  FoundFits k (some e, now) = Fits k e

  looked_up :
      (k : String) (o : Option (StoredEntry J)) (now : ℤ)
      → ((e : StoredEntry J) → o ≡ some e → Fits k e)
      → FoundFits k (o, now)
  looked_up k none now h = tt
  looked_up k (some e) now h = h e refl

  Ensures-serve :
      (k : String) (found : Option (StoredEntry J) × ℤ)
      → FoundFits k found
      → Ensures Inv (Found (Fits k)) (serve s k found)
  Ensures-serve k (none, now) h = returns tt
  Ensures-serve k (some e, now) h =
      Ensures-if (is_expired e now)
        (λ _. steps (Ensures-update (remove k) (IsFit-remove Fits k)) (λ _ _. returns tt))
        (λ _. returns h)

  Ensures-get :
      (namespace key : String)
      → Ensures Inv (Found (Fits (build_cache_key namespace key))) (get s namespace key)
  unfolding get
  Ensures-get namespace key =
      let k = build_cache_key namespace key in
      steps (λ w i. i)
        (λ w i.
          Ensures-serve k (lookup k (s.state.read w), now_ms P w)
            (looked_up k _ _ ((guards.holds w i).fits k)))

  Ensures-evict_by :
      (o : Option (EvictOnSetConfig (Platform.floats P)))
      → Ensures Inv (λ _. Unit {0}) (evict_by P s.state o)
  Ensures-evict_by none = returns tt
  Ensures-evict_by (some c) =
      Ensures-if _ (λ _. returns tt)
        (λ _.
          steps (λ w i. i)
            (λ w _. Ensures-if (should_evict P c w) (λ _. Ensures-modify evicts) (λ _. returns tt)))
    where
      evicts : (w : W) → Inv w → Inv (update s.state (evict c.max_items (now_ms P w)) w)
      evicts w i =
          Ensures-update (evict c.max_items (now_ms P w))
            (IsFit-evict Fits c.max_items (now_ms P w)) w i

  Ensures-set :
      (namespace key : String) (e : StoredEntry J)
      → Fits (build_cache_key namespace key) e
      → Ensures Inv (λ _. Unit {0}) (set s namespace key e)
  unfolding set maybe_evict
  Ensures-set namespace key e h =
      let k = build_cache_key namespace key in
      steps (Ensures-update (insert k e) (λ m. IsFit-insert Fits k e m h))
        (λ _ _. Ensures-bind (Ensures-evict_by s.evict_on_set) (λ _ _. returns tt))

  Ensures-remove_all_keys :
      (namespace : String) (keys : List String)
      → Ensures Inv (λ _. Unit {0}) (remove_all_keys s namespace keys)
  unfolding remove_all_keys
  Ensures-remove_all_keys namespace keys =
      steps (Ensures-update (remove_keys namespace keys) (IsFit-remove_keys Fits namespace keys))
        (λ _ _. returns tt)

  -- A HashMapStore, with any eviction, whose memory is in the guard of the invariant: every
  -- interleaving of reads, writes and removals keeps each key once in the map and each entry under a
  -- key that it fits, and a read gives only entries that fit the key asked for.
  pub hash_map_store-IsSafeStore : IsSafeStore (hash_map_store s) Inv Fits
  unfolding hash_map_store
  hash_map_store-IsSafeStore = record {
    reads = Ensures-get;
    writes = Ensures-set;
    removes = Ensures-remove_all_keys;
  }
