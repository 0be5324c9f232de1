-- ===== src/Memory/Guarantee.antt =====
-- A HashMapStore writes to its own memory only (src/stores/memory.rs).
use swr_cache.Base.{Option, none, some, String}
use swr_cache.Base.Int.{ℤ}
use swr_cache.Base.Dict.{Dict}
use swr_cache.Base.Async.Guarantee.{Guarantees, returns, steps, Guarantees-if, Guarantees-bind}
use swr_cache.Platform.{Serde, Platform}
use swr_cache.Utils.{build_cache_key}
use swr_cache.Entry.{StoredEntry, is_expired}
use swr_cache.Memory.{
  EvictOnSetConfig, HashMapStore, should_evict, evict_by, maybe_evict, serve, get, set,
  remove_all_keys, hash_map_store,
}
use swr_cache.Store.Guarantee.{StoreGuarantees}

module _ {J : Serde} {W : Type 0} {P : Platform W} (s : HashMapStore J P) (R : W → W → Type 0)
    (same : (w : W) → R w w)
    (writes : (m : Dict (StoredEntry J)) (w : W) → R w (s.state.write m w)) where
  Guarantees-serve :
      (k : String) (found : Option (StoredEntry J) × ℤ) → Guarantees R (serve s k found)
  Guarantees-serve k (none, now) = returns
  Guarantees-serve k (some e, now) =
      Guarantees-if (is_expired e now) (steps (λ w. writes _ w) (λ w. returns)) returns

  Guarantees-evict_by :
      (o : Option (EvictOnSetConfig (Platform.floats P))) → Guarantees R (evict_by P s.state o)
  Guarantees-evict_by none = returns
  Guarantees-evict_by (some c) = Guarantees-if _ returns (
      steps same (λ w.
        Guarantees-if (should_evict P c w) (steps (λ w'. writes _ w') (λ w'. returns)) returns))

  -- The memory of a HashMapStore is all that its methods write to.
  pub hash_map_store-StoreGuarantees : StoreGuarantees (hash_map_store s) R
  unfolding hash_map_store get set remove_all_keys maybe_evict
  hash_map_store-StoreGuarantees = record {
    gets = λ namespace key. steps same (λ w. Guarantees-serve (build_cache_key namespace key) _);
    sets = λ namespace key e.
        steps (λ w. writes _ w)
          (λ w. Guarantees-bind (Guarantees-evict_by s.evict_on_set) (λ _. returns));
    removes = λ namespace keys. steps (λ w. writes _ w) (λ w. returns);
  }
