-- ===== src/Memory/Lawful.antt =====
-- The contract of a store, for HashMapStore (src/stores/memory.rs, src/store.rs).
use swr_cache.Base.{◌≡◌, refl, none, String, List, arith}
use swr_cache.Base.Dict.{Dict, remove}
use swr_cache.Base.Async.Exec.{exec}
use swr_cache.Platform.{Serde, Platform}
use swr_cache.Utils.{build_cache_key, now_ms}
use swr_cache.Entry.{StoredEntry}
use swr_cache.Memory.{HashMapStore, hash_map_store, get, set, remove_all_keys}
use swr_cache.Memory.Access.{IsStore, live, get-live, get_state, remove_state}
use swr_cache.Memory.Writes.{
  written, world-set, spawned-set, maybe_evict_off, set_state, set-IsStore,
}
use swr_cache.Store.Laws.{IsRead, IsWrite, IsRemoval, IsLawful}

module _ {J : Serde} {W : Type 0} {P : Platform W} (s : HashMapStore J P) where
  -- The clock does not stand in the memory of the map.
  abbrev pub KeepsClock : Type 0
  KeepsClock = (m : Dict (StoredEntry J)) (w : W) → now_ms P (s.state.write m w) ≡ now_ms P w

  module _ (clock : KeepsClock) where
    clock-get :
        (namespace key : String) (w : W)
        → now_ms P (exec (get s namespace key) w).world ≡ now_ms P w
    unfolding get
    clock-get namespace key w =
        ground (arith, clock (remove (build_cache_key namespace key) (s.state.read w)) w)

    clock-set :
        (namespace key : String) (e : StoredEntry J) (w : W)
        → s.evict_on_set ≡ none
        → now_ms P (exec (set s namespace key e) w).world ≡ now_ms P w
    clock-set namespace key e w off =
        rw ((world-set s namespace key e w).1, maybe_evict_off s (written s namespace key e w) off)
          (clock _ w)

    clock-remove :
        (namespace : String) (keys : List String) (w : W)
        → now_ms P (exec (remove_all_keys s namespace keys) w).world ≡ now_ms P w
    unfolding remove_all_keys
    clock-remove namespace keys w = clock _ w

    module _ {w : W} (v : IsStore s w) where
      IsRead-lawful :
          (namespace key : String)
          → IsRead P (hash_map_store s) (IsStore s) (live s) namespace key w
      unfolding hash_map_store
      IsRead-lawful namespace key = record {
        quiet = record {
          inv = record { cell = v.cell; map = (get_state s v namespace key key).0 };
          spawned = (get-live s namespace key w).1;
          clock = clock-get namespace key w;
        };
        result = (get-live s namespace key w).0;
        views = λ k. ground (arith, clock-get namespace key w, get_state s v namespace key k);
      }

      IsWrite-lawful :
          (namespace key : String) (e : StoredEntry J)
          → s.evict_on_set ≡ none
          → IsWrite P (hash_map_store s) (IsStore s) (live s) namespace key e w
      unfolding hash_map_store
      IsWrite-lawful namespace key e off = record {
        quiet = record {
          inv = set-IsStore s v namespace key e;
          spawned = spawned-set s namespace key e w off;
          clock = clock-set namespace key e w off;
        };
        result = (set_state s v namespace key e key off).0;
        views = λ k.
            ground (arith, clock-set namespace key e w off, set_state s v namespace key e k off);
      }

      IsRemoval-lawful :
          (namespace : String) (keys : List String)
          → IsRemoval P (hash_map_store s) (IsStore s) (live s) namespace keys w
      unfolding hash_map_store
      IsRemoval-lawful namespace keys = record {
        quiet = record {
          inv = record { cell = v.cell; map = (remove_state s v namespace keys "").1 };
          spawned = unfold remove_all_keys in refl;
          clock = clock-remove namespace keys w;
        };
        result = (remove_state s v namespace keys "").0;
        views =
            λ k. ground (arith, clock-remove namespace keys w, remove_state s v namespace keys k);
      }

    -- A HashMapStore with no eviction configured, over memory that the clock does not share, is a
    -- map from composite keys to the entries that have not expired: reads, writes and removals all
    -- succeed, act on their own keys alone, and spawn nothing.
    pub hash_map_store-IsLawful :
        s.evict_on_set ≡ none → IsLawful P (hash_map_store s) (IsStore s) (live s)
    hash_map_store-IsLawful off = record {
      reads = λ namespace key w v. IsRead-lawful v namespace key;
      writes = λ namespace key e w v _. IsWrite-lawful v namespace key e off;
      removes = λ namespace keys w v. IsRemoval-lawful v namespace keys;
    }
