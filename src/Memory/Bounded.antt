-- ===== src/Memory/Bounded.antt =====
-- How many segments a read and a write of a HashMapStore take (src/stores/memory.rs).
use swr_cache.Base.{Option, none, some, String}
use swr_cache.Base.Int.{ℤ}
use swr_cache.Base.Async.Within.{Within, ends, takes, Within-if, Within-bind}
use swr_cache.Platform.{Serde, Platform}
use swr_cache.Entry.{StoredEntry, is_expired}
use swr_cache.Memory.{
  HashMapStore, EvictOnSetConfig, should_evict, evict_by, maybe_evict, serve, get, set,
}

module _ {J : Serde} {W : Type 0} {P : Platform W} (s : HashMapStore J P) where
  Within-serve :
      (cache_key : String) (found : Option (StoredEntry J) × ℤ) → Within 1 (serve s cache_key found)
  Within-serve cache_key (none, now) = ends
  Within-serve cache_key (some stored, now) =
      Within-if (is_expired stored now) (takes (λ _. ends)) ends

  -- The look under the read lock, and the removal under the write lock.
  pub get-Within : (namespace key : String) → Within 2 (get s namespace key)
  unfolding get
  get-Within namespace key = takes (λ w. Within-serve _ _)

  Within-evict_by :
      (o : Option (EvictOnSetConfig (Platform.floats P))) → Within 2 (evict_by P s.state o)
  Within-evict_by none = ends
  Within-evict_by (some config) =
      Within-if _ ends (takes (λ w. Within-if (should_evict P config w) (takes (λ _. ends)) ends))

  -- The write under the lock, the look whether to evict, and the eviction.
  pub set-Within : (namespace key : String) (e : StoredEntry J) → Within 3 (set s namespace key e)
  unfolding set maybe_evict
  set-Within namespace key e =
      takes (λ w. Within-bind {k = 0} (Within-evict_by s.evict_on_set) (λ _. ends))
