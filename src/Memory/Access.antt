-- ===== src/Memory/Access.antt =====
-- What reads, writes and removals of a HashMapStore do (src/stores/memory.rs).
use swr_cache.Base.{
  ◌≡◌, refl, not, Option, none, String, List, [], ◌∷◌, ok, arith, if◌then◌else◌, str_eq, str_eq_iff,
}
use swr_cache.Base.Dict.{Dict, IsMap, filter_some, lookup, remove, lookup-remove, IsMap-remove}
use swr_cache.Base.Cell.{IsCell}
use swr_cache.Base.Async.Exec.{exec}
use swr_cache.Platform.{Serde, Platform}
use swr_cache.Utils.{build_cache_key, now_ms}
use swr_cache.Entry.{StoredEntry, is_expired}
use swr_cache.Store.Laws.{mentions}
use swr_cache.Memory.{HashMapStore, get, remove_keys, remove_all_keys}

module _ {J : Serde} where
  pub IsMap-remove_keys :
      (namespace : String) (keys : List String) (m : Dict (StoredEntry J))
      → IsMap m
      → IsMap (remove_keys namespace keys m)
  IsMap-remove_keys namespace [] m d = d
  IsMap-remove_keys namespace (key ∷ keys) m d =
      IsMap-remove_keys namespace keys _ (IsMap-remove (build_cache_key namespace key) m d)

  pub lookup-remove_keys :
      (namespace : String) (keys : List String) (k : String) (m : Dict (StoredEntry J))
      → IsMap m
      → lookup k (remove_keys namespace keys m)
        ≡ (if mentions namespace keys k then none else lookup k m)
  lookup-remove_keys namespace [] k m d = refl
  lookup-remove_keys namespace (key ∷ keys) k m d =
      let key' = build_cache_key namespace key in
      let rest = lookup-remove_keys namespace keys k (remove key' m) (IsMap-remove key' m d) in
      ground (arith, rest, lookup-remove key' k m d)

module _ {J : Serde} {W : Type 0} {P : Platform W} (s : HashMapStore J P) where
  -- The entry under a key that has not expired at the clock's time.
  abbrev pub live : W → String → Option (StoredEntry J)
  live w k = filter_some (λ e. not (is_expired e (now_ms P w))) (lookup k (s.state.read w))

  -- The lock's memory is a cell, and a key stands once in the map.
  pub record IsStore (w : W) : Type 0 where
    pub cell : IsCell s.state
    pub map : IsMap (s.state.read w)

  -- A read answers with the entry under the composite key unless that has expired, never fails, and
  -- spawns nothing.
  pub get-live :
      (namespace key : String) (w : W)
      → let o = exec (get s namespace key) w in
        (o.result ≡ ok (live w (build_cache_key namespace key))) × (o.spawned ≡ [])
  unfolding get
  get-live namespace key w = ground arith

  module _ {w : W} (v : IsStore w) where
    open v use {cell, map}

    -- After a read the map is what it was, but that an expired entry under the key is gone.
    pub get_state :
        (namespace key k : String)
        → let w' = (exec (get s namespace key) w).world in
          IsMap (s.state.read w')
          × (lookup k (s.state.read w') ≡ (
              if str_eq (build_cache_key namespace key) k
              then live w k
              else lookup k (s.state.read w)))
    unfolding get
    get_state namespace key k =
        let key' = build_cache_key namespace key in
        ground (
          arith,
          lookup-remove key' k (s.state.read w) map,
          IsMap-remove key' (s.state.read w) map,
          cell.read-write (remove key' (s.state.read w)) w,
          str_eq_iff key' k,
        )

    -- A removal never fails; it takes away the entries of the keys that it names, and no other.
    pub remove_state :
        (namespace : String) (keys : List String) (k : String)
        → let o = exec (remove_all_keys s namespace keys) w in
          (o.result ≡ ok tt)
          × IsMap (s.state.read o.world)
          × (lookup k (s.state.read o.world)
              ≡ (if mentions namespace keys k then none else lookup k (s.state.read w)))
    unfolding remove_all_keys
    remove_state namespace keys k = (
      refl,
      rw (cell.read-write (remove_keys namespace keys (s.state.read w)) w)
          (IsMap-remove_keys namespace keys (s.state.read w) map),
      rw (cell.read-write (remove_keys namespace keys (s.state.read w)) w)
          (lookup-remove_keys namespace keys k (s.state.read w) map),
    )
