-- ===== src/Memory/Races.antt =====
-- A read and a write of one key, interleaved (src/stores/memory.rs, get).
use swr_cache.Base.{◌≡◌, true, none, some, String, ok, arith, str_eq_iff}
use swr_cache.Base.Dict.{lookup, remove, lookup-remove}
use swr_cache.Base.Async.Exec.{exec, advance}
use swr_cache.Platform.{Serde, Platform}
use swr_cache.Utils.{build_cache_key, now_ms}
use swr_cache.Entry.{StoredEntry, is_expired}
use swr_cache.Memory.{HashMapStore, get, set}
use swr_cache.Memory.Access.{IsStore}
use swr_cache.Memory.Writes.{world-set, set-IsStore}

module _ {J : Serde} {W : Type 0} {P : Platform W} (s : HashMapStore J P) where
  -- A read that finds an expired entry gives up the read lock before it takes the write lock. A
  -- write of the same key that runs in between succeeds and is lost: the read then removes what the
  -- write has put there, whatever its times are, and answers with a miss.
  pub write_lost :
      (namespace key : String) (old entry : StoredEntry J) (w : W)
      → IsStore s w
      → lookup (build_cache_key namespace key) (s.state.read w) ≡ some old
      → is_expired old (now_ms P w) ≡ true
      → let (rest, w') = advance (get s namespace key) w in
        let write = exec (set s namespace key entry) w' in
        let read = exec rest write.world in
        (write.result ≡ ok tt)
        × (read.result ≡ ok none)
        × (lookup (build_cache_key namespace key) (s.state.read read.world) ≡ none)
  unfolding get
  write_lost namespace key old entry w v there expired =
      let key' = build_cache_key namespace key in
      let w'' = (exec (set s namespace key entry) w).world in
      let v' = set-IsStore s v namespace key entry in
      (
        (world-set s namespace key entry w).0,
        ground arith,
        ground (
          arith,
          str_eq_iff key' key',
          lookup-remove key' key' (s.state.read w'') v'.map,
          v'.cell.read-write (remove key' (s.state.read w'')) w'',
        ),
      )
