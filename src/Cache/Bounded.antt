-- ===== src/Cache/Bounded.antt =====
-- How many segments a call of Cache::swr takes (src/cache.rs).
use swr_cache.Base.{ℕ, ◌+◌, ◌*◌, Option, none, String, List, Result, length, arith, All}
use swr_cache.Base.Int.{ℤ}
use swr_cache.Base.Dict.{Dict}
use swr_cache.Base.Cell.{Cell}
use swr_cache.Base.Async.{Task}
use swr_cache.Base.Async.Interleave.{Config, Reach}
use swr_cache.Base.Async.Within.{Within, IsLeft, Reach-IsLeft}
use swr_cache.Platform.{Serde, Platform, JoinsAll}
use swr_cache.Error.{CacheError}
use swr_cache.Entry.{StoredEntry}
use swr_cache.Store.{Store}
use swr_cache.Tiered.{from_stores, tiered_store}
use swr_cache.Tiered.Bounded.{IsBoundedTier, get-Within, set-Within}
use swr_cache.Swr.Data
use swr_cache.Swr.Data.{Slot, Origin}
use swr_cache.Swr.Bounded.{swr_bounded, Within-set_get}
use swr_cache.Cache.Contract.{set_then_get}
use swr_cache.Cache.{new, get, set, swr}

-- A call of `swr` on a cache over any number of stores, beside any tasks, with their segments in
-- any order: at every moment the call can make only so many segments more that, with those that it
-- has made, they are within the sum of twice those of a read of each store, one sleep, one load and
-- eight. A mark of another load, or a task that never ends, makes it take no more. The sum counts
-- segments: in the model a lock is held within one, and a wait for it is none.
pub cache_bounded :
    {J : Serde} {W : Type 0} (P : Platform W) {t : Serde.TypeId J} (namespace key : String)
    (stores : List (Store J W)) (fresh_ms stale_ms : ℤ)
    (cell : Cell W (Dict (Slot (Serde.Val J t)))) (w0 w : W) (load : Origin J W t)
    (tasks : List (Task W)) (reading sleeping loading : ℕ)
    (now : Config W (Result CacheError (Option (Serde.Val J t))))
    → All (IsBoundedTier namespace key reading) stores
    → ((n : ℕ) → Within sleeping (Platform.sleep P n))
    → Within loading (load key)
    → (r : Reach
        (record {
          call = swr P (new P namespace stores fresh_ms stale_ms cell w0).0 key load;
          tasks = tasks;
          world = w;
        })
        now)
    → IsLeft (2 * (length stores * reading + 1) + sleeping + loading + 6) r
unfolding new swr Data.new from_stores tiered_store
cache_bounded P namespace key stores fresh_ms stale_ms cell w0 w load tasks reading sleeping loading
      now reads sleeps loads r =
    let c = (new P namespace stores fresh_ms stale_ms cell w0).0 in
    swr_bounded P c.swr_cache namespace key (length stores * reading + 1)
      (get-Within namespace key reading (from_stores stores) reads) load sleeping loading sleeps
      loads tasks w now r

-- A write on a cache over any number of stores and then a read of its key, beside any tasks, with
-- their segments in any order: at every moment the two can make only so many segments more that, with
-- those that they have made, they are within the sum of those of a write to each store and a read of
-- it, and three. The sum counts segments: in the model a lock is held within one, and a wait for it
-- is none.
pub get-set_bounded :
    {J : Serde} {W : Type 0} (P : Platform W) {t : Serde.TypeId J} (joins : JoinsAll P)
    (namespace key : String) (stores : List (Store J W)) (fresh_ms stale_ms : ℤ)
    (cell : Cell W (Dict (Slot (Serde.Val J t)))) (w0 w : W) (v : Serde.Val J t)
    (tasks : List (Task W)) (reading writing : ℕ)
    (now : Config W (Result CacheError (Option (Serde.Val J t))))
    → All (IsBoundedTier namespace key reading) stores
    → All (λ (S : Store J W). (e : StoredEntry J) → Within writing (S.set namespace key e)) stores
    → (r : Reach
        (record {
          call = set_then_get P (new P namespace stores fresh_ms stale_ms cell w0).0 key v;
          tasks = tasks;
          world = w;
        })
        now)
    → IsLeft (length stores * (writing + reading) + 3) r
unfolding new set get Data.new from_stores tiered_store
get-set_bounded P joins namespace key stores fresh_ms stale_ms cell w0 w v tasks reading writing now
      reads writes r =
    let c = (new P namespace stores fresh_ms stale_ms cell w0).0 in
    let l =
      Reach-IsLeft
        (Within-set_get P c.swr_cache namespace key (length stores * reading + 1)
          (get-Within namespace key reading (from_stores stores) reads) (length stores * writing)
          (λ e. set-Within P joins writing namespace key e (from_stores stores) writes) v none)
        r in
    let total = l.sum in record { left = l.left; call = l.call; sum = omega arith }
