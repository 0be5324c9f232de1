-- ===== src/Cache/Safety.antt =====
-- Caches that Cache::new makes over any stores, under any interleaving (src/cache.rs).
use swr_cache.Base.{ℕ, ◌≡◌, Option, String, List, Result, All}
use swr_cache.Base.Int.{ℤ}
use swr_cache.Base.Dict.{Dict}
use swr_cache.Base.Cell.{Cell, Guards}
use swr_cache.Base.Async.{Task, ret}
use swr_cache.Base.Async.Safe.{Keeps, Ensures}
use swr_cache.Base.Async.Interleave.{Config, Reach}
use swr_cache.Platform.{JoinsAll, Serde, RoundTrips, Platform}
use swr_cache.Utils.{build_cache_key}
use swr_cache.Error.{CacheError}
use swr_cache.Entry.Carries.{Carries, convert-Carries}
use swr_cache.Store.{Store}
use swr_cache.Store.Safety.{IsSafeStore}
use swr_cache.Tiered.{from_stores}
use swr_cache.Tiered.Safety.{tiered_store-IsSafeStore}
use swr_cache.Swr.Data
use swr_cache.Swr.Data.{Slot, Origin}
use swr_cache.Swr.Safety.Values.{RightOption, RightAnswer}
use swr_cache.Swr.Safety.Schedules.{swr_interleaved}
use swr_cache.Cache.{new, swr}

-- A call of `swr` on a cache over any number of safe stores, beside any tasks that keep the
-- invariant, with their segments in any order: it never ends in an error, and a value that it ends
-- in is right for its key, provided that the origin gives only such values.
pub cache_interleaved :
    {J : Serde} {W : Type 0} (P : Platform W) {t : Serde.TypeId J} (Inv : W → Type 0)
    (Right : String → Serde.Val J t → Type 0) (namespace key : String) (stores : List (Store J W))
    (fresh_ms stale_ms : ℤ) (cell : Cell W (Dict (Slot (Serde.Val J t)))) (w0 w : W)
    (load : Origin J W t) (tasks : List (Task W))
    (now : Config W (Result CacheError (Option (Serde.Val J t))))
    (answer : Result CacheError (Option (Serde.Val J t)))
    → All (λ S. IsSafeStore S Inv (λ k. Carries t (Right k))) stores
    → JoinsAll P
    → Guards Inv cell (λ _. Unit {0})
    → ((n : ℕ) → Ensures Inv (λ _. Unit {0}) (Platform.sleep P n))
    → RoundTrips J
    → Ensures Inv (RightOption (Right (build_cache_key namespace key))) (load key)
    → All (Keeps Inv) tasks
    → Inv w
    → Reach
        (record {
          call = swr P (new P namespace stores fresh_ms stale_ms cell w0).0 key load;
          tasks = tasks;
          world = w;
        })
        now
    → now.call ≡ ret answer
    → Inv now.world × RightAnswer (Right (build_cache_key namespace key)) answer
unfolding new swr Data.new from_stores
cache_interleaved P {t} Inv Right namespace key stores fresh_ms stale_ms cell w0 w load tasks now
      answer safe joins marks sleeps r loads kept i =
    let c = (new P namespace stores fresh_ms stale_ms cell w0).0 in
    swr_interleaved P c.swr_cache Inv Right
      (tiered_store-IsSafeStore P (from_stores stores) Inv (λ k. Carries t (Right k))
        (λ k mode e e'. convert-Carries t (Right k) mode e e') joins safe)
      marks sleeps r namespace key load tasks w now answer loads kept i
