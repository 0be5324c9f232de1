-- ===== src/Swr/Safety/Schedules.antt =====
-- `swr` among any tasks, in any order of their segments (src/swr.rs).
use swr_cache.Base.{ℕ, ◌≡◌, Option, String, List, [], ◌∷◌, Result, All}
use swr_cache.Base.Cell.{Guards}
use swr_cache.Base.Async.{Task, ret, task_of}
use swr_cache.Base.Async.Safe.{Keeps, Ensures, Keeps-task_of}
use swr_cache.Base.Async.Interleave.{Config, Reach, Reach-result}
use swr_cache.Platform.{Serde, RoundTrips, Platform}
use swr_cache.Utils.{build_cache_key}
use swr_cache.Error.{CacheError}
use swr_cache.Entry.Carries.{Carries}
use swr_cache.Store.Safety.{Found, IsSafeStore}
use swr_cache.Swr.Data.{SwrCache, SetOptions, Origin}
use swr_cache.Swr.Direct.{get, set, remove_key}
use swr_cache.Swr.{revalidation, swr}
use swr_cache.Swr.Safety.Values.{RightOption, RightAnswer}
use swr_cache.Swr.Safety.Reads.{Ensures-get}
use swr_cache.Swr.Safety.Calls.{Ensures-set, Ensures-remove_key, Ensures-revalidation, Ensures-swr}

module _ {J : Serde} {W : Type 0} (P : Platform W) {t : Serde.TypeId J} (c : SwrCache J W t)
    (Inv : W → Type 0) (Right : String → Serde.Val J t → Type 0)
    (store : IsSafeStore c.store Inv (λ k. Carries t (Right k)))
    (marks : Guards Inv c.revalidating (λ _. Unit {0}))
    (sleeps : (n : ℕ) → Ensures Inv (λ _. Unit {0}) (Platform.sleep P n)) (r : RoundTrips J)
    (namespace key : String) where
  -- The values that are right for the key.
  abbrev pub RightHere : Serde.Val J t → Type 0
  RightHere = Right (build_cache_key namespace key)

  -- A call of `swr` beside any tasks that keep the invariant, with their segments in any order: the
  -- invariant still holds, and if the call has ended, then not with an error, and only with a value
  -- that is right for its key, provided that the origin gives only such values.
  pub swr_interleaved :
      (load : Origin J W t) (tasks : List (Task W)) (w : W)
      (now : Config W (Result CacheError (Option (Serde.Val J t))))
      (answer : Result CacheError (Option (Serde.Val J t)))
      → Ensures Inv (RightOption RightHere) (load key)
      → All (Keeps Inv) tasks
      → Inv w
      → Reach (record { call = swr P c namespace key load; tasks = tasks; world = w }) now
      → now.call ≡ ret answer
      → Inv now.world × RightAnswer RightHere answer
  swr_interleaved load tasks w now answer loads kept i = Reach-result (record {
    call = Ensures-swr P c Inv Right store marks sleeps r namespace key load loads;
    tasks = kept;
    world = i;
  })

  -- Likewise for a call of `get`, which may end in an error.
  pub get_interleaved :
      (tasks : List (Task W)) (w : W) (now : Config W (Result CacheError (Option (Serde.Val J t))))
      (answer : Result CacheError (Option (Serde.Val J t)))
      → All (Keeps Inv) tasks
      → Inv w
      → Reach (record { call = get P c namespace key; tasks = tasks; world = w }) now
      → now.call ≡ ret answer
      → Inv now.world × Found RightHere answer
  get_interleaved tasks w now answer kept i = Reach-result (record {
    call = Ensures-get P c Inv Right store marks sleeps r namespace key;
    tasks = kept;
    world = i;
  })

  -- The cache's own calls are such tasks: writes of values that are right for the key, removals,
  -- revalidations and calls of `swr` whose origin gives only such values.
  pub calls-Keeps :
      (load : Origin J W t) (v : Serde.Val J t) (opts : Option SetOptions)
      → Ensures Inv (RightOption RightHere) (load key)
      → RightHere v
      → All (Keeps Inv) (
          task_of (set P c namespace key v opts)
          ∷ task_of (remove_key c namespace key)
          ∷ task_of (get P c namespace key)
          ∷ task_of (revalidation P c namespace key load)
          ∷ task_of (swr P c namespace key load)
          ∷ [])
  calls-Keeps load v opts loads h = (
    Keeps-task_of (Ensures-set P c Inv Right store marks sleeps r namespace key v opts h),
    (
      Keeps-task_of (Ensures-remove_key P c Inv Right store marks sleeps r namespace key),
      (
        Keeps-task_of (Ensures-get P c Inv Right store marks sleeps r namespace key),
        (
          Keeps-task_of
              (Ensures-revalidation P c Inv Right store marks sleeps r namespace key load loads),
          (
            Keeps-task_of (Ensures-swr P c Inv Right store marks sleeps r namespace key load loads),
            tt,
          ),
        ),
      ),
    ),
  )
