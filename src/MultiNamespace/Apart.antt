-- ===== src/MultiNamespace/Apart.antt =====
-- What the two caches of the program see of each other (src/examples/multi_namespace.rs).
use swr_cache.Base.{ℕ, ◌≡◌, String, List, [], Result, ok, err, All}
use swr_cache.Base.Cell.{Guards}
use swr_cache.Base.Async.{Task, ret, ◌>>?◌}
use swr_cache.Base.Async.Safe.{Keeps, Ensures, returns, steps, Ensures-bind}
use swr_cache.Base.Async.Interleave.{Config, Reach, Reach-IsSafe}
use swr_cache.Platform.{JoinsAll, Serde, RoundTrips, Platform}
use swr_cache.Error.{CacheError}
use swr_cache.Entry.{StorageMode, StoredEntry, convert_for_mode}
use swr_cache.Entry.Carries.{text-Carries, convert-Carries}
use swr_cache.Store.Safety.{IsSafeStore}
use swr_cache.Moka
use swr_cache.Moka.{MokaCrate, MokaStore, moka_store}
use swr_cache.Moka.Safety.{MokaKeeps, moka_store-IsSafeStore}
use swr_cache.Redis.{RedisCrate, RedisStore, redis_store}
use swr_cache.Redis.Safety.{RedisKeeps, Ensures-new, redis_store-IsSafeStore}
use swr_cache.Tiered.{from_stores}
use swr_cache.Tiered.Safety.{tiered_store-IsSafeStore}
use swr_cache.Swr.Data
use swr_cache.Cache
use swr_cache.MultiNamespace.{Types, Shared, with_stores, main}
use swr_cache.MultiNamespace.Lines.{RightUser, UserFits, UserTexts, IsGoodLine, Ensures-use_caches}

module _ {J : Serde} {T : Types J} {W : Type 0} (shared : Shared T W) (P : Platform W)
    (Inv : W → Type 0) (lines : Guards Inv (Shared.printed shared) (All (IsGoodLine T)))
    (users : Guards Inv (Shared.users shared) (λ _. Unit {0}))
    (api_keys : Guards Inv (Shared.api_keys shared) (λ _. Unit {0}))
    (sleeps : (n : ℕ) → Ensures Inv (λ _. Unit {0}) (Platform.sleep P n)) (joins : JoinsAll P)
    (r : RoundTrips J) (M : MokaCrate J W) (R : RedisCrate W)
    (moka : (c : MokaCrate.Cache M) → MokaKeeps M c Inv (UserFits T))
    (builds : (b : MokaCrate.Builder M) (w : W) → Inv w → Inv (MokaCrate.build M b w).1)
    (redis : (c : RedisCrate.Connection R) → RedisKeeps R c Inv (UserTexts T))
    (connects : (c : RedisCrate.Client R) (w : W) → Inv w → Inv (RedisCrate.connect R c w).1) where
  near_safe : (l1 : MokaStore M) → IsSafeStore (moka_store M P l1) Inv (UserFits T)
  near_safe l1 = moka_store-IsSafeStore M P l1 Inv (UserFits T) (moka l1.cache)

  far_safe : (l2 : RedisStore R) → IsSafeStore (redis_store P R l2) Inv (UserFits T)
  far_safe l2 =
      redis_store-IsSafeStore P R l2 Inv (UserFits T) (UserTexts T)
        (λ k json fresh stale h. text-Carries _ (RightUser T k) json fresh stale _ _ h)
        (λ k json fresh stale h. text-Carries _ (RightUser T k) json _ _ fresh stale h)
        (redis l2.connection)

  converts :
      (k : String) (mode : StorageMode) (e e' : StoredEntry J)
      → convert_for_mode e mode ≡ ok e'
      → UserFits T k e
      → UserFits T k e'
  converts k mode e e' converted fit = convert-Carries _ (RightUser T k) mode e e' converted fit

  Ensures-with_stores :
      (l1 : MokaStore M) (l2 : RedisStore R)
      → Ensures Inv (λ _. Unit {0}) (with_stores shared P M R l1 l2)
  unfolding with_stores Cache.new Data.new from_stores
  Ensures-with_stores l1 l2 =
      steps (λ w i. users.admits [] w i tt)
        (λ w _.
          steps (λ w' i. api_keys.admits [] w' i tt)
            (λ _ _.
              Ensures-use_caches shared P Inv lines users api_keys sleeps joins r _ _
                (tiered_store-IsSafeStore P _ Inv (UserFits T) converts joins
                  (near_safe l1, (far_safe l2, tt)))
                (tiered_store-IsSafeStore P _ Inv (UserFits T) converts joins (near_safe l1, tt))
                users))

  opened_stores :
      (l1 : MokaStore M) (opened : Result CacheError (RedisStore R))
      → Ensures Inv (λ _. Unit {0}) (ret opened >>? with_stores shared P M R l1)
  opened_stores l1 (ok l2) = Ensures-with_stores l1 l2
  opened_stores l1 (err x) = returns tt

  Ensures-main : Ensures Inv (λ _. Unit {0}) (main shared P M R)
  unfolding main Moka.new
  Ensures-main =
      steps (λ w i. builds _ w i)
        (λ w _. Ensures-bind (Ensures-new R Inv connects _) (λ opened _. opened_stores _ opened))

  -- The program beside tasks that keep an invariant, from a world where it holds, with all segments in
  -- any order: at every moment, each line that it has printed is in order. The invariant has every
  -- line printed so far in order, and under each key of the two stores only what may stand there, the
  -- program's own user under that user's key; moka, redis and the timer keep it. A user that the
  -- program prints is then one that a closure of its own gave, and the key of the other cache is never
  -- found in the cache of users, though both have one store.
  pub main_interleaved :
      (tasks : List (Task W)) (w : W) (now : Config W (Result CacheError (Unit {0})))
      → All (Keeps Inv) tasks
      → Inv w
      → Reach (record { call = main shared P M R; tasks = tasks; world = w }) now
      → All (IsGoodLine T) ((Shared.printed shared).read now.world)
  main_interleaved tasks w now kept i reach =
      lines.holds _
        (Reach-IsSafe (record { call = Ensures-main; tasks = kept; world = i }) reach).world
