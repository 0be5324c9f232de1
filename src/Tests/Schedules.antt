-- ===== src/Tests/Schedules.antt =====
-- Calls among other tasks, segment by segment.
use swr_cache.Base.{ℕ, Option, Result, refl, arith, true, none, [], ◌∷◌, All}
use swr_cache.Base.Int.{pos}
use swr_cache.Base.Async.{Task, Async, task_of, ret, ◌>>◌}
use swr_cache.Base.Async.Exec.{exec, advance_task}
use swr_cache.Base.Async.Safe.{Keeps}
use swr_cache.Base.Async.Interleave.{
  Config, Reach, here, later, other, Turn, takes, Reach-trans, queued, exec-Reach,
}
use swr_cache.Base.Async.Within.{Within, Within-le, IsLeft}
use swr_cache.Entry.Carries.{convert-Carries, text-Carries}
use swr_cache.Error.{CacheError}
use swr_cache.Entry.{StoredEntry}
use swr_cache.Store.{Store}
use swr_cache.Store.Safety.{IsSafeStore}
use swr_cache.Memory.{hash_map_store}
use swr_cache.Memory.Safety.{hash_map_store-IsSafeStore}
use swr_cache.Moka.{moka_store}
use swr_cache.Moka.Safety.{moka_store-IsSafeStore}
use swr_cache.Metrics.{metrics_store}
use swr_cache.Metrics.Safety.{metrics_store-IsSafeStore}
use swr_cache.Redis.{redis_store}
use swr_cache.Redis.Safety.{redis_store-IsSafeStore}
use swr_cache.Tiered.{TieredStore, tiered_store}
use swr_cache.Tiered.Safety.{tiered_store-IsSafeStore}
use swr_cache.Swr.{revalidation, swr}
use swr_cache.Swr.Safety.Schedules.{swr_interleaved, calls-Keeps}
use swr_cache.Swr.Safety.Values.{RightAnswer}
use swr_cache.Memory.Bounded as MemoryBounded
use swr_cache.Redis.Bounded as RedisBounded
use swr_cache.Tiered.Bounded.{IsBoundedTier}
use swr_cache.Cache
use swr_cache.Cache.{Cache}
use swr_cache.Cache.Safety.{cache_interleaved}
use swr_cache.Cache.Bounded.{cache_bounded, get-set_bounded}
use swr_cache.Tests.Codec.{serde, serde-RoundTrips}
use swr_cache.Tests.World.{
  joins_all, World, platform, memory, small_memory, cache, marks, world, nine,
}
use swr_cache.Tests.Servers.{redis, keeping, moka, moka_memory, metrics}
use swr_cache.Tests.Safety.{
  Small, Fits, Texts, IsRight, empty-IsRight, entries-Guards, marks-Guards, sleeps,
  nine-RightOption, redis-RedisKeeps, moka-MokaKeeps,
}
use swr_cache.Tests.Program.{program}

memory_safe : IsSafeStore (hash_map_store memory) (IsRight Small) (Fits Small)
memory_safe = hash_map_store-IsSafeStore memory (IsRight Small) (Fits Small) (entries-Guards Small)

redis_safe : IsSafeStore (redis_store platform redis keeping) (IsRight Small) (Fits Small)
redis_safe =
    redis_store-IsSafeStore platform redis keeping (IsRight Small) (Fits Small) (Texts Small)
      (λ k json fresh stale h. text-Carries true (Small k) json fresh stale (pos 0) (pos 0) h)
      (λ k json fresh stale h. text-Carries true (Small k) json (pos 0) (pos 0) fresh stale h)
      (redis-RedisKeeps Small)

-- A HashMapStore in front of a RedisStore.
abbrev tiered : TieredStore serde World
tiered = record { tiers = hash_map_store memory ∷ redis_store platform redis keeping ∷ [] }

tiered_safe : All (λ S. IsSafeStore S (IsRight Small) (Fits Small)) tiered.tiers
tiered_safe = (memory_safe, (redis_safe, tt))

hash_map_store-IsSafeStore_example :
    IsSafeStore (hash_map_store small_memory) (IsRight Small) (Fits Small)
hash_map_store-IsSafeStore_example =
    hash_map_store-IsSafeStore small_memory (IsRight Small) (Fits Small) (entries-Guards Small)

redis_store-IsSafeStore_example :
    IsSafeStore (redis_store platform redis keeping) (IsRight Small) (Fits Small)
redis_store-IsSafeStore_example =
    redis_store-IsSafeStore platform redis keeping (IsRight Small) (Fits Small) (Texts Small)
      (λ k json fresh stale h. text-Carries true (Small k) json fresh stale (pos 0) (pos 0) h)
      (λ k json fresh stale h. text-Carries true (Small k) json (pos 0) (pos 0) fresh stale h)
      (redis-RedisKeeps Small)

moka_store-IsSafeStore_example :
    IsSafeStore (moka_store moka platform moka_memory) (IsRight Small) (Fits Small)
moka_store-IsSafeStore_example =
    moka_store-IsSafeStore moka platform moka_memory (IsRight Small) (Fits Small)
      (moka-MokaKeeps Small)

metrics_store-IsSafeStore_example : IsSafeStore (metrics_store metrics) (IsRight Small) (Fits Small)
metrics_store-IsSafeStore_example =
    metrics_store-IsSafeStore metrics (IsRight Small) (Fits Small)
      (λ m w i. record { entries = i.entries; texts = i.texts; lines = i.lines })
      (hash_map_store-IsSafeStore memory (IsRight Small) (Fits Small) (entries-Guards Small))

tiered_store-IsSafeStore_example :
    IsSafeStore (tiered_store platform tiered) (IsRight Small) (Fits Small)
tiered_store-IsSafeStore_example =
    tiered_store-IsSafeStore platform tiered (IsRight Small) (Fits Small)
      (λ k mode e e' converted fit. convert-Carries true (Small k) mode e e' converted fit)
      joins_all tiered_safe

-- A revalidation beside the calls, and what is left of it when it has seen no mark.
abbrev beside : Task World
beside = task_of (revalidation platform cache "n" "k" nine)

abbrev begun : Task World
begun = (advance_task beside (world [])).0

beside-Keeps : Keeps (IsRight Small) beside
beside-Keeps =
    (calls-Keeps platform cache (IsRight Small) Small memory_safe (marks-Guards Small)
      (sleeps Small) serde-RoundTrips "n" "k" nine 9 none nine-RightOption (omega arith)).1.1.1.0

begins : Turn beside (world []) (world []) (begun ∷ [])
unfolding program revalidation
begins = takes _ _ (world [])

-- The revalidation starts, and the call then runs to its end.
module _ {A : Type 0} (call : Async World A) where
  abbrev start : Config World A
  start = record { call = call; tasks = beside ∷ []; world = world [] }

  abbrev end : Config World A
  end = record {
    call = ret (exec call (world [])).result;
    tasks = queued call (world []) (begun ∷ []);
    world = (exec call (world [])).world;
  }

  ends : Reach start end
  ends =
      Reach-trans (later here (other [] [] (begun ∷ []) beside (world []) refl begins refl))
        (exec-Reach call (begun ∷ []) (world []))

swr_interleaved_example :
    let o = exec (swr platform cache "n" "k" nine) (world []) in
    (IsRight Small) o.world × RightAnswer (Small "n:k") o.result
swr_interleaved_example =
    swr_interleaved platform cache (IsRight Small) Small memory_safe (marks-Guards Small)
      (sleeps Small) serde-RoundTrips "n" "k" nine (beside ∷ []) (world [])
      (end (swr platform cache "n" "k" nine)) _ nine-RightOption (beside-Keeps, tt)
      (empty-IsRight Small) (ends (swr platform cache "n" "k" nine)) refl

abbrev tiered_cache : Cache serde World true
tiered_cache = (Cache.new platform "n" tiered.tiers (pos 10) (pos 20) marks (world [])).0

cache_interleaved_example :
    let o = exec (Cache.swr platform tiered_cache "k" nine) (world []) in
    (IsRight Small) o.world × RightAnswer (Small "n:k") o.result
cache_interleaved_example =
    cache_interleaved platform (IsRight Small) Small "n" "k" tiered.tiers (pos 10) (pos 20) marks
      (world []) (world []) nine (beside ∷ []) (end (Cache.swr platform tiered_cache "k" nine)) _
      tiered_safe joins_all (marks-Guards Small) (sleeps Small) serde-RoundTrips nine-RightOption
      (beside-Keeps, tt) (empty-IsRight Small) (ends (Cache.swr platform tiered_cache "k" nine))
      refl

tiered_bounded : All (IsBoundedTier "n" "k" 3) tiered.tiers
unfolding hash_map_store redis_store
tiered_bounded = (
  Within-le {n = 2} (omega arith) (MemoryBounded.get-Within memory "n" "k"),
  (RedisBounded.get-Within platform keeping "n" "k", tt),
)

cache_bounded_example : IsLeft 22 (ends (Cache.swr platform tiered_cache "k" nine))
cache_bounded_example =
    cache_bounded platform "n" "k" tiered.tiers (pos 10) (pos 20) marks (world []) (world []) nine
      (beside ∷ []) 3 1 1 (end (Cache.swr platform tiered_cache "k" nine)) tiered_bounded
      (λ n. Within.takes (λ w. Within.ends)) (Within.takes (λ w. Within.ends))
      (ends (Cache.swr platform tiered_cache "k" nine))

abbrev write_then_read : Async World (Result CacheError (Option ℕ))
write_then_read = do Cache.set platform tiered_cache "k" 9; Cache.get platform tiered_cache "k"

writes_bounded :
    All
      (λ (S : Store serde World). (e : StoredEntry serde) → Within 3 (S.set "n" "k" e))
      tiered.tiers
unfolding hash_map_store redis_store
writes_bounded = (
  λ e. MemoryBounded.set-Within memory "n" "k" e,
  (λ e. Within-le {n = 2} (omega arith) (RedisBounded.set-Within platform keeping "n" "k" e), tt),
)

get-set_bounded_example : IsLeft 15 (ends write_then_read)
get-set_bounded_example =
    get-set_bounded platform joins_all "n" "k" tiered.tiers (pos 10) (pos 20) marks (world [])
      (world []) 9 (beside ∷ []) 3 3 (end write_then_read) tiered_bounded writes_bounded
      (ends write_then_read)
