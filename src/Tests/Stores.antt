-- ===== src/Tests/Stores.antt =====
-- A MetricsStore, a MokaStore and a RedisStore.
use swr_cache.Base.{Bool, Option, ◌≡◌, ◌⊎◌, ◌+◌, ◌*◌, refl, none, some, [], ◌∷◌, ok, arith}
use swr_cache.Base.Int.{pos, ◌<ℤ◌, ◌≤ℤ◌}
use swr_cache.Base.Async.Exec.{exec}
use swr_cache.Metrics.{CacheEntryStatus, read_metric, write_metric, remove_metric, fresh}
use swr_cache.Metrics
use swr_cache.Metrics.Transparent.{Tells, get_emits, set_remove_emit}
use swr_cache.Redis
use swr_cache.Redis.Expiry
use swr_cache.Tests.Codec.{serde}
use swr_cache.Tests.World.{platform, seven, world, one}
use swr_cache.Tests.Servers.{metrics, redis, redis-Keeps, expiring, old_text}
use swr_cache.Tests.Program.{program}

get_emits_example :
    (hit : Bool) × (status : Option CacheEntryStatus) × Tells
      (ok (some (seven 105 110)))
      (pos 100)
      hit
      status
    × (exec (Metrics.get metrics "n" "k") (world one) ≡ record {
      result = ok (some (seven 105 110));
      world = record (world one) { emitted = read_metric "k" hit status 0 "hashmap" "n" ∷ [] };
      spawned = [];
    })
unfolding program
get_emits_example = get_emits metrics "n" (world one) "k"

ttl_bounds_example :
    let ttl = Redis.calculate_ttl_seconds platform (pos 2600) (world []) in
    ((pos 2500 <ℤ pos 1000) × (ttl ≡ 1))
    ⊎ ((pos 1000 ≤ℤ pos 2500)
        × (pos (ttl * 1000) ≤ℤ pos 2500)
        × (pos 2500 <ℤ pos (ttl * 1000 + 1000)))
unfolding program
ttl_bounds_example = Expiry.ttl_bounds platform (pos 2600) (world []) (omega arith, omega arith)

get-set_redis_example :
    (exec
      (Redis.get {J = serde} platform redis expiring "n" "k")
      (record (world []) { texts = ("n:k", old_text) ∷ [] })).result
    ≡ ok none
unfolding program
get-set_redis_example =
    Expiry.get-set_redis {J = serde} platform redis expiring "n" "k" old_text (pos 8) (pos 9)
      (world []) redis-Keeps refl refl

set_remove_emit_example :
    (exec (Metrics.set metrics "n" "k" (seven 105 110)) (world one) ≡ record {
      result = ok tt;
      world = record (world one) { emitted = write_metric "k" 0 "hashmap" "n" ∷ [] };
      spawned = [];
    })
    × (exec (Metrics.remove metrics "n" ("k" ∷ [])) (world one) ≡ record {
      result = ok tt;
      world = record (world []) { emitted = remove_metric 1 (some "k") 0 "hashmap" "n" ∷ [] };
      spawned = [];
    })
unfolding program
set_remove_emit_example = set_remove_emit metrics "n" (world one) "k" (seven 105 110) ("k" ∷ [])
