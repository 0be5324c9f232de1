-- ===== src/Tests/Marks.antt =====
-- Several loads and a revalidation on a cache of two stores, until all have ended.
use swr_cache.Base.{◌≡◌, refl, true, false, String, List, [], ◌∷◌, All}
use swr_cache.Base.Int.{pos}
use swr_cache.Base.Dict.{contains_key}
use swr_cache.Base.Async.Guarantee.{Guarantees, returns, steps}
use swr_cache.Base.Async.Schedule.{scheduled, scheduled-Reach}
use swr_cache.Store.Guarantee.{StoreGuarantees}
use swr_cache.Memory.{hash_map_store}
use swr_cache.Memory.Guarantee.{hash_map_store-StoreGuarantees}
use swr_cache.Redis.{redis_store}
use swr_cache.Redis.Guarantee.{RedisGuarantee, redis_store-StoreGuarantees}
use swr_cache.Swr.{swr}
use swr_cache.Swr.Data
use swr_cache.Tiered
use swr_cache.Tiered.{TieredStore}
use swr_cache.Cache
use swr_cache.Cache.{Cache}
use swr_cache.Cache.Marks.{Load, loads, Same, cache_marks_released}
use swr_cache.Tests.Codec.{serde}
use swr_cache.Tests.World.{
  World, platform, joins_all, memory, marks, world, stale_one, nine, marks-IsCell,
}
use swr_cache.Tests.Servers.{redis, keeping, delete}
use swr_cache.Tests.Program.{program}

-- A HashMapStore in front of a RedisStore.
abbrev tiers : TieredStore serde World
tiers = record { tiers = hash_map_store memory ∷ redis_store platform redis keeping ∷ [] }

delete-Same : (ks : List String) (w : World) → Same marks w (delete ks w)
delete-Same [] w = refl
delete-Same (k ∷ ks) w = delete-Same ks _

redis-RedisGuarantee : RedisGuarantee redis (Same marks)
redis-RedisGuarantee = record {
  gets = λ _ k w. refl;
  sets = λ _ k text w. refl;
  sets_ex = λ _ k text ttl w. refl;
  dels = λ _ ks w. delete-Same ks w;
}

tiers-StoreGuarantees : All (λ S. StoreGuarantees S (Same marks)) tiers.tiers
tiers-StoreGuarantees = (
  hash_map_store-StoreGuarantees memory (Same marks) (λ w. refl) (λ m w. refl),
  (redis_store-StoreGuarantees platform keeping (Same marks) (λ w. refl) redis-RedisGuarantee, tt),
)

nine-Same : (key : String) → Guarantees (Same marks) (nine key)
nine-Same key = steps (λ w. refl) (λ w. returns)

-- A call of a key, and beside it another call of the same key and one of another key.
abbrev call : Load serde World true
call = record { key = "k"; origin = nine }

abbrev others : List (Load serde World true)
others = call ∷ record { key = "j"; origin = nine } ∷ []

abbrev own : Cache serde World true
own = (Cache.new platform "n" tiers.tiers (pos 10) (pos 20) marks (world [])).0

cache_marks_released_example :
    let end =
      scheduled 3 60
        (Cache.swr platform own "k" nine)
        (loads platform own others)
        (world stale_one) in
    contains_key "n:k" end.world.marks ≡ false
unfolding program swr Data.new Cache.new Cache.swr Tiered.from_stores Tiered.set Tiered.get
    Tiered.get_from Tiered.hit Tiered.populate Tiered.tiered_store
cache_marks_released_example =
    cache_marks_released platform joins_all "n" tiers.tiers (pos 10) (pos 20) marks (world []) "k"
      call others (world stale_one) _ _ _ marks-IsCell tiers-StoreGuarantees
      (λ n. steps (λ w. refl) (λ w. returns)) (nine-Same "k") (nine-Same "k", (nine-Same "j", tt))
      tt refl
      (scheduled-Reach 3 60 (Cache.swr platform own "k" nine) (loads platform own others)
        (world stale_one))
      (refl, (refl, (refl, (refl, (refl, tt)))))
