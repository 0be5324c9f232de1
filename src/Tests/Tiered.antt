-- ===== src/Tests/Tiered.antt =====
-- A HashMapStore in front of a RedisStore.
use swr_cache.Base.{◌≡◌, refl, err, some, [], ◌∷◌, ok}
use swr_cache.Base.Async.{task_of}
use swr_cache.Base.Async.Exec.{exec, run_task}
use swr_cache.Base.Int.{pos}
use swr_cache.Base.{String}
use swr_cache.Entry.{serialized}
use swr_cache.Memory.Access.{IsStore, live}
use swr_cache.Memory.Lawful.{hash_map_store-IsLawful}
use swr_cache.Tiered.Races.{fill_overwrites}
use swr_cache.Store.{Store}
use swr_cache.Memory.{hash_map_store}
use swr_cache.Redis.{redis_store}
use swr_cache.Tiered.{TieredStore, populate, get, set, set_tier, remove, get_from, hit}
use swr_cache.Tiered.FirstHit.{get_first_hit}
use swr_cache.Error.{CacheError, serialization}
use swr_cache.Base.Async.Safe.{Ensures, Ensures-mono, steps, returns}
use swr_cache.Tiered.Failures.{Writes, set_first_error}
use swr_cache.Tiered.Writes.{IsSerializedWrite, set_tier_serialized}
use swr_cache.Tests.Codec.{serde, to_text}
use swr_cache.Tests.World.{
  World, Stored, platform, joins_all, memory, seven, world, entries-IsCell, memory-KeepsClock,
}
use swr_cache.Tests.Servers.{redis, keeping, old, old_world}
use swr_cache.Tests.Program.{program}

abbrev near : Store serde World
near = hash_map_store memory

abbrev far : Store serde World
far = redis_store platform redis keeping

abbrev tiered : TieredStore serde World
tiered = record { tiers = near ∷ far ∷ [] }

get_first_hit_example : exec (get tiered "n" "k") old_world ≡ record {
  result = ok (some old);
  world = old_world;
  spawned = task_of (populate "n" "k" old (near ∷ [])) ∷ [];
}
unfolding program
get_first_hit_example =
    get_first_hit "n" "k" tiered old_world (near ∷ []) far [] old refl (refl, tt) refl

-- The near tiers take the typed entry; the far one refuses it, since it has no serializer.
near_takes : Writes (λ w. Unit {0}) "n" "k" (seven 105 110) (λ r. r ≡ ok tt) near
unfolding program
near_takes = steps (λ w i. tt) (λ w i. returns refl)

abbrev no_serializer : CacheError
no_serializer = serialization "Cannot serialize Typed entry: no serializer available"

set_first_error_example :
    Ensures
      (λ w. Unit {0})
      (λ r. r ≡ err no_serializer)
      (set platform (record { tiers = near ∷ far ∷ near ∷ [] }) "n" "k" (seven 105 110))
set_first_error_example =
    set_first_error (λ w. Unit {0}) "n" "k" (seven 105 110) platform joins_all (near ∷ []) far
      (near ∷ []) no_serializer (near_takes, tt) (unfold program in returns refl)
      (Ensures-mono (λ a h. tt) near_takes, tt)

set_tier_serialized_example : IsSerializedWrite "n" "k" far (set_tier "n" "k" (seven 105 110) far)
unfolding program
set_tier_serialized_example = set_tier_serialized "n" "k" far (seven 105 110) refl

-- An entry that is fresh, in the second tier only.
abbrev fresh_text : String
fresh_text = to_text 7 (pos 105) (pos 110)

abbrev fresh : Stored
fresh = serialized fresh_text (pos 105) (pos 110)

abbrev fresh_world : World
fresh_world = record (world []) { texts = ("n:k", fresh_text) ∷ [] }

fresh_world-IsStore : IsStore memory fresh_world
fresh_world-IsStore = record { cell = entries-IsCell; map = tt }

world-IsStore : IsStore memory (world [])
world-IsStore = record { cell = entries-IsCell; map = tt }

-- The read, a removal of the key from both tiers, and then the fill.
fill_overwrites_example :
    let o = exec (get tiered "n" "k") fresh_world in
    let removal = exec (remove platform tiered "n" ("k" ∷ [])) o.world in
    (o.result ≡ ok (some fresh))
    × (o.spawned ≡ task_of (populate "n" "k" fresh (near ∷ [])) ∷ [])
    × ((exec
          (get tiered "n" "k")
          (run_task (task_of (populate "n" "k" fresh (near ∷ []))) removal.world)).result
        ≡ ok (some fresh))
unfolding program remove get get_from hit
fill_overwrites_example =
    let o = exec (get tiered "n" "k") fresh_world in
    let removal = exec (remove platform tiered "n" ("k" ∷ [])) o.world in
    fill_overwrites platform near (IsStore memory) (live memory)
      (hash_map_store-IsLawful memory memory-KeepsClock refl) "n" "k" fresh fresh refl far []
      fresh_world removal.world fresh_world-IsStore world-IsStore refl refl refl
