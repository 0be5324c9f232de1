-- ===== src/Tests/Cache.antt =====
-- Caches over one HashMapStore.
use swr_cache.Base.{
  ◌⊎◌, String, err, ◌∷◌, ℕ, ◌≡◌, ◌≢◌, ap, refl, true, false, none, some, String, [], ok, arith, ◌^◌,
  ◌-◌,
}
use swr_cache.Base.Int.{pos, ◌+i64◌}
use swr_cache.Base.Async.Exec.{exec, run_task}
use swr_cache.Entry.{typed, serialized, from_typed_with_serializer}
use swr_cache.Memory.{hash_map_store}
use swr_cache.Memory.Access.{IsStore, live}
use swr_cache.Memory.Lawful.{hash_map_store-IsLawful}
use swr_cache.Store.Laws.{IsLawful}
use swr_cache.Tiered.{tiered_store, from_stores}
use swr_cache.Tiered.Single.{single, tiered_store-IsLawful}
use swr_cache.Utils.Keys.{NoColon}
use swr_cache.Swr.Data
use swr_cache.Swr.Data.{SetOptions}
use swr_cache.Swr.Direct
use swr_cache.Swr.Revalidation.{task}
use swr_cache.Swr.Renewal.{MarksApart, get-revalidation}
use swr_cache.Swr.Overflow.{get-set_overflow}
use swr_cache.Store.{Store}
use swr_cache.Error.{operation}
use swr_cache.Base.Async.{ret}
use swr_cache.Redis.{redis_store}
use swr_cache.Cache.Tiers.{tiers_cache, get-set_tiers}
use swr_cache.Tiered.Nearest.{LeavesAlone}
use swr_cache.Base.Async.Guarantee.{returns, steps}
use swr_cache.Store.Keyed.{IsKeyed}
use swr_cache.Memory.Keyed.{IsMapAt, held, hash_map_store-IsKeyed}
use swr_cache.Tests.Servers.{redis, keeping}
use swr_cache.Cache.{Cache, new, get, set}
use swr_cache.Cache.Contract.{made_cache, namespaces_apart}
use swr_cache.Tests.Codec.{serde, code, serde-RoundTrips}
use swr_cache.Tests.World.{
  World, stale_one, nine, platform, joins_all, memory, cache, marks, world, one, entries-IsCell,
  memory-KeepsClock,
}
use swr_cache.Tests.Program.{program}

one-IsStore : IsStore memory (world one)
unfolding program
one-IsStore = record { cell = entries-IsCell; map = (refl, tt) }

memory-IsLawful : IsLawful platform (hash_map_store memory) (IsStore memory) (live memory)
memory-IsLawful = hash_map_store-IsLawful memory memory-KeepsClock refl

tiered_store-IsLawful_example :
    IsLawful platform
      (tiered_store platform (single (hash_map_store memory)))
      (IsStore memory)
      (live memory)
tiered_store-IsLawful_example =
    tiered_store-IsLawful platform joins_all (hash_map_store memory) (IsStore memory) (live memory)
      memory-IsLawful

n-NoColon : NoColon "n"
n-NoColon = (λ p. omega (arith, ap code p), tt)

m-NoColon : NoColon "m"
m-NoColon = (λ p. omega (arith, ap code p), tt)

abbrev n : String
n = "n"

abbrev m : String
m = "m"

abbrev first_code : String → ℕ
first_code String.[] = 0
first_code (String.◌∷◌ c s) = code c

n_not_m : n ≢ m
n_not_m p = omega (arith, ap first_code p)

namespaces_apart_example :
    let c =
      made_cache platform (hash_map_store memory) {t = true} n (pos 10) (pos 20) marks (world []) in
    let d =
      made_cache platform (hash_map_store memory) {t = false} m (pos 1) (pos 2) marks (world []) in
    (exec (get platform d "k") (exec (set platform c "k" 9) (world one)).world).result
    ≡ (exec (get platform d "k") (world one)).result
unfolding program
namespaces_apart_example =
    namespaces_apart platform joins_all (hash_map_store memory) (IsStore memory) (live memory)
      memory-IsLawful serde-RoundTrips true false n m (pos 10) (pos 20) (pos 1) (pos 2) marks marks
      "k" "k" 9 (world []) (world one) (from_typed_with_serializer true 9 (pos 110) (pos 120))
      one-IsStore refl n-NoColon m-NoColon n_not_m

-- Never to expire: `i64::MAX`.
abbrev never : SetOptions
never = record { fresh_ms = pos 10; stale_ms = pos (2 ^ 63 - 1) }

get-set_overflow_example :
    let o = exec (Direct.set platform cache "n" "k" 9 (some never)) (world one) in
    (o.result ≡ ok tt) × ((exec (Direct.get platform cache "n" "k") o.world).result ≡ ok none)
unfolding program
get-set_overflow_example =
    get-set_overflow platform cache (IsStore memory) (live memory) "n" "k" 9 (some never)
      (world one) (from_typed_with_serializer true 9 (pos 110) (pos 100 +i64 pos (2 ^ 63 - 1)))
      memory-IsLawful serde-RoundTrips one-IsStore refl (omega arith) (omega arith, omega arith)
      (omega arith)

marks-MarksApart : MarksApart platform cache (IsStore memory) (live memory)
unfolding program
marks-MarksApart = record {
  inv = λ m w v. record { cell = v.cell; map = v.map };
  views = λ m w k. refl;
}

abbrev renewing : World
renewing = record (world stale_one) { now = 105; marks = ("n:k", none) ∷ [] }

renewing-IsStore : IsStore memory renewing
unfolding program
renewing-IsStore = record { cell = entries-IsCell; map = (refl, tt) }

get-revalidation_example :
    (exec
      (Direct.get platform cache "n" "k")
      (run_task (task platform cache "n" "k" nine) (world stale_one))).result
    ≡ ok (some 9)
unfolding program
get-revalidation_example =
    get-revalidation platform cache (IsStore memory) (live memory) memory-IsLawful serde-RoundTrips
      marks-MarksApart "n" "k" nine (world stale_one) renewing 9
      (from_typed_with_serializer true 9 (pos 115) (pos 125)) refl refl renewing-IsStore refl

abbrev far : Store serde World
far = redis_store platform redis keeping

-- A store whose connection is closed.
abbrev down : Store serde World
down = record far {
  set = λ namespace key e. ret (err (operation "redis" key "SET failed: closed"));
}

memory-IsKeyed : IsKeyed platform (IsMapAt memory) (held memory) (hash_map_store memory)
memory-IsKeyed = hash_map_store-IsKeyed memory entries-IsCell memory-KeepsClock refl

far-LeavesAlone : LeavesAlone platform (IsMapAt memory) (held memory) "n" "j" far
unfolding program
far-LeavesAlone (typed v fresh stale s) = returns
far-LeavesAlone (serialized json fresh stale) = steps (λ w i. (i, refl, omega arith)) (λ w. returns)

abbrev tiers : Cache serde World true
tiers =
    tiers_cache platform "n" (hash_map_store memory) (down ∷ far ∷ []) (pos 10) (pos 20) marks
      (world [])

-- The write ends in an error, and the read gives the value.
get-set_tiers_example :
    let w' = (exec (set platform tiers "j" 9) (world one)).world in
    ((exec (get platform tiers "j") w').result ≡ ok (some 9)) ⊎ (false ≡ true)
unfolding program new get set Data.new tiered_store from_stores
get-set_tiers_example =
    get-set_tiers platform joins_all (hash_map_store memory) (IsMapAt memory) (held memory)
      memory-IsKeyed (down ∷ far ∷ []) serde-RoundTrips {t = true} "n" (pos 10) (pos 20) marks
      (world []) "j" 9 (world one) (from_typed_with_serializer true 9 (pos 110) (pos 120))
      ((λ e. returns), (far-LeavesAlone, tt)) (refl, tt) refl
