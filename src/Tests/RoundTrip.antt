-- ===== src/Tests/RoundTrip.antt =====
-- Writes, removals and reads of a SwrCache over a HashMapStore, and of its pieces.
use swr_cache.Base.{◌≡◌, refl, true, false, none, some, String, ok, str_eq}
use swr_cache.Base.Int.{pos}
use swr_cache.Base.Async.Exec.{exec}
use swr_cache.Utils.{build_cache_key}
use swr_cache.Entry.{from_typed_with_serializer}
use swr_cache.Memory.Access.{IsStore, live}
use swr_cache.Memory.Lawful.{hash_map_store-IsLawful}
use swr_cache.Swr.Direct.{get, set, remove_key}
use swr_cache.Swr.RoundTrip.{get-set, get-remove_key}
use swr_cache.Tests.Codec.{serde-RoundTrips}
use swr_cache.Tests.World.{platform, memory, cache, world, one, entries-IsCell, memory-KeepsClock}
use swr_cache.Tests.Program.{program}

one-IsStore : IsStore memory (world one)
unfolding program
one-IsStore = record { cell = entries-IsCell; map = (refl, tt) }

get-set_example :
    let o = exec (set platform cache "n" "j" 9 none) (world one) in
    (o.result ≡ ok tt)
    × ((exec (get platform cache "n" "j") o.world).result ≡ ok (some 9))
    × ((namespace' key' : String)
        → str_eq "n:j" (build_cache_key namespace' key') ≡ false
        → (exec (get platform cache namespace' key') o.world).result
          ≡ (exec (get platform cache namespace' key') (world one)).result)
unfolding program
get-set_example =
    get-set platform cache (IsStore memory) (live memory)
      (hash_map_store-IsLawful memory memory-KeepsClock refl) serde-RoundTrips "n" "j" 9 none
      (world one) (from_typed_with_serializer true 9 (pos 110) (pos 120)) one-IsStore refl

get-remove_key_example :
    let o = exec (remove_key cache "n" "k") (world one) in
    (o.result ≡ ok tt)
    × ((exec (get platform cache "n" "k") o.world).result ≡ ok none)
    × ((namespace' key' : String)
        → str_eq "n:k" (build_cache_key namespace' key') ≡ false
        → (exec (get platform cache namespace' key') o.world).result
          ≡ (exec (get platform cache namespace' key') (world one)).result)
unfolding program
get-remove_key_example =
    get-remove_key platform cache (IsStore memory) (live memory)
      (hash_map_store-IsLawful memory memory-KeepsClock refl) serde-RoundTrips "n" "k" (world one)
      one-IsStore
