-- ===== src/Tests/Memory.antt =====
-- A HashMapStore on concrete entries.
use swr_cache.Base.{◌≡◌, ◌≤◌, refl, none, [], ◌∷◌, ok, length}
use swr_cache.Base.Int.{pos}
use swr_cache.Base.Dict.{Dict, IsMap, lookup}
use swr_cache.Base.Async.Exec.{exec, advance}
use swr_cache.Memory.{evict, get, set, hash_map_store}
use swr_cache.Memory.Evict.{evict_size}
use swr_cache.Memory.Access.{IsStore, live}
use swr_cache.Memory.Writes.{set_bounded}
use swr_cache.Memory.Races.{write_lost}
use swr_cache.Memory.Lawful.{hash_map_store-IsLawful}
use swr_cache.Store.Laws.{IsLawful}
use swr_cache.Tests.World.{
  Stored, platform, memory, small_memory, two_items, seven, world, one, expired_one, entries-IsCell,
  memory-KeepsClock,
}
use swr_cache.Tests.Program.{program}

hash_map_store-IsLawful_example :
    IsLawful platform (hash_map_store memory) (IsStore memory) (live memory)
hash_map_store-IsLawful_example = hash_map_store-IsLawful memory memory-KeepsClock refl

-- One entry has expired at 100 ms; of the others, "b" expires first.
abbrev four : Dict Stored
four = ("a", seven 105 130) ∷ ("b", seven 105 110) ∷ ("c", seven 80 90) ∷ ("d", seven 105 120) ∷ []

four-IsMap : IsMap four
unfolding program
four-IsMap = (refl, (refl, (refl, (refl, tt))))

evict_size_example : IsMap (evict 2 (pos 100) four) × (length (evict 2 (pos 100) four) ≡ 2)
unfolding program
evict_size_example = evict_size 2 (pos 100) four four-IsMap

one-IsStore : IsStore memory (world one)
unfolding program
one-IsStore = record { cell = entries-IsCell; map = (refl, tt) }

expired-IsStore : IsStore memory (world expired_one)
unfolding program
expired-IsStore = record { cell = entries-IsCell; map = (refl, tt) }

four-IsStore : IsStore small_memory (world four)
unfolding program
four-IsStore = record { cell = entries-IsCell; map = four-IsMap }

set_bounded_example :
    length ((exec (set small_memory "n" "k" (seven 105 115)) (world four)).world).entries ≤ 2
unfolding program
set_bounded_example =
    set_bounded small_memory four-IsStore "n" "k" (seven 105 115) two_items refl (refl, refl)

write_lost_example :
    let (rest, w') = advance (get memory "n" "k") (world expired_one) in
    let write = exec (set memory "n" "k" (seven 105 110)) w' in
    let read = exec rest write.world in
    (write.result ≡ ok tt) × (read.result ≡ ok none) × (lookup "n:k" read.world.entries ≡ none)
unfolding program
write_lost_example =
    write_lost memory "n" "k" (seven 80 90) (seven 105 110) (world expired_one) expired-IsStore refl
      refl
