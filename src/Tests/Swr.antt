-- ===== src/Tests/Swr.antt =====
-- Runs of `swr` on one key: fresh, stale, expired, missing, and while a load is marked.
use swr_cache.Base.{◌≡◌, refl, none, some, [], ◌∷◌, ok, inl, arith}
use swr_cache.Base.Async.{task_of}
use swr_cache.Base.Async.Exec.{exec}
use swr_cache.Swr.{swr, revalidation}
use swr_cache.Swr.Answers.{caching, swr_fresh, swr_stale}
use swr_cache.Swr.Outcomes.{swr_miss, swr_expired, swr_joined}
use swr_cache.Tests.World.{World, platform, cache, seven, world, one, stale_one, nine}
use swr_cache.Tests.Servers.{redis_cache, old, old_world}
use swr_cache.Tests.Program.{program}

swr_fresh_example :
    exec (swr platform cache "n" "k" nine) (world one)
    ≡ record { result = ok (some 7); world = world one; spawned = [] }
unfolding program
swr_fresh_example =
    swr_fresh platform cache "n" "k" nine (world one) {stored = seven 105 110} refl refl
      (omega arith) (omega arith)

swr_stale_example : exec (swr platform cache "n" "k" nine) (world stale_one) ≡ record {
  result = ok (some 7);
  world = world stale_one;
  spawned = task_of (revalidation platform cache "n" "k" nine) ∷ [];
}
unfolding program
swr_stale_example =
    swr_stale platform cache "n" "k" nine (world stale_one) {stored = seven 95 110} refl refl
      (omega arith) (omega arith)

-- The world after a load that took 5 ms.
abbrev later : World
later = record (world []) { now = 105 }

swr_miss_example : exec (swr platform cache "n" "k" nine) (world []) ≡ record {
  result = ok (some 9);
  world = later;
  spawned = caching platform cache "n" "k" 9 later ∷ [];
}
unfolding program
swr_miss_example = swr_miss platform cache "n" "k" nine (world []) refl (inl refl)

abbrev old_later : World
old_later = record old_world { now = 105 }

swr_expired_example : exec (swr platform redis_cache "n" "k" nine) old_world ≡ record {
  result = ok (some 9);
  world = old_later;
  spawned = caching platform redis_cache "n" "k" 9 old_later ∷ [];
}
unfolding program
swr_expired_example =
    swr_expired platform redis_cache "n" "k" nine old_world refl {stored = old} refl refl
      (omega arith)

-- While the key is marked; the wait takes 100 ms.
abbrev old_busy : World
old_busy = record old_world { marks = ("n:k", none) ∷ [] }

abbrev old_waited : World
old_waited = record old_busy { now = 200 }

swr_joined_example : exec (swr platform redis_cache "n" "k" nine) old_busy ≡ record {
  result = ok (some 7);
  world = old_waited;
  spawned = caching platform redis_cache "n" "k" 7 old_waited ∷ [];
}
unfolding program
swr_joined_example =
    swr_joined platform redis_cache "n" "k" nine old_busy {stored = old} {stored' = old} refl refl
      refl (omega arith) refl refl
