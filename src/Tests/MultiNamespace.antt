-- ===== src/Tests/MultiNamespace.antt =====
-- The program of two caches, on the world of the tests.
use swr_cache.Base.{◌≡◌, refl, some, none, [], ◌∷◌, All}
use swr_cache.Base.Async.Exec.{exec, run}
use swr_cache.Base.Async.Interleave.{exec-Reach}
use swr_cache.Swr
use swr_cache.Cache
use swr_cache.Moka
use swr_cache.Redis
use swr_cache.Tiered
use swr_cache.Swr.Data
use swr_cache.MultiNamespace.{
  loading_user, user_line, cached_user_line, in_api_key_cache, in_user_cache, same_store,
  saves_memory, main, load_user, load_again, use_caches, with_stores,
}
use swr_cache.MultiNamespace.Lines.{IsGoodLine, RightUser}
use swr_cache.MultiNamespace.Apart.{main_interleaved}
use swr_cache.Tests.Codec.{serde-RoundTrips}
use swr_cache.Tests.World.{joins_all, types, shared, platform, world}
use swr_cache.Tests.Servers.{moka, redis}
use swr_cache.Tests.Safety.{
  lines-Guards, marks-Guards, key_marks-Guards, sleeps, redis-RedisKeeps, moka-MokaKeeps,
  cleared-IsRight, empty-IsRight, IsRight,
}
use swr_cache.Tests.Program.{program}

main_interleaved_example :
    All (IsGoodLine types) (exec (main shared platform moka redis) (world [])).world.lines
main_interleaved_example =
    let Right = RightUser types in
    main_interleaved shared platform (IsRight Right) (lines-Guards Right) (marks-Guards Right)
      (key_marks-Guards Right) (sleeps Right) joins_all serde-RoundTrips moka redis
      (λ _. moka-MokaKeeps Right) (λ _ w i. cleared-IsRight Right w i) (λ _. redis-RedisKeeps Right)
      (λ _ w i. i) [] (world []) _ tt (empty-IsRight Right)
      (exec-Reach (main shared platform moka redis) [] (world []))

-- Where each task runs as soon as it is started, the second call answers from the cache; the last
-- line comes first.
main_prints :
    (run (main shared platform moka redis) (world [])).1.lines
    ≡ saves_memory
      ∷ same_store
      ∷ in_user_cache none
      ∷ in_api_key_cache (some 11)
      ∷ cached_user_line (some 7)
      ∷ user_line (some 7)
      ∷ loading_user "chronark"
      ∷ []
unfolding program main load_user load_again use_caches with_stores Swr.deduplicated_load_from_origin
    Swr.swr Swr.answer Swr.or_expired Swr.cache_loaded Swr.load_marked Cache.swr Cache.get Cache.set
    Cache.new Tiered.tiered_store Tiered.get Tiered.get_from Tiered.hit Tiered.set
    Tiered.first_error Tiered.from_stores Tiered.tiered_mode Tiered.populate Moka.new Redis.new
    Data.new
main_prints = refl
