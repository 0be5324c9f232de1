-- ===== src/Tests/Revalidation.antt =====
-- Revalidations and loads of one key, one at a time and interleaved.
use swr_cache.Base.{◌≡◌, refl, true, []}
use swr_cache.Base.Async.Exec.{run_task, advance, advance_task}
use swr_cache.Swr.{deduplicated_load_from_origin}
use swr_cache.Swr.Loads.{marked}
use swr_cache.Swr.Revalidation.{task, round}
use swr_cache.Swr.Interleavings.{revalidation_twice, load_dropped}
use swr_cache.Tests.World.{platform, cache, world, stale_one, nine, marks-IsCell}
use swr_cache.Tests.Program.{program}

revalidation_twice_example :
    let w = world stale_one in
    let (first, w') = advance_task (task platform cache "n" "k" nine) w in
    let (second, w'') = advance_task (task platform cache "n" "k" nine) w' in
    run_task second (run_task first w'')
    ≡ round platform cache "n" "k" nine (round platform cache "n" "k" nine w)
unfolding program
revalidation_twice_example =
    revalidation_twice platform cache "n" "k" nine nine (world stale_one) refl

load_dropped_example :
    let (checked, w') =
      advance (deduplicated_load_from_origin platform cache "n" "k" nine) (world []) in
    let (dropped, w'') = advance checked w' in
    (marked cache "n" "k" w'' ≡ true) × (run_task (task platform cache "n" "k" nine) w'' ≡ w'')
unfolding program
load_dropped_example = load_dropped platform cache "n" "k" nine nine (world []) marks-IsCell refl
