-- ===== src/Tests/Concurrent.antt =====
-- Several clients of one cache at once.
use swr_cache.Base.{
  ℕ, ◌+◌, ◌≡◌, refl, true, false, Option, none, some, List, [], ◌∷◌, Result, ok, arith, map, ltb,
  if◌then◌else◌,
}
use swr_cache.Base.Int.{pos, as_i64, ◌≤ℤ◌}
use swr_cache.Base.Async.{Task, Async, modify, ret, ◌>>◌}
use swr_cache.Base.Async.Interleave.{Config}
use swr_cache.Base.Async.Guarantee.{Guarantees, returns, steps, Guarantees-bind}
use swr_cache.Base.Async.Schedule.{scheduled, scheduled-Reach}
use swr_cache.Platform.{Platform, JoinsAll}
use swr_cache.Utils.{now_ms}
use swr_cache.Store.Keyed.{Aside, IsKeyed}
use swr_cache.Memory.{HashMapStore, hash_map_store}
use swr_cache.Memory.Keyed.{IsMapAt, held, hash_map_store-IsKeyed}
use swr_cache.Error.{CacheError}
use swr_cache.Swr.Data
use swr_cache.Swr.Data.{SwrCache, Origin}
use swr_cache.Swr.{swr}
use swr_cache.Swr.Among.{set_then_get, IsBack}
use swr_cache.Swr.Among.Clients.{ClientCall, gets, sets, removes, loads, client, get-set_clients}
use swr_cache.Tiered.{from_stores}
use swr_cache.Tiered
use swr_cache.Base.Async.Join.InTurn.{in_turn-IsJoin}
use swr_cache.Cache
use swr_cache.Cache.{Cache}
use swr_cache.Cache.Contract.{made_cache}
use swr_cache.Cache.Clients.{CacheCall, Client, task, get-set_caches}
use swr_cache.Tests.Codec.{serde, serde-RoundTrips}
use swr_cache.Tests.World.{
  World, platform, entries, cache, marks, shared, world, one, entries-IsCell,
}
use swr_cache.Tests.Program.{program}

-- A clock that stops short of 1000 ms, so that it never wraps.
abbrev later : ℕ → ℕ → ℕ
later n now = if ltb (now + n) 1000 then now + n else now

abbrev capped : Platform World
capped = record platform { sleep = λ n. modify (λ w. record w { now = later n w.now }) }

later-as_i64 : (n now : ℕ) → as_i64 now ≤ℤ as_i64 (later n now)
unfolding as_i64
later-as_i64 n now = ground arith

abbrev capped_memory : HashMapStore serde capped
capped_memory = record { state = entries; evict_on_set = none }

abbrev capped_cache : SwrCache serde World true
capped_cache = record cache { store = hash_map_store capped_memory }

memory-IsKeyed : IsKeyed capped (IsMapAt capped_memory) (held capped_memory) capped_cache.store
unfolding now_ms
memory-IsKeyed = hash_map_store-IsKeyed capped_memory entries-IsCell (λ m w. refl) refl

abbrev Beside : World → World → Type 0
Beside = Aside capped (IsMapAt capped_memory) (held capped_memory) "n:k"

sleep-Beside : (n : ℕ) → Guarantees Beside (Platform.sleep capped n)
unfolding now_ms
sleep-Beside n = steps (λ w i. (i, refl, later-as_i64 n w.now)) (λ w. returns)

abbrev slow_nine : Origin serde World true
slow_nine key = do Platform.sleep capped 5; ret (some 9)

slow_nine-Beside : Guarantees Beside (slow_nine "j")
slow_nine-Beside = Guarantees-bind (sleep-Beside 5) (λ _. returns {a = some 9})

abbrev calls : List (ClientCall serde World true)
calls = gets "n" "j" ∷ sets "n" "j" 3 none ∷ removes "m" "k" ∷ loads "n" "j" slow_nine ∷ []

abbrev tasks : List (Task World)
tasks = map (client capped capped_cache) calls

abbrev ending : Config World (Result CacheError (Option ℕ))
ending = scheduled 3 20 (set_then_get capped capped_cache "n" "k" 4 none) tasks (world one)

ending-ok : ending.call ≡ ret (ok (some 4))
unfolding program swr
ending-ok = refl

get-set_clients_example : IsBack capped capped_cache 4 (pos 20) (pos 100) (ok (some 4)) ending.world
unfolding program
get-set_clients_example =
    get-set_clients capped (IsMapAt capped_memory) (held capped_memory) capped_cache memory-IsKeyed
      serde-RoundTrips "n" "k" 4 none (world one) calls ending (ok (some 4)) sleep-Beside
      (λ m w i. (i, refl, omega arith)) (refl, (refl, (refl, ((refl, slow_nine-Beside), tt))))
      (λ fresh stale. (_, refl)) (refl, tt)
      (scheduled-Reach 3 20 (set_then_get capped capped_cache "n" "k" 4 none) tasks (world one))
      ending-ok

capped-JoinsAll : JoinsAll capped
capped-JoinsAll = record { joined = in_turn-IsJoin }

-- A cache of the same namespace, and one of another namespace with its own map of marks.
abbrev caches : List (Client serde World)
caches =
    record {
      t = true;
      namespace = "n";
      fresh_ms = pos 10;
      stale_ms = pos 20;
      cell = marks;
      call = CacheCall.loads "j" slow_nine;
    }
    ∷ record {
      t = false;
      namespace = "m";
      fresh_ms = pos 1;
      stale_ms = pos 2;
      cell = shared.api_keys;
      call = CacheCall.sets_for "k" 3 (pos 5) (pos 6);
    }
    ∷ []

abbrev cache_tasks : List (Task World)
cache_tasks = map (task capped capped_cache.store (world one)) caches

abbrev own : Cache serde World true
own = made_cache capped capped_cache.store "n" (pos 10) (pos 20) marks (world one)

abbrev write_then_read : Async World (Result CacheError (Option ℕ))
write_then_read = do Cache.set capped own "k" 4; Cache.get capped own "k"

get-set_caches_example :
    let end = scheduled 3 20 write_then_read cache_tasks (world one) in
    IsBack capped own.swr_cache 4 (pos 20) (pos 100) (ok (some 4)) end.world
unfolding program swr Data.new Cache.new Cache.set Cache.get Cache.swr from_stores Tiered.set
    Tiered.get Tiered.get_from Tiered.hit Tiered.tiered_store
get-set_caches_example =
    get-set_caches capped capped-JoinsAll capped_cache.store (world one) (IsMapAt capped_memory)
      (held capped_memory) memory-IsKeyed serde-RoundTrips {t = true} "n" "k" (pos 10) (pos 20)
      marks 4 (world one) caches (scheduled 3 20 write_then_read cache_tasks (world one))
      (ok (some 4)) sleep-Beside
      (
        ((refl, slow_nine-Beside), λ m w i. (i, refl, omega arith)),
        ((refl, λ m w i. (i, refl, omega arith)), tt),
      )
      (λ fresh stale. (_, refl)) (refl, tt)
      (scheduled-Reach 3 20 write_then_read cache_tasks (world one)) refl
