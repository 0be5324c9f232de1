-- ===== src/Lib.antt =====
-- The cache library: typed values under a namespace and a key, kept in one or more stores with two
-- times each. Up to the first an entry is fresh, up to the second it is stale, and then expired. A
-- stale value is answered at once and renewed in the background; a missing or an expired one is
-- loaded from the user's origin.
--
-- Parts, and the files that model them:
-- - src/utils.rs: Utils. build_cache_key joins namespace and key; now_ms and rand_simple read the
--   world through Platform.
-- - src/error.rs: Error. CacheError, with the Display text.
-- - src/entry.rs: Entry. Entry<V> is Entry; the methods of StoredEntry keep their names, and the
--   three tests of Entry<V> are entry_is_fresh, entry_is_stale and entry_is_expired. An Arc<dyn Any>
--   is a value with the identity of its type, a serializer a function.
-- - src/store.rs: Store. A store is a record of its three methods over the shared world W;
--   Store/Laws says what a client may rely on.
-- - src/stores/memory.rs: Memory. The RwLock's map is a Cell of W that holds an association list.
--   get, set and remove (remove_all_keys) are trees of atomic segments.
-- - src/tiered.rs: Tiered. get reads tiers in order and spawns the task populate; set and remove go
--   through join_all.
-- - src/swr.rs: Swr/Data (state), Swr/Direct (get, set, remove, cache_value) and Swr (swr,
--   spawn_revalidation, deduplicated_load_from_origin).
-- - src/cache.rs: Cache, a namespace over a SwrCache over a TieredStore.
-- - examples/multi_namespace.rs: MultiNamespace, a program of two caches that have one store. Each
--   println! adds a Line to what was printed; Types has the two types with derived conversions.
-- - src/stores/metrics.rs, src/stores/moka.rs, src/stores/redis.rs: Metrics, Moka, Redis.
--
-- An async function is a value of Async W A (Base/Async): atomic segments, each of which may read
-- and write the world, and spawned tasks. A segment ends where the source awaits a lock, a store or
-- a timer. exec (Base/Async/Exec) runs a function through and gives its result, the world after it
-- and the tasks that it has spawned and that have yet to run; run_task runs one of those to its end;
-- advance and advance_task run one segment, for statements on two calls that interleave.
--
-- Base/Async/Interleave has all interleavings: a Config is a call in progress, the tasks beside it
-- and the world; a Move runs one segment of the call or of any task, in any order that a scheduler
-- may choose; Reach is any number of moves. Base/Async/Safe has the invariants that go with it:
-- Ensures says that each segment of a function keeps an invariant of the world, whatever other
-- tasks did before it, and that its result has a property. Each store has a file Safety that fills
-- the record IsSafeStore (Store/Safety), with an invariant and with what fits a key left open;
-- Tiered/Safety is a client and an implementation of it, Swr/Safety and Cache/Safety are clients.
-- Base/Async/Within counts the segments of a function, and the files Bounded give the counts.
-- A lock is held within one segment, so a wait for a lock is no segment and no call of the model
-- stands still at one.
--
-- Base/Async/Guarantee says that every segment of a function, of what follows and of what it spawns
-- stays in a relation between worlds; the files Guarantee give it for each part. What other tasks
-- guarantee a function may rely on: Base/Async/Outline has an assertion for each point of a
-- function, stable under the relation, and Store/Keyed is the contract of a store in these terms,
-- which Memory/Keyed and Tiered/Keyed fill and Swr/Among and Cache/Clients use. Base/Async/Debt and
-- Base/Async/Ledger are for what is taken and has to be given back; Swr/Marks keeps that account for
-- the marks of swr and of its revalidations, and Cache/Marks is its client. Base/Async/Schedule
-- computes one interleaving. Base/Async/Join has what a future may do that joins others, as join_all
-- does.
--
-- Bounds: i64 is ℤ with addition and subtraction that wrap, as in a release build; u64 and usize are
-- ℕ, cut off where the source casts. No function needs fuel: each one recurses on a list, on an
-- entry or on the tree of segments.
--
-- What stands outside the sources is a parameter. Serde has serde_json's conversions, each type
-- with its TypeId; RoundTrips says that what was written is read back. Platform has the clock,
-- the hasher's random state, floats, the timer and join_all; JoinsAll says that join_all runs the
-- segments of its futures in some order and nothing else, and gives their results in the order of
-- the futures. MokaCrate and RedisCrate have the two crates' operations; Keeps says what is
-- documented of redis, and RedisKeeps and MokaKeeps that the two make up no text and no entry. A
-- sink of metrics and an origin are the user's. HashMap's order of iteration is that of the
-- association list, so a statement on eviction holds for the list's order among entries that
-- expire at one time.
--
-- Not modelled: log lines, which no result depends on; src/lib.rs and src/stores/mod.rs, which
-- only name modules; the accessor sink of MetricsStore; a panic of debug builds on overflow;
-- benches and tests.
pub mod Base
pub mod Platform
pub mod Utils
pub mod Error
pub mod Entry
pub mod Store
pub mod Memory
pub mod Tiered
pub mod Swr
pub mod Cache
pub mod MultiNamespace
pub mod Metrics
pub mod Moka
pub mod Redis
pub mod Tests
