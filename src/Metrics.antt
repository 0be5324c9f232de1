-- ===== src/Metrics.antt =====
-- src/stores/metrics.rs: MetricsStore, a store that reports each operation on another to a sink.
pub mod Transparent
pub mod Safety
pub mod Bounded
use swr_cache.Base.{
  ℕ, Bool, true, false, Option, none, some, String, List, [], ◌∷◌, Result, ok, err, length,
  if◌then◌else◌,
}
use swr_cache.Base.Int.{ℤ}
use swr_cache.Base.Async.{Async, ret, ◌>>=◌, ◌>>◌, gets, modify}
use swr_cache.Platform.{Serde, Floats, Platform}
use swr_cache.Utils.{now_ms}
use swr_cache.Error.{CacheError}
use swr_cache.Entry.{StoredEntry, is_fresh, is_stale}
use swr_cache.Store.{Store}

pub data CacheEntryStatus : Type 0 where
  fresh stale : CacheEntryStatus

-- The fields stand in the source's order: a read has key, hit, status, latency_ms, tier, namespace;
-- a write key, latency_ms, tier, namespace; a removal key_count, first_key and the last three.
pub data CacheMetric (F : Floats) : Type 0 where
  read_metric :
      String → Bool → Option CacheEntryStatus → Floats.F64 F → String → String → CacheMetric F
  write_metric : String → Floats.F64 F → String → String → CacheMetric F
  remove_metric : ℕ → Option String → Floats.F64 F → String → String → CacheMetric F

-- A sink is the user's: its methods over the world.
pub record MetricsSink (F : Floats) (W : Type 0) : Type 0 where
  pub emit : CacheMetric F → W → W
  pub flush : Async W (Result String (Unit {0}))

pub record MetricsStore (J : Serde) {W : Type 0} (P : Platform W) : Type 0 where
  pub inner : Store J W
  pub sink : MetricsSink (Platform.floats P) W
  pub tier_name : String

abbrev pub first? {ℓ} : {A : Type ℓ} → List A → Option A
first? [] = none
first? (x ∷ _) = some x

module _ {J : Serde} where
  -- Hit or miss, and the age of what was found.
  unfoldable pub read_status :
      Result CacheError (Option (StoredEntry J)) → ℤ → Bool × Option CacheEntryStatus
  read_status (ok (some entry)) now = (
    true,
    (if is_fresh entry now then some fresh else (if is_stale entry now then some stale else none)),
  )
  read_status (ok none) now = (false, none)
  read_status (err e) now = (false, none)

module _ {W : Type 0} (P : Platform W) where
  -- `elapsed_ms(start)`, at the world where it is read
  unfoldable pub elapsed_ms : Platform.Instant P → W → Floats.F64 (Platform.floats P)
  elapsed_ms start w =
      Floats.mul (Platform.floats P) (Platform.secs_between P start (Platform.instant P w))
        (Floats.thousand_f (Platform.floats P))

module _ {J : Serde} {W : Type 0} {P : Platform W} where
  -- `MetricsStore::new`
  unfoldable pub new : Store J W → MetricsSink (Platform.floats P) W → MetricsStore J P
  new inner sink = record { inner = inner; sink = sink; tier_name = inner.name }

  unfoldable pub get :
      MetricsStore J P → String → String → Async W (Result CacheError (Option (StoredEntry J)))
  unfolding read_status elapsed_ms
  get s namespace key = do
    start ← gets (Platform.instant P)
    result ← s.inner.get namespace key
    latency_ms ← gets (elapsed_ms P start)
    now ← gets (now_ms P)
    let found = read_status result now
    modify (s.sink.emit (read_metric key found.0 found.1 latency_ms s.tier_name namespace))
    ret result

  unfoldable pub set :
      MetricsStore J P → String → String → StoredEntry J → Async W (Result CacheError (Unit {0}))
  unfolding elapsed_ms
  set s namespace key entry = do
    start ← gets (Platform.instant P)
    result ← s.inner.set namespace key entry
    latency_ms ← gets (elapsed_ms P start)
    modify (s.sink.emit (write_metric key latency_ms s.tier_name namespace))
    ret result

  unfoldable pub remove :
      MetricsStore J P → String → List String → Async W (Result CacheError (Unit {0}))
  unfolding elapsed_ms
  remove s namespace keys = do
    start ← gets (Platform.instant P)
    result ← s.inner.remove namespace keys
    latency_ms ← gets (elapsed_ms P start)
    modify
        (s.sink.emit (remove_metric (length keys) (first? keys) latency_ms s.tier_name namespace))
    ret result

  -- `impl Store for MetricsStore`
  unfoldable pub metrics_store : MetricsStore J P → Store J W
  unfolding get set remove
  metrics_store s = record {
    name = "metrics";
    storage_mode = s.inner.storage_mode;
    get = get s;
    set = set s;
    remove = remove s;
  }
