-- ===== src/Metrics/Transparent.antt =====
-- What a MetricsStore adds to the store inside it (src/stores/metrics.rs).
use swr_cache.Base.{
  ◌≡◌, ◌∙◌, Option, none, some, String, List, Result, ok, err, arith, length, true, false, Bool,
  ◌↔◌, refl,
}
use swr_cache.Base.Int.{ℤ, ◌<ℤ◌, ◌≤ℤ◌}
use swr_cache.Base.Async.Exec.{exec, exec-bind}
use swr_cache.Platform.{Serde, Floats, Platform}
use swr_cache.Utils.{now_ms}
use swr_cache.Error.{CacheError}
use swr_cache.Entry.{StoredEntry, is_fresh, is_stale, fresh_until, stale_until}
use swr_cache.Metrics.{
  CacheEntryStatus, fresh, stale, read_metric, write_metric, remove_metric, MetricsStore, first?,
  read_status, elapsed_ms, get, set, remove,
}
use mathlib.Core.List.{append-nil}

-- What a metric tells of the answer to a read: a hit exactly if an entry was found, and its age at the
-- time `now`, which is neither fresh nor stale if it has expired.
abbrev pub Tells :
    {J : Serde}
    → Result CacheError (Option (StoredEntry J))
    → ℤ
    → Bool
    → Option CacheEntryStatus
    → Type 0
Tells (ok (some e)) now hit status =
    (hit ≡ true)
    × ((status ≡ some fresh) ↔ (now <ℤ fresh_until e))
    × ((status ≡ some stale) ↔ ((fresh_until e ≤ℤ now) × (now <ℤ stale_until e)))
    × ((status ≡ none) ↔ ((fresh_until e ≤ℤ now) × (stale_until e ≤ℤ now)))
Tells (ok none) now hit status = (hit ≡ false) × (status ≡ none)
Tells (err x) now hit status = (hit ≡ false) × (status ≡ none)

read_status-Tells :
    {J : Serde} (r : Result CacheError (Option (StoredEntry J))) (now : ℤ)
    → Tells r now (read_status r now).0 (read_status r now).1
unfolding read_status is_fresh is_stale
read_status-Tells (ok (some e)) now = ground arith
read_status-Tells (ok none) now = (refl, refl)
read_status-Tells (err x) now = (refl, refl)

module _ {J : Serde} {W : Type 0} {P : Platform W} (s : MetricsStore J P) (namespace : String)
    (w : W) where
  -- A read answers with what the inner store answers, also with its errors, spawns what it spawns, and
  -- emits one metric after it. The metric tells a hit exactly if an entry was found, the age of the
  -- entry at the time after the read, and a thousand times the seconds that the read took.
  pub get_emits :
      (key : String)
      → let o = exec (s.inner.get namespace key) w in
        (hit : Bool) × (status : Option CacheEntryStatus) × Tells o.result
          (now_ms P o.world)
          hit
          status
        × (exec (get s namespace key) w ≡ record {
          result = o.result;
          world =
              s.sink.emit
                (read_metric key hit status
                  (Floats.mul
                    (Platform.floats P)
                    (Platform.secs_between P (Platform.instant P w) (Platform.instant P o.world))
                    (Floats.thousand_f (Platform.floats P)))
                  s.tier_name
                  namespace)
                o.world;
          spawned = o.spawned;
        })
  unfolding get elapsed_ms
  get_emits key =
      let o = exec (s.inner.get namespace key) w in
      let found = read_status o.result (now_ms P o.world) in
      (
        found.0,
        found.1,
        read_status-Tells o.result (now_ms P o.world),
        exec-bind (s.inner.get namespace key) _ w ∙ rw append-nil,
      )

  -- A write or a removal answers with what the inner store answers, also with its errors, and emits
  -- one metric after it.
  pub set_remove_emit :
      (key : String) (entry : StoredEntry J) (keys : List String)
      → (let o = exec (s.inner.set namespace key entry) w in
          let latency_ms = elapsed_ms P (Platform.instant P w) o.world in
          exec (set s namespace key entry) w ≡ record {
            result = o.result;
            world = s.sink.emit (write_metric key latency_ms s.tier_name namespace) o.world;
            spawned = o.spawned;
          })
        × (let o = exec (s.inner.remove namespace keys) w in
            let latency_ms = elapsed_ms P (Platform.instant P w) o.world in
            exec (remove s namespace keys) w ≡ record {
              result = o.result;
              world =
                  s.sink.emit
                    (remove_metric (length keys) (first? keys) latency_ms s.tier_name namespace)
                    o.world;
              spawned = o.spawned;
            })
  unfolding set remove
  set_remove_emit key entry keys = (
    exec-bind (s.inner.set namespace key entry) _ w ∙ rw append-nil,
    exec-bind (s.inner.remove namespace keys) _ w ∙ rw append-nil,
  )
