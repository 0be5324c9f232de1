-- ===== src/Swr/Revalidation.antt =====
-- The background revalidation of a key (src/swr.rs: spawn_revalidation).
use swr_cache.Base.{
  ◌≡◌, refl, ap, ◌∙◌, Bool, true, false, Option, none, some, String, Result, ok, err, if◌then◌else◌,
}
use swr_cache.Base.Int.{◌+i64◌}
use swr_cache.Base.Async.{Task, task_of, Async, ◌>>=◌, ◌>>◌, ret, modify}
use swr_cache.Base.Async.Exec.{run, run_task, run-bind, run_task-task_of}
use swr_cache.Platform.{Serde, Platform}
use swr_cache.Utils.{now_ms}
use swr_cache.Entry.{StoredEntry}
use swr_cache.Swr.Data.{SwrCache, Origin, entry_for}
use swr_cache.Swr.Direct.{store_entry}
use swr_cache.Swr.{store_loaded, revalidation}
use swr_cache.Swr.Loads.{marked, mark, unmark}

module _ {J : Serde} {W : Type 0} (P : Platform W) {t : Serde.TypeId J} (c : SwrCache J W t)
    (namespace key : String) (load : Origin J W t) where
  abbrev pub task : Task W
  task = task_of (revalidation P c namespace key load)

  -- What follows the origin's call.
  abbrev pub rest : Option (Serde.Val J t) → Async W (Unit {0})
  rest v = store_loaded P c namespace key v >> modify (unmark c namespace key)

  -- The task after its check of the mark.
  abbrev pub unless : Bool → Async W (Unit {0})
  unless running =
      if running then ret tt else (modify (mark c namespace key) >>= λ _. load key >>= rest)

  -- While a revalidation or a load of the key is marked, another revalidation of it does nothing:
  -- the origin is not called, and the world is as before.
  pub revalidation_deduplicated : (w : W) → marked c namespace key w ≡ true → run_task task w ≡ w
  unfolding revalidation
  revalidation_deduplicated w running = ap (λ b. run_task (task_of (unless b)) w) running

  -- What the origin gave, as the entry that the store is given.
  abbrev pub renewed : Serde.Val J t → W → Result String (StoredEntry J)
  renewed v w =
      entry_for t c.store.storage_mode v (now_ms P w +i64 c.fresh_ms) (now_ms P w +i64 c.stale_ms)

  -- The origin's call, under the mark.
  abbrev pub origin : W → Option (Serde.Val J t) × W
  origin w = run (load key) (mark c namespace key w)

  -- The store's write of it; without an entry the world stays.
  abbrev pub put : Result String (StoredEntry J) → W → W
  put (ok e) w = (run (c.store.set namespace key e) w).1
  put (err x) w = w

  abbrev pub stored : Option (Serde.Val J t) → W → W
  stored none w = w
  stored (some v) w = put (renewed v w) w

  run-store_entry :
      (r : Result String (StoredEntry J)) (w : W)
      → (run (store_entry c namespace key r) w).1 ≡ put r w
  unfolding store_entry
  run-store_entry (ok e) w =
      ap (λ (p : Unit {0} × W). p.1) (run-bind (c.store.set namespace key e) (λ _. ret tt) w)
  run-store_entry (err x) w = refl

  run-store_loaded :
      (v : Option (Serde.Val J t)) (w : W)
      → (run (store_loaded P c namespace key v) w).1 ≡ stored v w
  unfolding store_loaded
  run-store_loaded none w = refl
  run-store_loaded (some v) w = run-store_entry (renewed v w) w

  run-rest :
      (v : Option (Serde.Val J t)) (w : W)
      → (run (rest v) w).1 ≡ unmark c namespace key (stored v w)
  run-rest v w =
      ap (λ (p : Unit {0} × W). p.1)
        (run-bind (store_loaded P c namespace key v) (λ _. modify (unmark c namespace key)) w)
      ∙ ap (unmark c namespace key) (run-store_loaded v w)

  -- One whole revalidation: the origin's call, the write, and the mark taken away.
  abbrev pub round : W → W
  round w = unmark c namespace key (stored (origin w).0 (origin w).1)

  pub run-unless : (w : W) → run_task (task_of (unless false)) w ≡ round w
  run-unless w =
      let w' = mark c namespace key w in
      run_task-task_of (load key >>= rest) w'
      ∙ ap (λ (p : Unit {0} × W). p.1) (run-bind (load key) rest w')
      ∙ run-rest (origin w).0 (origin w).1

  -- With no mark, a revalidation marks the key, calls the origin once, writes what it gives with the
  -- times from after the call, and takes the mark away, also where the origin gives nothing, the
  -- value cannot be serialized, or the store fails.
  pub revalidation_runs : (w : W) → marked c namespace key w ≡ false → run_task task w ≡ round w
  unfolding revalidation
  revalidation_runs w free = ap (λ b. run_task (task_of (unless b)) w) free ∙ run-unless w
