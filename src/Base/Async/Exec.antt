-- ===== src/Base/Async/Exec.antt =====
-- What a future does when it runs through with no other task between its segments.
use swr_cache.Base.Async.{Task, finished, act, start, Async, ret, step, fork, ◌>>=◌, task_of}
use mathlib.Core.Path.{◌≡◌, refl, ap, ◌∙◌}
use mathlib.Core.List.{List, [], ◌∷◌, ◌++◌, append-nil}

-- The result, the world after it, and the tasks that it spawned and that have yet to run.
pub record Outcome (W A : Type 0) : Type 0 where
  pub result : A
  pub world : W
  pub spawned : List (Task W)

module _ {W : Type 0} where
  abbrev pub exec : {A : Type 0} → Async W A → W → Outcome W A
  exec (ret a) w = record { result = a; world = w; spawned = [] }
  exec (step f g) w = exec (g w) (f w)
  exec (fork t m) w = let o = exec m w in record o { spawned = t ∷ o.spawned }

  -- The outcome of a future, then of what follows it.
  abbrev pub andthen : {A B : Type 0} → Outcome W A → (A → Async W B) → Outcome W B
  andthen o k = let p = exec (k o.result) o.world in record p { spawned = o.spawned ++ p.spawned }

  pub exec-bind :
      {A B : Type 0} (m : Async W A) (k : A → Async W B) (w : W)
      → exec (m >>= k) w ≡ andthen (exec m w) k
  exec-bind (ret a) k w = refl
  exec-bind (step f g) k w = exec-bind (g w) k (f w)
  exec-bind (fork t m) k w =
      ap (λ (o : Outcome W _). record o { spawned = t ∷ o.spawned }) (exec-bind m k w)

  module _ {A B : Type 0} (m : Async W A) (k : A → Async W B) (w : W) where
    pub result-bind :
        (exec (m >>= k) w).result ≡ (exec (k (exec m w).result) (exec m w).world).result
    result-bind = ap (λ (o : Outcome W B). o.result) (exec-bind m k w)

    pub world-bind : (exec (m >>= k) w).world ≡ (exec (k (exec m w).result) (exec m w).world).world
    world-bind = ap (λ (o : Outcome W B). o.world) (exec-bind m k w)

    pub spawned-bind :
        (exec (m >>= k) w).spawned
        ≡ (exec m w).spawned ++ (exec (k (exec m w).result) (exec m w).world).spawned
    spawned-bind = ap (λ (o : Outcome W B). o.spawned) (exec-bind m k w)

  -- Where the rest only computes, it changes the result alone.
  pub exec-bind_pure :
      {A B : Type 0} (m : Async W A) (k : A → Async W B) (f : A → W → B) (w : W)
      → ((a : A) (v : W) → exec (k a) v ≡ record { result = f a v; world = v; spawned = [] })
      → let o = exec m w in
        exec (m >>= k) w
        ≡ record { result = f o.result o.world; world = o.world; spawned = o.spawned }
  exec-bind_pure m k f w pure =
      let o = exec m w in
      exec-bind m k w
      ∙ ap (λ (p : Outcome W _). record p { spawned = o.spawned ++ p.spawned })
          (pure o.result o.world)
      ∙ rw append-nil

  -- A task, and each task that it starts, run to the end one after the other.
  abbrev pub run_task : Task W → W → W
  run_task finished w = w
  run_task (act f g) w = run_task (g w) (f w)
  run_task (start t rest) w = run_task rest (run_task t w)

  abbrev pub run_tasks : List (Task W) → W → W
  run_tasks [] w = w
  run_tasks (t ∷ ts) w = run_tasks ts (run_task t w)

  -- A future run through, with each task that it starts run to the end where it is started.
  abbrev pub run : {A : Type 0} → Async W A → W → A × W
  run (ret a) w = (a, w)
  run (step f g) w = run (g w) (f w)
  run (fork t m) w = run m (run_task t w)

  pub run-bind :
      {A B : Type 0} (m : Async W A) (k : A → Async W B) (w : W)
      → run (m >>= k) w ≡ run (k (run m w).0) (run m w).1
  run-bind (ret a) k w = refl
  run-bind (step f g) k w = run-bind (g w) k (f w)
  run-bind (fork t m) k w = run-bind m k (run_task t w)

  -- What is spawned does to the world what the future does.
  pub run_task-task_of : {A : Type 0} (m : Async W A) (w : W) → run_task (task_of m) w ≡ (run m w).1
  run_task-task_of (ret a) w = refl
  run_task-task_of (step f g) w = run_task-task_of (g w) (f w)
  run_task-task_of (fork t m) w = run_task-task_of m (run_task t w)

  -- A future that spawns nothing has one way to run.
  pub run-exec :
      {A : Type 0} (m : Async W A) (w : W)
      → (exec m w).spawned ≡ []
      → run m w ≡ ((exec m w).result, (exec m w).world)
  run-exec (ret a) w h = refl
  run-exec (step f g) w h = run-exec (g w) (f w) h
  run-exec (fork t m) w h = cc

  -- One segment of a future, and what is left of it.
  abbrev pub advance : {A : Type 0} → Async W A → W → Async W A × W
  advance (ret a) w = (ret a, w)
  advance (step f g) w = (g w, f w)
  advance (fork t m) w = (m, w)

  abbrev pub advance_task : Task W → W → Task W × W
  advance_task finished w = (finished, w)
  advance_task (act f g) w = (g w, f w)
  advance_task (start t rest) w = (rest, w)
