-- ===== src/Base/Async.antt =====
-- async functions and background tasks over a shared world `W` (the memory of every store, the
-- clock). A function is a tree of atomic segments: what runs between two points where other tasks
-- may run. A segment changes the world, and the rest depends on the world that it found.
pub mod Exec
pub mod Safe
pub mod Interleave
pub mod Within
pub mod Guarantee
pub mod Debt
pub mod Ledger
pub mod Join
pub mod Outline
pub mod Schedule
use swr_cache.Base.Outcomes.{Result, ok, err}

-- A task given to the runtime, with no result.
pub data Task (W : Type 0) : Type 0 where
  finished : Task W
  act : (W → W) → (W → Task W) → Task W
  start : Task W → Task W → Task W

-- A future with a result; `fork` is `tokio::spawn` of a task that runs beside the rest.
pub data Async (W A : Type 0) : Type 0 where
  ret : A → Async W A
  step : (W → W) → (W → Async W A) → Async W A
  fork : Task W → Async W A → Async W A

module _ {W : Type 0} where
  infixl 5 ◌>>=◌ ◌>>◌
  abbrev pub ◌>>=◌ : {A B : Type 0} → Async W A → (A → Async W B) → Async W B
  ret a >>= k = k a
  step f g >>= k = step f (λ w. g w >>= k)
  fork t m >>= k = fork t (m >>= k)

  abbrev pub ◌>>◌ : {A B : Type 0} → Async W A → Async W B → Async W B
  m >> n = m >>= λ _. n

  -- An atomic segment that computes a value and writes.
  abbrev pub atomic : {A : Type 0} → (W → A × W) → Async W A
  atomic f = step (λ w. (f w).1) (λ w. ret (f w).0)

  abbrev pub gets : {A : Type 0} → (W → A) → Async W A
  gets f = step (λ w. w) (λ w. ret (f w))

  abbrev pub modify : (W → W) → Async W (Unit {0})
  modify f = step f (λ _. ret tt)

  -- The result of an `async move` block given to `tokio::spawn` is dropped.
  abbrev pub task_of : {A : Type 0} → Async W A → Task W
  task_of (ret a) = finished
  task_of (step f g) = act f (λ w. task_of (g w))
  task_of (fork t m) = start t (task_of m)

  abbrev pub spawn : {A : Type 0} → Async W A → Async W (Unit {0})
  spawn m = fork (task_of m) (ret tt)

  -- `m?` and then the rest: an error ends the function.
  infixl 5 ◌>>?◌
  abbrev pub ◌>>?◌ :
      {E A B : Type 0} → Async W (Result E A) → (A → Async W (Result E B)) → Async W (Result E B)
  m >>? k = m >>= λ r. elim r [ ok a ↦ k a | err e ↦ ret (err e) ]
