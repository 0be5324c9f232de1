-- ===== src/Base/Async/Safe.antt =====
-- Invariants of the shared world that every segment of a future keeps, wherever other tasks run in
-- between, and what they say of every interleaving.
use swr_cache.Base.Tests.{if◌then◌else◌}
use swr_cache.Base.Async.{
  Task, finished, act, start, Async, ret, step, fork, ◌>>=◌, atomic, gets, modify, task_of, spawn,
}
use mathlib.Core.Path.{◌≡◌, refl}
use mathlib.Core.Bool.{Bool, true, false}

-- Each segment of the task keeps the invariant, and so does each task that it starts.
pub data Keeps {W : Type 0} (Inv : W → Type 0) : Task W → Type 0 where
  finishes : Keeps Inv finished
  acts :
      {f : W → W} {g : W → Task W}
      → ((w : W) → Inv w → Inv (f w))
      → ((w : W) → Inv w → Keeps Inv (g w))
      → Keeps Inv (act f g)
  starts : {t rest : Task W} → Keeps Inv t → Keeps Inv rest → Keeps Inv (start t rest)

-- Likewise for a future, which gives a result in `Q` if it gives one.
pub data Ensures {W : Type 0} (Inv : W → Type 0) {A : Type 0} (Q : A → Type 0)
    : Async W A → Type 0 where
  returns : {a : A} → Q a → Ensures Inv Q (ret a)
  steps :
      {f : W → W} {g : W → Async W A}
      → ((w : W) → Inv w → Inv (f w))
      → ((w : W) → Inv w → Ensures Inv Q (g w))
      → Ensures Inv Q (step f g)
  forks : {t : Task W} {m : Async W A} → Keeps Inv t → Ensures Inv Q m → Ensures Inv Q (fork t m)

module _ {W : Type 0} {Inv : W → Type 0} where
  module _ {A : Type 0} {Q : A → Type 0} where
    pub Ensures-gets : (f : W → A) → ((w : W) → Inv w → Q (f w)) → Ensures Inv Q (gets f)
    Ensures-gets f h = steps (λ w i. i) (λ w i. returns (h w i))

    pub Ensures-atomic :
        (f : W → A × W) → ((w : W) → Inv w → Q (f w).0 × Inv (f w).1) → Ensures Inv Q (atomic f)
    Ensures-atomic f h = steps (λ w i. (h w i).1) (λ w i. returns (h w i).0)

    pub Ensures-if :
        (b : Bool) {m n : Async W A}
        → (b ≡ true → Ensures Inv Q m)
        → (b ≡ false → Ensures Inv Q n)
        → Ensures Inv Q (if b then m else n)
    Ensures-if true hm hn = hm refl
    Ensures-if false hm hn = hn refl

    pub Keeps-task_of : {m : Async W A} → Ensures Inv Q m → Keeps Inv (task_of m)
    Keeps-task_of (returns h) = finishes
    Keeps-task_of (steps keep rest) = acts keep (λ w i. Keeps-task_of (rest w i))
    Keeps-task_of (forks kept rest) = starts kept (Keeps-task_of rest)

    pub Ensures-spawn : {m : Async W A} → Ensures Inv Q m → Ensures Inv (λ _. Unit {0}) (spawn m)
    Ensures-spawn h = forks (Keeps-task_of h) (returns tt)

  module _ {A : Type 0} {Q R : A → Type 0} where
    pub Ensures-mono : {m : Async W A} → ((a : A) → Q a → R a) → Ensures Inv Q m → Ensures Inv R m
    Ensures-mono weaker (returns h) = returns (weaker _ h)
    Ensures-mono weaker (steps keep rest) = steps keep (λ w i. Ensures-mono weaker (rest w i))
    Ensures-mono weaker (forks kept rest) = forks kept (Ensures-mono weaker rest)

  module _ {A B : Type 0} {Q : A → Type 0} {R : B → Type 0} where
    pub Ensures-bind :
        {m : Async W A} {k : A → Async W B}
        → Ensures Inv Q m
        → ((a : A) → Q a → Ensures Inv R (k a))
        → Ensures Inv R (m >>= k)
    Ensures-bind (returns h) next = next _ h
    Ensures-bind (steps keep rest) next = steps keep (λ w i. Ensures-bind (rest w i) next)
    Ensures-bind (forks kept rest) next = forks kept (Ensures-bind rest next)

  pub Ensures-modify :
      {f : W → W} → ((w : W) → Inv w → Inv (f w)) → Ensures Inv (λ _. Unit {0}) (modify f)
  Ensures-modify keep = steps keep (λ _ _. returns tt)
