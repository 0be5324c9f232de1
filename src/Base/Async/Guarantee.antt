-- ===== src/Base/Async/Guarantee.antt =====
-- Futures and tasks of which each segment takes the world to one that it is related to, whatever
-- other tasks have done in between.
use swr_cache.Base.Tests.{if◌then◌else◌}
use swr_cache.Base.Async.{Task, finished, act, start, Async, ret, step, fork, ◌>>=◌, task_of}
use mathlib.Core.Bool.{Bool, true, false}

pub data TaskGuarantees {W : Type 0} (R : W → W → Type 0) : Task W → Type 0 where
  finishes : TaskGuarantees R finished
  acts :
      {f : W → W} {g : W → Task W}
      → ((w : W) → R w (f w))
      → ((w : W) → TaskGuarantees R (g w))
      → TaskGuarantees R (act f g)
  starts :
      {t rest : Task W}
      → TaskGuarantees R t
      → TaskGuarantees R rest
      → TaskGuarantees R (start t rest)

pub data Guarantees {W : Type 0} (R : W → W → Type 0) {A : Type 0} : Async W A → Type 0 where
  returns : {a : A} → Guarantees R (ret a)
  steps :
      {f : W → W} {g : W → Async W A}
      → ((w : W) → R w (f w))
      → ((w : W) → Guarantees R (g w))
      → Guarantees R (step f g)
  forks :
      {t : Task W} {m : Async W A} → TaskGuarantees R t → Guarantees R m → Guarantees R (fork t m)

module _ {W : Type 0} {R : W → W → Type 0} where
  module _ {A : Type 0} where
    pub Guarantees-if :
        (b : Bool) {m n : Async W A}
        → Guarantees R m
        → Guarantees R n
        → Guarantees R (if b then m else n)
    Guarantees-if true hm hn = hm
    Guarantees-if false hm hn = hn

    pub TaskGuarantees-task_of : {m : Async W A} → Guarantees R m → TaskGuarantees R (task_of m)
    TaskGuarantees-task_of returns = finishes
    TaskGuarantees-task_of (steps keep rest) = acts keep (λ w. TaskGuarantees-task_of (rest w))
    TaskGuarantees-task_of (forks kept rest) = starts kept (TaskGuarantees-task_of rest)

  pub Guarantees-bind :
      {A B : Type 0} {m : Async W A} {k : A → Async W B}
      → Guarantees R m
      → ((a : A) → Guarantees R (k a))
      → Guarantees R (m >>= k)
  Guarantees-bind returns next = next _
  Guarantees-bind (steps keep rest) next = steps keep (λ w. Guarantees-bind (rest w) next)
  Guarantees-bind (forks kept rest) next = forks kept (Guarantees-bind rest next)

  -- A weaker relation.
  module _ {S : W → W → Type 0} (weaker : (w w' : W) → R w w' → S w w') where
    pub TaskGuarantees-mono : {t : Task W} → TaskGuarantees R t → TaskGuarantees S t
    TaskGuarantees-mono finishes = finishes
    TaskGuarantees-mono (acts keep rest) =
        acts (λ w. weaker w _ (keep w)) (λ w. TaskGuarantees-mono (rest w))
    TaskGuarantees-mono (starts kept rest) =
        starts (TaskGuarantees-mono kept) (TaskGuarantees-mono rest)

    pub Guarantees-mono : {A : Type 0} {m : Async W A} → Guarantees R m → Guarantees S m
    Guarantees-mono returns = returns
    Guarantees-mono (steps keep rest) =
        steps (λ w. weaker w _ (keep w)) (λ w. Guarantees-mono (rest w))
    Guarantees-mono (forks kept rest) = forks (TaskGuarantees-mono kept) (Guarantees-mono rest)
