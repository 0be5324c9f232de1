-- ===== src/Base/Async/Debt.antt =====
-- Tasks that take something and give it back: while it is taken, some task has yet to give it back.
use swr_cache.Base.Tests.{if◌then◌else◌}
use swr_cache.Base.Async.{Task, finished, act, start, Async, ret, step, fork, ◌>>=◌, task_of}
use swr_cache.Base.Async.Guarantee.{TaskGuarantees, Guarantees}
use mathlib.Core.Bool.{Bool, true, false}

-- In a world of the invariant, a segment that takes nothing.
abbrev pub Quiet : {W : Type 0} → (W → Type 0) → (W → Type 0) → W → W → Type 0
Quiet Inv Held w w' = Inv w → Inv w' × (Held w' → Held w)

-- A task that, with `true`, gives back before its end; with `false` it gives back what it takes.
pub data TaskOwes {W : Type 0} (Inv Held : W → Type 0) : Bool → Task W → Type 0 where
  finishes : TaskOwes Inv Held false finished
  keeps :
      {b : Bool} {f : W → W} {g : W → Task W}
      → ((w : W) → Quiet Inv Held w (f w))
      → ((w : W) → TaskOwes Inv Held b (g w))
      → TaskOwes Inv Held b (act f g)
  takes :
      {b : Bool} {f : W → W} {g : W → Task W}
      → ((w : W) → Inv w → Inv (f w))
      → ((w : W) → TaskOwes Inv Held true (g w))
      → TaskOwes Inv Held b (act f g)
  gives :
      {b : Bool} {f : W → W} {g : W → Task W}
      → ((w : W) → Inv w → Inv (f w) × (Held (f w) → ⊥))
      → ((w : W) → TaskOwes Inv Held false (g w))
      → TaskOwes Inv Held b (act f g)
  starts :
      {b : Bool} {t rest : Task W}
      → TaskOwes Inv Held false t
      → TaskOwes Inv Held b rest
      → TaskOwes Inv Held b (start t rest)

pub data Owes {W : Type 0} (Inv Held : W → Type 0) {A : Type 0} : Bool → Async W A → Type 0 where
  returns : {a : A} → Owes Inv Held false (ret a)
  keeps :
      {b : Bool} {f : W → W} {g : W → Async W A}
      → ((w : W) → Quiet Inv Held w (f w))
      → ((w : W) → Owes Inv Held b (g w))
      → Owes Inv Held b (step f g)
  takes :
      {b : Bool} {f : W → W} {g : W → Async W A}
      → ((w : W) → Inv w → Inv (f w))
      → ((w : W) → Owes Inv Held true (g w))
      → Owes Inv Held b (step f g)
  gives :
      {b : Bool} {f : W → W} {g : W → Async W A}
      → ((w : W) → Inv w → Inv (f w) × (Held (f w) → ⊥))
      → ((w : W) → Owes Inv Held false (g w))
      → Owes Inv Held b (step f g)
  forks :
      {b : Bool} {t : Task W} {m : Async W A}
      → TaskOwes Inv Held false t
      → Owes Inv Held b m
      → Owes Inv Held b (fork t m)

module _ {W : Type 0} {Inv Held : W → Type 0} where
  -- A task that takes nothing gives nothing back.
  pub TaskOwes-Quiet : {t : Task W} → TaskGuarantees (Quiet Inv Held) t → TaskOwes Inv Held false t
  TaskOwes-Quiet TaskGuarantees.finishes = TaskOwes.finishes
  TaskOwes-Quiet (TaskGuarantees.acts keep rest) =
      TaskOwes.keeps keep (λ w. TaskOwes-Quiet (rest w))
  TaskOwes-Quiet (TaskGuarantees.starts kept rest) =
      TaskOwes.starts (TaskOwes-Quiet kept) (TaskOwes-Quiet rest)

  pub Owes-Quiet :
      {A : Type 0} {m : Async W A} → Guarantees (Quiet Inv Held) m → Owes Inv Held false m
  Owes-Quiet Guarantees.returns = Owes.returns
  Owes-Quiet (Guarantees.steps keep rest) = Owes.keeps keep (λ w. Owes-Quiet (rest w))
  Owes-Quiet (Guarantees.forks kept rest) = Owes.forks (TaskOwes-Quiet kept) (Owes-Quiet rest)

  pub Owes-bind :
      {A B : Type 0} {b : Bool} {m : Async W A} {k : A → Async W B}
      → Guarantees (Quiet Inv Held) m
      → ((a : A) → Owes Inv Held b (k a))
      → Owes Inv Held b (m >>= k)
  Owes-bind Guarantees.returns next = next _
  Owes-bind (Guarantees.steps keep rest) next = Owes.keeps keep (λ w. Owes-bind (rest w) next)
  Owes-bind (Guarantees.forks kept rest) next =
      Owes.forks (TaskOwes-Quiet kept) (Owes-bind rest next)

  -- What follows a future that owes nothing in the end.
  pub Owes-after :
      {A B : Type 0} {b : Bool} {m : Async W A} {k : A → Async W B}
      → Owes Inv Held b m
      → ((a : A) → Owes Inv Held false (k a))
      → Owes Inv Held b (m >>= k)
  Owes-after Owes.returns next = next _
  Owes-after (Owes.keeps keep rest) next = Owes.keeps keep (λ w. Owes-after (rest w) next)
  Owes-after (Owes.takes keep rest) next = Owes.takes keep (λ w. Owes-after (rest w) next)
  Owes-after (Owes.gives keep rest) next = Owes.gives keep (λ w. Owes-after (rest w) next)
  Owes-after (Owes.forks kept rest) next = Owes.forks kept (Owes-after rest next)

  module _ {A : Type 0} where
    pub Owes-if :
        {b : Bool} (c : Bool) {m n : Async W A}
        → Owes Inv Held b m
        → Owes Inv Held b n
        → Owes Inv Held b (if c then m else n)
    Owes-if true hm hn = hm
    Owes-if false hm hn = hn

    pub TaskOwes-task_of :
        {b : Bool} {m : Async W A} → Owes Inv Held b m → TaskOwes Inv Held b (task_of m)
    TaskOwes-task_of Owes.returns = TaskOwes.finishes
    TaskOwes-task_of (Owes.keeps keep rest) = TaskOwes.keeps keep (λ w. TaskOwes-task_of (rest w))
    TaskOwes-task_of (Owes.takes keep rest) = TaskOwes.takes keep (λ w. TaskOwes-task_of (rest w))
    TaskOwes-task_of (Owes.gives keep rest) = TaskOwes.gives keep (λ w. TaskOwes-task_of (rest w))
    TaskOwes-task_of (Owes.forks kept rest) = TaskOwes.starts kept (TaskOwes-task_of rest)
