-- ===== src/Base/Async/Within.antt =====
-- A bound on the segments that a future takes, whatever runs between them.
use swr_cache.Base.Tests.{if◌then◌else◌}
use swr_cache.Base.Async.{Task, Async, ret, step, fork, ◌>>=◌}
use swr_cache.Base.Async.Interleave.{Config, own, spawns, other, Reach, here, later}
use Prim.Native.Nat.{ℕ, zero, suc, ◌+◌, ◌≤◌}
use mathlib.Core.Path.{◌≡◌, refl, subst, sym}
use mathlib.Core.Bool.{Bool, true, false}
use native.Mathlib.Omega.{arith}

-- At most `n` segments and spawns.
pub data Within {W A : Type 0} : ℕ → Async W A → Type 0 where
  ends : {n : ℕ} {a : A} → Within n (ret a)
  takes :
      {n : ℕ} {f : W → W} {g : W → Async W A}
      → ((w : W) → Within n (g w))
      → Within (suc n) (step f g)
  spawned : {n : ℕ} {t : Task W} {m : Async W A} → Within n m → Within (suc n) (fork t m)

module _ {W A : Type 0} where
  pub Within-le : {n k : ℕ} {m : Async W A} → n ≤ k → Within n m → Within k m
  Within-le h ends = ends
  Within-le {k = zero} h (takes rest) = absurd (omega arith)
  Within-le {k = suc k} h (takes rest) = takes (λ w. Within-le (omega arith) (rest w))
  Within-le {k = zero} h (spawned rest) = absurd (omega arith)
  Within-le {k = suc k} h (spawned rest) = spawned (Within-le (omega arith) rest)

  pub Within-if :
      {n : ℕ} (b : Bool) {l r : Async W A} → Within n l → Within n r → Within n (if b then l else r)
  Within-if true hl hr = hl
  Within-if false hl hr = hr

module _ {W A B : Type 0} where
  pub Within-bind :
      {n k : ℕ} {m : Async W A} {f : A → Async W B}
      → Within n m
      → ((a : A) → Within k (f a))
      → Within (n + k) (m >>= f)
  Within-bind {n} {k} ends next = Within-le (omega arith) (next _)
  Within-bind (takes rest) next = Within-le (omega arith) (takes (λ w. Within-bind (rest w) next))
  Within-bind (spawned rest) next = Within-le (omega arith) (spawned (Within-bind rest next))

module _ {W A : Type 0} where
  -- The moves that the call itself has made.
  pub turns : {s t : Config W A} → Reach s t → ℕ
  turns here = 0
  turns (later r (own f g e e')) = suc (turns r)
  turns (later r (spawns t m e e')) = suc (turns r)
  turns (later r (other before after ts t w e turn e')) = turns r

  -- The call has at most `left` segments to go, and with those that it has made no more than `n`.
  pub record IsLeft {s t : Config W A} (n : ℕ) (r : Reach s t) : Type 0 where
    pub left : ℕ
    pub call : Within left t.call
    pub sum : left + turns r ≤ n

  step-Within :
      {n : ℕ} {f : W → W} {g : W → Async W A} (w : W)
      → Within n (step f g)
      → (k : ℕ) × (Within k (g w) × suc k ≡ n)
  step-Within w (takes {n} rest) = (n, (rest w, refl))

  fork-Within :
      {n : ℕ} {t : Task W} {m : Async W A}
      → Within n (fork t m)
      → (k : ℕ) × (Within k m × suc k ≡ n)
  fork-Within (spawned {n} rest) = (n, (rest, refl))

  -- However the turns fall, a bounded call stays within its bound.
  pub Reach-IsLeft : {n : ℕ} {s t : Config W A} → Within n s.call → (r : Reach s t) → IsLeft n r
  unfolding turns
  Reach-IsLeft {n} h here = record { left = n; call = h; sum = omega arith }
  Reach-IsLeft h (later {t} r (own f g e e')) =
      let l = Reach-IsLeft h r in
      let (k, (hk, le)) = step-Within t.world (subst (Within l.left) e l.call) in
      let total = l.sum in
      record { left = k; call = subst (λ c. Within k c.call) (sym e') hk; sum = omega arith }
  Reach-IsLeft h (later r (spawns t m e e')) =
      let l = Reach-IsLeft h r in
      let (k, (hk, le)) = fork-Within (subst (Within l.left) e l.call) in
      let total = l.sum in
      record { left = k; call = subst (λ c. Within k c.call) (sym e') hk; sum = omega arith }
  Reach-IsLeft h (later r (other before after ts t w e turn e')) =
      let l = Reach-IsLeft h r in
      record {
        left = l.left;
        call = subst (λ c. Within l.left c.call) (sym e') l.call;
        sum = l.sum;
      }
