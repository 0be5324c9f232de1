-- ===== src/Base/Async/Join/Bounded.antt =====
-- How many segments futures take that are run together.
use swr_cache.Base.Tests.{All, length}
use swr_cache.Base.Async.{Task, Async, step, fork}
use swr_cache.Base.Async.Within.{Within, ends, takes, spawned, Within-le}
use swr_cache.Base.Async.Join.{IsJoin, ended}
use Prim.Native.Nat.{ℕ, suc, ◌+◌, ◌*◌, ◌≤◌}
use mathlib.Core.List.{List, [], ◌∷◌, ◌++◌}
use native.Mathlib.Omega.{arith}

module _ {W A : Type 0} where
  -- The futures take `n` segments all told.
  abbrev Total : ℕ → List (Async W A) → Type 0
  Total n [] = Unit
  Total n (m ∷ ms) = (a : ℕ) × (b : ℕ) × Within a m × Total b ms × (a + b ≤ n)

  step-Within :
      {a : ℕ} {f : W → W} {g : W → Async W A}
      → Within a (step f g)
      → (b : ℕ) × (suc b ≤ a) × ((w : W) → Within b (g w))
  step-Within (takes {n} rest) = (n, omega arith, rest)

  fork-Within :
      {a : ℕ} {t : Task W} {m : Async W A}
      → Within a (fork t m)
      → (b : ℕ) × (suc b ≤ a) × Within b m
  fork-Within (spawned {n} rest) = (n, omega arith, rest)

  Total-step :
      (before after : List (Async W A)) (f : W → W) (g : W → Async W A) (n : ℕ)
      → Total n (before ++ step f g ∷ after)
      → (k : ℕ) × (suc k ≤ n) × ((w : W) → Total k (before ++ g w ∷ after))
  Total-step [] after f g n (a, b, h, hs, sum) =
      let (c, less, rest) = step-Within h in
      (c + b, omega arith, λ w. (c, b, rest w, hs, omega arith))
  Total-step (m ∷ before) after f g n (a, b, h, hs, sum) =
      let (c, less, rest) = Total-step before after f g b hs in
      (a + c, omega arith, λ w. (a, c, h, rest w, omega arith))

  Total-fork :
      (before after : List (Async W A)) (t : Task W) (m' : Async W A) (n : ℕ)
      → Total n (before ++ fork t m' ∷ after)
      → (k : ℕ) × (suc k ≤ n) × Total k (before ++ m' ∷ after)
  Total-fork [] after t m' n (a, b, h, hs, sum) =
      let (c, less, rest) = fork-Within h in (c + b, omega arith, (c, b, rest, hs, omega arith))
  Total-fork (m ∷ before) after t m' n (a, b, h, hs, sum) =
      let (c, less, rest) = Total-fork before after t m' b hs in
      (a + c, omega arith, (a, c, h, rest, omega arith))

  Total-Within :
      {ms : List (Async W A)} {j : Async W (List A)}
      → IsJoin ms j
      → (n : ℕ) → Total n ms
      → Within n j
  Total-Within (ended results) n h = ends
  Total-Within (IsJoin.takes before after f g k rest) n h =
      let (l, less, next) = Total-step before after f g n h in
      Within-le less (takes (λ w. Total-Within (rest w) l (next w)))
  Total-Within (IsJoin.spawns before after t m k rest) n h =
      let (l, less, next) = Total-fork before after t m n h in
      Within-le less (spawned (Total-Within rest l next))

  Total-All : (n : ℕ) (ms : List (Async W A)) → All (Within n) ms → Total (length ms * n) ms
  Total-All n [] h = tt
  Total-All n (m ∷ ms) h = (n, length ms * n, h.0, Total-All n ms h.1, omega arith)

  -- Together they take no more segments than one after the other.
  pub Join-Within :
      {ms : List (Async W A)} {j : Async W (List A)} (n : ℕ)
      → IsJoin ms j
      → All (Within n) ms
      → Within (length ms * n) j
  Join-Within {ms} n joined h = Total-Within joined (length ms * n) (Total-All n ms h)
