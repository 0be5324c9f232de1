-- ===== src/Base/Async/Ledger.antt =====
-- The debts of all tasks, under any interleaving.
use swr_cache.Base.Tests.{All}
use swr_cache.Base.Async.{Task, finished, Async, ret, step, fork}
use swr_cache.Base.Async.Interleave.{
  Turn, begins, Config, Move, own, spawns, other, Reach, here, later, All-append, All-parts,
}
use swr_cache.Base.Async.Debt.{TaskOwes, Owes}
use mathlib.Core.Path.{◌≡◌, refl, subst, sym}
use mathlib.Core.Bool.{Bool, true, false, ◌||◌}
use mathlib.Core.List.{List, [], ◌∷◌, ◌++◌}
use mathlib.Core.Logic.{◌⊎◌, inl, inr}
use native.Mathlib.Omega.{arith}

module _ {W : Type 0} (Inv Held : W → Type 0) where
  abbrev pub Account : Task W → Type 0
  Account t = (b : Bool) × TaskOwes Inv Held b t

  -- Some task has a debt.
  abbrev owed : (ts : List (Task W)) → All Account ts → Bool
  owed [] _ = false
  owed (t ∷ ts) (a, rest) = a.0 || owed ts rest

  owed-append :
      (xs ys : List (Task W)) (hx : All Account xs) (hy : All Account ys)
      → owed (xs ++ ys) (All-append Account xs ys hx hy) ≡ (owed xs hx || owed ys hy)
  unfolding All-append
  owed-append [] ys hx hy = refl
  owed-append (x ∷ xs) ys hx hy = ground (arith, owed-append xs ys hx.1 hy)

  owed-parts :
      (xs : List (Task W)) (y : Task W) (zs : List (Task W)) (h : All Account (xs ++ y ∷ zs))
      → let (hx, hy, hz) = All-parts Account xs y zs h in
        owed (xs ++ y ∷ zs) h ≡ (owed xs hx || (hy.0 || owed zs hz))
  unfolding All-parts
  owed-parts [] y zs h = refl
  owed-parts (x ∷ xs) y zs h = ground (arith, owed-parts xs y zs h.1)

  -- What is held is owed, by the call or by a task.
  pub record IsBalanced {A : Type 0} (s : Config W A) : Type 0 where
    pub own_debt : Bool
    pub call : Owes Inv Held own_debt s.call
    pub tasks : All Account s.tasks
    pub world : Inv s.world
    pub held : Held s.world → (own_debt || owed s.tasks tasks) ≡ true

  finished_owes : {b : Bool} {t : Task W} → TaskOwes Inv Held b t → t ≡ finished → b ≡ false
  finished_owes TaskOwes.finishes e = refl
  finished_owes (TaskOwes.keeps keep rest) e = cc
  finished_owes (TaskOwes.takes keep rest) e = cc
  finished_owes (TaskOwes.gives keep rest) e = cc
  finished_owes (TaskOwes.starts kept rest) e = cc

  call-Owes : {A : Type 0} {b : Bool} {a : A} → Owes Inv Held b (ret a) → b ≡ false
  call-Owes Owes.returns = refl

  -- After a segment of one with debt `b`: what is held was held, or is owed now.
  abbrev Settled : Bool → Bool → W → W → Type 0
  Settled b b' w w' = Held w' → (b' ≡ true) ⊎ (Held w × (b' ≡ b))

  own_segment :
      {A : Type 0} {b : Bool} {f : W → W} {g : W → Async W A} (w : W)
      → Owes Inv Held b (step f g)
      → Inv w
      → (b' : Bool) × Owes Inv Held b' (g w) × Inv (f w) × Settled b b' w (f w)
  own_segment {b} w (Owes.keeps keep rest) i =
      (b, rest w, (keep w i).0, λ h. inr ((keep w i).1 h, refl))
  own_segment w (Owes.takes keep rest) i = (true, rest w, keep w i, λ _. inl refl)
  own_segment w (Owes.gives keep rest) i =
      (false, rest w, (keep w i).0, λ h. absurd ((keep w i).1 h))

  own_spawn :
      {A : Type 0} {b : Bool} {t : Task W} {m : Async W A}
      → Owes Inv Held b (fork t m)
      → TaskOwes Inv Held false t × Owes Inv Held b m
  own_spawn (Owes.forks kept rest) = (kept, rest)

  Turn-Settled :
      {t : Task W} {w w' : W} {ts : List (Task W)} {b : Bool}
      → Turn t w w' ts
      → TaskOwes Inv Held b t
      → Inv w
      → (hts : All Account ts) × Inv w' × Settled b (owed ts hts) w w'
  Turn-Settled {b} (Turn.takes f g w) (TaskOwes.keeps keep rest) i =
      (((b, rest w), tt), (keep w i).0, λ h. inr ((keep w i).1 h, ground arith))
  Turn-Settled (Turn.takes f g w) (TaskOwes.takes keep rest) i =
      (((true, rest w), tt), keep w i, λ _. inl refl)
  Turn-Settled (Turn.takes f g w) (TaskOwes.gives keep rest) i =
      (((false, rest w), tt), (keep w i).0, λ h. absurd ((keep w i).1 h))
  Turn-Settled {b} (begins t rest w) (TaskOwes.starts kept others) i =
      (((false, kept), ((b, others), tt)), i, λ h. inr (h, ground arith))

  module _ {A : Type 0} where
    own-IsBalanced :
        (f : W → W) (g : W → Async W A) (ts : List (Task W)) (w : W)
        → IsBalanced (record { call = step f g; tasks = ts; world = w })
        → IsBalanced (record { call = g w; tasks = ts; world = f w })
    own-IsBalanced f g ts w h =
        let (b', call, world, settled) = own_segment w h.call h.world in
        record {
          own_debt = b';
          call = call;
          tasks = h.tasks;
          world = world;
          held = λ held. elim (settled held) [
            | inl e ↦ ground arith
            | inr (was, e) ↦ ground (arith, h.held was)
          ];
        }

    spawns-IsBalanced :
        (t : Task W) (m : Async W A) (ts : List (Task W)) (w : W)
        → IsBalanced (record { call = fork t m; tasks = ts; world = w })
        → IsBalanced (record { call = m; tasks = t ∷ ts; world = w })
    spawns-IsBalanced t m ts w h =
        let (kept, rest) = own_spawn h.call in
        record {
          own_debt = h.own_debt;
          call = rest;
          tasks = ((false, kept), h.tasks);
          world = h.world;
          held = h.held;
        }

    other-IsBalanced :
        (before after ts : List (Task W)) (t : Task W) (call : Async W A) (w w' : W)
        → Turn t w w' ts
        → IsBalanced (record { call = call; tasks = before ++ t ∷ after; world = w })
        → IsBalanced (record { call = call; tasks = before ++ (ts ++ after); world = w' })
    other-IsBalanced before after ts t call w w' turn h =
        let (hb, ht, ha) = All-parts Account before t after h.tasks in
        let (hts, world, settled) = Turn-Settled turn ht.1 h.world in
        let new = All-append Account ts after hts ha in
        let was = owed-parts before t after h.tasks in
        let is = owed-append before (ts ++ after) hb new in
        let is' = owed-append ts after hts ha in
        record {
          own_debt = h.own_debt;
          call = h.call;
          tasks = All-append Account before (ts ++ after) hb new;
          world = world;
          held = λ held. elim (settled held) [
            | inl e ↦ ground arith
            | inr (held', e) ↦ ground (arith, h.held held')
          ];
        }

    Move-IsBalanced : (s u : Config W A) → Move s u → IsBalanced s → IsBalanced u
    Move-IsBalanced s u (own f g e e') h = subst IsBalanced (sym e') (
        own-IsBalanced f g s.tasks s.world
          (subst (λ m. IsBalanced (record { call = m; tasks = s.tasks; world = s.world })) e h))
    Move-IsBalanced s u (spawns t m e e') h = subst IsBalanced (sym e') (
        spawns-IsBalanced t m s.tasks s.world
          (subst (λ n. IsBalanced (record { call = n; tasks = s.tasks; world = s.world })) e h))
    Move-IsBalanced s u (other before after ts t w e turn e') h = subst IsBalanced (sym e') (
        other-IsBalanced before after ts t s.call s.world w turn
          (subst (λ l. IsBalanced (record { call = s.call; tasks = l; world = s.world })) e h))

    pub Reach-IsBalanced : {s t : Config W A} → IsBalanced s → Reach s t → IsBalanced t
    Reach-IsBalanced h here = h
    Reach-IsBalanced h (later r m) = Move-IsBalanced _ _ m (Reach-IsBalanced h r)

  ended-owed :
      (ts : List (Task W)) (h : All Account ts) → All (λ t. t ≡ finished) ts → owed ts h ≡ false
  ended-owed [] h done = refl
  ended-owed (t ∷ ts) h done = ground (arith, finished_owes h.0.1 done.0, ended-owed ts h.1 done.1)

  -- Where all have ended, nothing is held.
  pub ended-Held :
      {A : Type 0} {a : A} (ts : List (Task W)) (w : W)
      → IsBalanced (record { call = ret a; tasks = ts; world = w })
      → All (λ t. t ≡ finished) ts
      → Held w
      → ⊥
  ended-Held ts w h done held =
      ground (arith, h.held held, call-Owes h.call, ended-owed ts h.tasks done)
