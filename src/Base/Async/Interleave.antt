-- ===== src/Base/Async/Interleave.antt =====
-- Every order in which a call and the background tasks may take turns.
use swr_cache.Base.Tests.{All}
use swr_cache.Base.Async.{Task, act, start, Async, ret, step, fork}
use swr_cache.Base.Async.Safe.{Keeps, acts, starts, Ensures, returns, steps}
use swr_cache.Base.Async.Exec.{exec}
use mathlib.Core.Path.{◌≡◌, refl, subst, sym}
use mathlib.Core.List.{List, [], ◌∷◌, ◌++◌}

-- One segment of a task: what is left of it and what it has started, and the world after it.
pub data Turn {W : Type 0} : Task W → W → W → List (Task W) → Type 0 where
  takes : (f : W → W) (g : W → Task W) (w : W) → Turn (act f g) w (f w) (g w ∷ [])
  begins : (t rest : Task W) (w : W) → Turn (start t rest) w w (t ∷ rest ∷ [])

-- A call in progress, the tasks beside it, and the world.
pub record Config (W A : Type 0) : Type 0 where
  pub call : Async W A
  pub tasks : List (Task W)
  pub world : W

-- The scheduler lets the call run one segment, or any one of the tasks.
pub data Move {W A : Type 0} (s u : Config W A) : Type 0 where
  own :
      (f : W → W) (g : W → Async W A)
      → s.call ≡ step f g
      → u ≡ record { call = g s.world; tasks = s.tasks; world = f s.world }
      → Move s u
  spawns :
      (t : Task W) (m : Async W A)
      → s.call ≡ fork t m
      → u ≡ record { call = m; tasks = t ∷ s.tasks; world = s.world }
      → Move s u
  other :
      (before after ts : List (Task W)) (t : Task W) (w : W)
      → s.tasks ≡ before ++ t ∷ after
      → Turn t s.world w ts
      → u ≡ record { call = s.call; tasks = before ++ (ts ++ after); world = w }
      → Move s u

-- Any number of moves.
pub data Reach {W A : Type 0} (s : Config W A) : Config W A → Type 0 where
  here : Reach s s
  later : {t u : Config W A} → Reach s t → Move t u → Reach s u

module _ {W : Type 0} (Inv : W → Type 0) {A : Type 0} (Q : A → Type 0) where
  pub record IsSafe (s : Config W A) : Type 0 where
    pub call : Ensures Inv Q s.call
    pub tasks : All (Keeps Inv) s.tasks
    pub world : Inv s.world

module _ {ℓ} {T : Type ℓ} (P : T → Type 0) where
  unfoldable pub All-append : (xs ys : List T) → All P xs → All P ys → All P (xs ++ ys)
  All-append [] ys hx hy = hy
  All-append (x ∷ xs) ys hx hy = (hx.0, All-append xs ys hx.1 hy)

  unfoldable pub All-parts :
      (xs : List T) (y : T) (zs : List T) → All P (xs ++ y ∷ zs) → All P xs × P y × All P zs
  All-parts [] y zs h = (tt, h.0, h.1)
  All-parts (x ∷ xs) y zs h = let (hx, hy, hz) = All-parts xs y zs h.1 in ((h.0, hx), hy, hz)

module _ {W : Type 0} {Inv : W → Type 0} where
  Turn-Keeps :
      {t : Task W} {w w' : W} {ts : List (Task W)}
      → Turn t w w' ts
      → Keeps Inv t
      → Inv w
      → All (Keeps Inv) ts × Inv w'
  Turn-Keeps (takes f g w) (acts keep rest) i = ((rest w i, tt), keep w i)
  Turn-Keeps (begins t rest w) (starts h h') i = ((h, (h', tt)), i)

  module _ {A : Type 0} {Q : A → Type 0} where
    own-Ensures :
        {f : W → W} {g : W → Async W A} {w : W}
        → Ensures Inv Q (step f g)
        → Inv w
        → Inv (f w) × Ensures Inv Q (g w)
    own-Ensures {w} (steps keep rest) i = (keep w i, rest w i)

    fork-Ensures :
        {t : Task W} {m : Async W A} → Ensures Inv Q (fork t m) → Keeps Inv t × Ensures Inv Q m
    fork-Ensures (Ensures.forks kept rest) = (kept, rest)

    ret-Ensures : {a : A} → Ensures Inv Q (ret a) → Q a
    ret-Ensures (returns h) = h

    Move-IsSafe : (s u : Config W A) → Move s u → IsSafe Inv Q s → IsSafe Inv Q u
    Move-IsSafe s u (own f g e e') h =
        let (hw, hc) = own-Ensures (subst (Ensures Inv Q) e h.call) h.world in
        subst (IsSafe Inv Q) (sym e') (record { call = hc; tasks = h.tasks; world = hw })
    Move-IsSafe s u (spawns t m e e') h =
        let (ht, hm) = fork-Ensures (subst (Ensures Inv Q) e h.call) in
        subst (IsSafe Inv Q) (sym e') (record { call = hm; tasks = (ht, h.tasks); world = h.world })
    Move-IsSafe s u (other before after ts t w e turn e') h =
        let (hb, ht, ha) =
          All-parts (Keeps Inv) before t after (subst (All (Keeps Inv)) e h.tasks) in
        let (hts, hw) = Turn-Keeps turn ht h.world in
        let hall =
          All-append (Keeps Inv) before (ts ++ after) hb (All-append (Keeps Inv) ts after hts ha) in
        subst (IsSafe Inv Q) (sym e') (record { call = h.call; tasks = hall; world = hw })

    pub Reach-IsSafe : {s t : Config W A} → IsSafe Inv Q s → Reach s t → IsSafe Inv Q t
    Reach-IsSafe h here = h
    Reach-IsSafe h (later r m) = Move-IsSafe _ _ m (Reach-IsSafe h r)

    -- However the turns fall, the world keeps the invariant, and the call ends in a result in `Q`.
    pub Reach-result :
        {s t : Config W A} {a : A} → IsSafe Inv Q s → Reach s t → t.call ≡ ret a → Inv t.world × Q a
    Reach-result h r done =
        let safe = Reach-IsSafe h r in
        (safe.world, ret-Ensures (subst (Ensures Inv Q) done safe.call))

module _ {W A : Type 0} where
  pub Reach-trans : {s t u : Config W A} → Reach s t → Reach t u → Reach s u
  Reach-trans r here = r
  Reach-trans r (later r' m) = later (Reach-trans r r') m

  -- The tasks beside a call that has run through, the last that it spawned in front.
  abbrev pub queued : Async W A → W → List (Task W) → List (Task W)
  queued (ret a) w ts = ts
  queued (step f g) w ts = queued (g w) (f w) ts
  queued (fork t m) w ts = queued m w (t ∷ ts)

  -- One of the schedules lets the call run through.
  pub exec-Reach :
      (m : Async W A) (ts : List (Task W)) (w : W)
      → Reach
          (record { call = m; tasks = ts; world = w })
          (record { call = ret (exec m w).result; tasks = queued m w ts; world = (exec m w).world })
  exec-Reach (ret a) ts w = here
  exec-Reach (step f g) ts w =
      Reach-trans (later here (own f g refl refl)) (exec-Reach (g w) ts (f w))
  exec-Reach (fork t m) ts w =
      Reach-trans (later here (spawns t m refl refl)) (exec-Reach m (t ∷ ts) w)
