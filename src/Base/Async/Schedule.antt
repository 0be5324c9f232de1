-- ===== src/Base/Async/Schedule.antt =====
-- A schedule: some segments of the tasks, then the call to its end, then more of the tasks; each
-- time the first task that has not ended.
use swr_cache.Base.Async.{Task, finished, act, start, Async, ret}
use swr_cache.Base.Async.Exec.{exec}
use swr_cache.Base.Async.Interleave.{
  Config, takes, begins, Reach, here, later, other, Reach-trans, queued, exec-Reach,
}
use Prim.Native.Nat.{ℕ, zero, suc}
use mathlib.Core.Path.{refl, sym}
use mathlib.Core.List.{List, [], ◌∷◌, ◌++◌, append_assoc}

module _ {W : Type 0} where
  -- One segment of the first task that has not ended.
  abbrev pub advance_first : List (Task W) → W → List (Task W) × W
  advance_first [] w = ([], w)
  advance_first (finished ∷ ts) w = let (ts', w') = advance_first ts w in (finished ∷ ts', w')
  advance_first (act f g ∷ ts) w = (g w ∷ ts, f w)
  advance_first (start t rest ∷ ts) w = (t ∷ rest ∷ ts, w)

  abbrev pub drain : ℕ → List (Task W) → W → List (Task W) × W
  drain zero ts w = (ts, w)
  drain (suc n) ts w = let (ts', w') = advance_first ts w in drain n ts' w'

  module _ {A : Type 0} (call : Async W A) where
    abbrev beside : List (Task W) → W → Config W A
    beside ts w = record { call = call; tasks = ts; world = w }

    advance_first-Reach :
        (before ts : List (Task W)) (w : W)
        → let (ts', w') = advance_first ts w in
          Reach (beside (before ++ ts) w) (beside (before ++ ts') w')
    advance_first-Reach before [] w = here
    advance_first-Reach before (finished ∷ ts) w =
        rw
          (
            sym (append_assoc before (finished ∷ []) ts),
            sym (append_assoc before (finished ∷ []) (advance_first ts w).0),
          )
          (advance_first-Reach (before ++ finished ∷ []) ts w)
    advance_first-Reach before (act f g ∷ ts) w =
        later here (other before ts (g w ∷ []) (act f g) (f w) refl (takes f g w) refl)
    advance_first-Reach before (start t rest ∷ ts) w =
        later here (other before ts (t ∷ rest ∷ []) (start t rest) w refl (begins t rest w) refl)

    drain-Reach :
        (n : ℕ) (ts : List (Task W)) (w : W)
        → let (ts', w') = drain n ts w in Reach (beside ts w) (beside ts' w')
    drain-Reach zero ts w = here
    drain-Reach (suc n) ts w =
        let (ts', w') = advance_first ts w in
        Reach-trans (advance_first-Reach [] ts w) (drain-Reach n ts' w')

  module _ {A : Type 0} (n m : ℕ) (call : Async W A) (ts : List (Task W)) (w : W) where
    -- `n` segments of the tasks, then the call to its end, and then `m` segments of the tasks.
    abbrev pub scheduled : Config W A
    scheduled =
        let (before, w') = drain n ts w in
        let o = exec call w' in
        let (after, w'') = drain m (queued call w' before) o.world in
        record { call = ret o.result; tasks = after; world = w'' }

    pub scheduled-Reach : Reach (record { call = call; tasks = ts; world = w }) scheduled
    scheduled-Reach =
        let (before, w') = drain n ts w in
        let o = exec call w' in
        Reach-trans (drain-Reach call n ts w) (
          Reach-trans (exec-Reach call before w')
            (drain-Reach (ret o.result) m (queued call w' before) o.world))
