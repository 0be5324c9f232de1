-- ===== src/Base/Async/Join/Each.antt =====
-- Futures that are run together, each with what it says of its own result.
use swr_cache.Base.Async.{Async, ret, step, fork}
use swr_cache.Base.Async.Safe.{Ensures, returns, steps, forks}
use swr_cache.Base.Async.Join.{
  IsJoin, ended, takes, spawns, step-Ensures, fork-Ensures, ret-Ensures,
}
use mathlib.Core.List.{List, [], ◌∷◌, ◌++◌, map}

module _ {A : Type 0} where
  -- The results have the properties, one by one.
  abbrev pub Hold : List (A → Type 0) → List A → Type 0
  Hold [] [] = Unit
  Hold [] (a ∷ results) = ⊥
  Hold (Q ∷ Qs) [] = ⊥
  Hold (Q ∷ Qs) (a ∷ results) = Q a × Hold Qs results

module _ {W A : Type 0} (Inv : W → Type 0) where
  -- The futures keep the invariant and give results with the properties, one by one.
  abbrev pub Each : List (A → Type 0) → List (Async W A) → Type 0
  Each [] [] = Unit
  Each [] (m ∷ ms) = ⊥
  Each (Q ∷ Qs) [] = ⊥
  Each (Q ∷ Qs) (m ∷ ms) = Ensures Inv Q m × Each Qs ms

module _ {W A : Type 0} where
  Each-results :
      (Inv : W → Type 0) (Qs : List (A → Type 0)) (results : List A)
      → Each Inv Qs (map ret results)
      → Hold Qs results
  Each-results Inv [] [] h = tt
  Each-results Inv [] (a ∷ results) h = absurd h
  Each-results Inv (Q ∷ Qs) [] h = absurd h
  Each-results Inv (Q ∷ Qs) (a ∷ results) h = (ret-Ensures h.0, Each-results Inv Qs results h.1)

module _ {W A : Type 0} {Inv : W → Type 0} where
  -- One of them, and another one in its place.
  Each-at :
      (Qs : List (A → Type 0)) (before after : List (Async W A)) (m : Async W A)
      → Each Inv Qs (before ++ m ∷ after)
      → (Q : A → Type 0) × Ensures Inv Q m
        × ((m' : Async W A) → Ensures Inv Q m' → Each Inv Qs (before ++ m' ∷ after))
  Each-at [] [] after m h = absurd h
  Each-at [] (x ∷ before) after m h = absurd h
  Each-at (Q ∷ Qs) [] after m h = (Q, h.0, λ m' h'. (h', h.1))
  Each-at (Q ∷ Qs) (x ∷ before) after m h =
      let (Q', at, put) = Each-at Qs before after m h.1 in (Q', at, λ m' h'. (h.0, put m' h'))

  pub Join-Each :
      (Qs : List (A → Type 0)) {ms : List (Async W A)} {n : Async W (List A)}
      → IsJoin ms n
      → Each Inv Qs ms
      → Ensures Inv (Hold Qs) n
  Join-Each Qs (ended results) h = returns (Each-results Inv Qs results h)
  Join-Each Qs (takes before after f g k rest) h =
      let (Q, at, put) = Each-at Qs before after (step f g) h in
      let (keep, next) = step-Ensures at in
      steps keep (λ w i. Join-Each Qs (rest w) (put (g w) (next w i)))
  Join-Each Qs (spawns before after t m k rest) h =
      let (Q, at, put) = Each-at Qs before after (fork t m) h in
      let (kept, next) = fork-Ensures at in forks kept (Join-Each Qs rest (put m next))
