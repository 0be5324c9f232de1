-- ===== src/Base/Async/Join/First.antt =====
-- The first of several futures that are run together, and what the others may do to it.
use swr_cache.Base.Tests.{All}
use swr_cache.Base.Async.{Async, step, fork}
use swr_cache.Base.Async.Guarantee.{Guarantees}
use swr_cache.Base.Async.Outline.{Outline, IsStable}
use swr_cache.Base.Async.Interleave.{All-append, All-parts}
use swr_cache.Base.Async.Join.{
  IsJoin, ended, takes, spawns, step-Guarantees, fork-Guarantees, step-Outline, fork-Outline,
  ret-Outline,
}
use mathlib.Core.Path.{◌≡◌, refl, subst, sym}
use mathlib.Core.List.{List, [], ◌∷◌, nil≢cons, head-eq_of_cons-eq, tail-eq_of_cons-eq}

abbrev pub Leads : {W A : Type 0} → (A → W → Type 0) → List A → W → Type 0
Leads {A} Q results w = (a : A) × (rest : List A) × (results ≡ a ∷ rest) × Q a w

module _ {W A : Type 0} {R : W → W → Type 0} {Q : A → W → Type 0} where
  -- The first future has an outline, and the others stay in the relation: all of them run together
  -- have the outline of the first, with its result in front.
  pub Join-first :
      {ms : List (Async W A)} {n : Async W (List A)}
      → IsJoin ms n
      → {P : W → Type 0} {m : Async W A} {others : List (Async W A)} → ms ≡ m ∷ others
      → Outline R Q P m
      → IsStable R P
      → All (Guarantees R) others
      → Outline R (Leads Q) P n
  Join-first (ended []) e h stable kept = absurd (nil≢cons e)
  Join-first (ended (a ∷ results)) {P} {m} e h stable kept = Outline.returns (λ w p.
      (a, results, refl, ret-Outline (subst (Outline R Q P) (sym (head-eq_of_cons-eq e)) h) w p))
  Join-first (takes [] after f g k rest) {P} {m} e h stable kept =
      let (P', now, stable', next) =
        step-Outline (subst (Outline R Q P) (sym (head-eq_of_cons-eq e)) h) in
      Outline.steps P' now stable' (λ w p.
        Join-first (rest w) refl (next w p) (stable' w p)
          (subst (All (Guarantees R)) (sym (tail-eq_of_cons-eq e)) kept))
  Join-first (takes (x ∷ before) after f g k rest) {P} {m} e h stable kept =
      let (hb, hm, ha) =
        All-parts (Guarantees R) before (step f g) after
          (subst (All (Guarantees R)) (sym (tail-eq_of_cons-eq e)) kept) in
      let (keep, next) = step-Guarantees hm in
      Outline.steps (λ _. P) (λ w p. stable w (f w) (keep w) p) (λ w p. stable)
        (λ w p.
          Join-first (rest w) refl (subst (Outline R Q P) (sym (head-eq_of_cons-eq e)) h) stable
            (All-append (Guarantees R) before (g w ∷ after) hb (next w, ha)))
  Join-first (spawns [] after t m' k rest) {P} {m} e h stable kept =
      let (task, next) = fork-Outline (subst (Outline R Q P) (sym (head-eq_of_cons-eq e)) h) in
      Outline.forks task (
        Join-first rest refl next stable
          (subst (All (Guarantees R)) (sym (tail-eq_of_cons-eq e)) kept))
  Join-first (spawns (x ∷ before) after t m' k rest) {P} {m} e h stable kept =
      let (hb, hm, ha) =
        All-parts (Guarantees R) before (fork t m') after
          (subst (All (Guarantees R)) (sym (tail-eq_of_cons-eq e)) kept) in
      let (task, next) = fork-Guarantees hm in
      Outline.forks task (
        Join-first rest refl (subst (Outline R Q P) (sym (head-eq_of_cons-eq e)) h) stable
          (All-append (Guarantees R) before (m' ∷ after) hb (next, ha)))
