-- ===== src/Base/Async/Join.antt =====
-- Futures that are run together in one task, as the crate futures' `join_all` does it.
pub mod InTurn
pub mod First
pub mod Each
pub mod Alone
pub mod Bounded
use swr_cache.Base.Tests.{All}
use swr_cache.Base.Async.{Task, Async, ret, step, fork, ◌>>=◌}
use swr_cache.Base.Async.Safe.{Keeps, Ensures}
use swr_cache.Base.Async.Guarantee.{Guarantees, TaskGuarantees, returns, steps, forks}
use swr_cache.Base.Async.Outline.{Outline, IsStable}
use swr_cache.Base.Async.Interleave.{All-append, All-parts}
use mathlib.Core.Path.{◌≡◌, refl, ap, subst, sym}
use mathlib.Core.List.{List, [], ◌∷◌, ◌++◌, map, nil≢cons, head-eq_of_cons-eq, tail-eq_of_cons-eq}

-- The future runs the segments of these futures in some order, nothing else, and gives their results
-- in the order of the futures when all have ended.
pub data IsJoin {W A : Type 0} : List (Async W A) → Async W (List A) → Type 0 where
  ended : (results : List A) → IsJoin (map ret results) (ret results)
  takes :
      (before after : List (Async W A)) (f : W → W) (g : W → Async W A) (k : W → Async W (List A))
      → ((w : W) → IsJoin (before ++ g w ∷ after) (k w))
      → IsJoin (before ++ step f g ∷ after) (step f k)
  spawns :
      (before after : List (Async W A)) (t : Task W) (m : Async W A) (k : Async W (List A))
      → IsJoin (before ++ m ∷ after) k
      → IsJoin (before ++ fork t m ∷ after) (fork t k)

pub one_split :
    {T : Type 0} (before after : List T) (x m : T)
    → before ++ x ∷ after ≡ m ∷ []
    → (before ≡ []) × (x ≡ m) × (after ≡ [])
one_split [] after x m e = (refl, head-eq_of_cons-eq e, tail-eq_of_cons-eq e)
one_split (y ∷ []) after x m e = absurd (nil≢cons (sym (tail-eq_of_cons-eq e)))
one_split (y ∷ z ∷ before) after x m e = absurd (nil≢cons (sym (tail-eq_of_cons-eq e)))

module _ {W A : Type 0} where
  module _ {R : W → W → Type 0} where
    pub step-Guarantees :
        {f : W → W} {g : W → Async W A}
        → Guarantees R (step f g)
        → ((w : W) → R w (f w)) × ((w : W) → Guarantees R (g w))
    step-Guarantees (steps keep rest) = (keep, rest)

    pub fork-Guarantees :
        {t : Task W} {m : Async W A} → Guarantees R (fork t m) → TaskGuarantees R t × Guarantees R m
    fork-Guarantees (forks kept rest) = (kept, rest)

    -- What all of the futures guarantee they guarantee together.
    pub Join-Guarantees :
        {ms : List (Async W A)} {n : Async W (List A)}
        → IsJoin ms n
        → All (Guarantees R) ms
        → Guarantees R n
    Join-Guarantees (ended results) h = returns
    Join-Guarantees (takes before after f g k rest) h =
        let (hb, hm, ha) = All-parts (Guarantees R) before (step f g) after h in
        let (keep, next) = step-Guarantees hm in
        steps keep (λ w.
          Join-Guarantees (rest w) (All-append (Guarantees R) before (g w ∷ after) hb (next w, ha)))
    Join-Guarantees (spawns before after t m k rest) h =
        let (hb, hm, ha) = All-parts (Guarantees R) before (fork t m) after h in
        let (kept, next) = fork-Guarantees hm in
        forks kept
          (Join-Guarantees rest (All-append (Guarantees R) before (m ∷ after) hb (next, ha)))

  module _ {Inv : W → Type 0} {Q : A → Type 0} where
    pub step-Ensures :
        {f : W → W} {g : W → Async W A}
        → Ensures Inv Q (step f g)
        → ((w : W) → Inv w → Inv (f w)) × ((w : W) → Inv w → Ensures Inv Q (g w))
    step-Ensures (Ensures.steps keep rest) = (keep, rest)

    pub fork-Ensures :
        {t : Task W} {m : Async W A} → Ensures Inv Q (fork t m) → Keeps Inv t × Ensures Inv Q m
    fork-Ensures (Ensures.forks kept rest) = (kept, rest)

    pub ret-Ensures : {a : A} → Ensures Inv Q (ret a) → Q a
    ret-Ensures (Ensures.returns h) = h

  All-results :
      (Inv : W → Type 0) (Q : A → Type 0) (results : List A)
      → All (Ensures Inv Q) (map ret results)
      → All Q results
  All-results Inv Q [] h = tt
  All-results Inv Q (a ∷ results) h = (ret-Ensures h.0, All-results Inv Q results h.1)

  module _ {Inv : W → Type 0} {Q : A → Type 0} where
    -- Together they keep the invariant that each keeps, and each gives a result as it gives alone.
    pub Join-Ensures :
        {ms : List (Async W A)} {n : Async W (List A)}
        → IsJoin ms n
        → All (Ensures Inv Q) ms
        → Ensures Inv (All Q) n
    Join-Ensures (ended results) h = Ensures.returns (All-results _ _ results h)
    Join-Ensures (takes before after f g k rest) h =
        let (hb, hm, ha) = All-parts (Ensures Inv Q) before (step f g) after h in
        let (keep, next) = step-Ensures hm in
        Ensures.steps keep (λ w i.
          Join-Ensures (rest w) (All-append (Ensures Inv Q) before (g w ∷ after) hb (next w i, ha)))
    Join-Ensures (spawns before after t m k rest) h =
        let (hb, hm, ha) = All-parts (Ensures Inv Q) before (fork t m) after h in
        let (kept, next) = fork-Ensures hm in
        Ensures.forks kept
          (Join-Ensures rest (All-append (Ensures Inv Q) before (m ∷ after) hb (next, ha)))

  pub one_result :
      (results : List A) (m : Async W A)
      → map ret results ≡ m ∷ []
      → (a : A) × (results ≡ a ∷ []) × (ret a ≡ m)
  one_result [] m e = absurd (nil≢cons e)
  one_result (a ∷ []) m e = (a, refl, head-eq_of_cons-eq e)
  one_result (a ∷ b ∷ results) m e = absurd (nil≢cons (sym (tail-eq_of_cons-eq e)))

  module _ {R : W → W → Type 0} {Q : A → W → Type 0} where
    pub step-Outline :
        {P : W → Type 0} {f : W → W} {g : W → Async W A}
        → Outline R Q P (step f g)
        → (P' : W → W → Type 0) × ((w : W) → P w → P' w (f w))
          × ((w : W) → P w → IsStable R (P' w))
          × ((w : W) → P w → Outline R Q (P' w) (g w))
    step-Outline (Outline.steps P' now stable rest) = (P', now, stable, rest)

    pub fork-Outline :
        {P : W → Type 0} {t : Task W} {m : Async W A}
        → Outline R Q P (fork t m)
        → TaskGuarantees R t × Outline R Q P m
    fork-Outline (Outline.forks kept rest) = (kept, rest)

    pub ret-Outline : {P : W → Type 0} {a : A} → Outline R Q P (ret a) → (w : W) → P w → Q a w
    ret-Outline (Outline.returns q) = q

    -- One future alone.
    pub Join-Outline :
        {ms : List (Async W A)} {n : Async W (List A)}
        → IsJoin ms n
        → {P : W → Type 0} {m : Async W A} → ms ≡ m ∷ []
        → Outline R Q P m
        → Outline R (λ results w. (a : A) × (results ≡ a ∷ []) × Q a w) P n
    Join-Outline (ended results) {P} {m} e h =
        let (a, one, same) = one_result results m e in
        Outline.returns (λ w p. (a, one, ret-Outline (subst (Outline R Q P) (sym same) h) w p))
    Join-Outline (takes before after f g k rest) {P} {m} e h =
        let (none_before, same, none_after) = one_split before after (step f g) m e in
        let (P', now, stable, next) = step-Outline (subst (Outline R Q P) (sym same) h) in
        Outline.steps P' now stable
          (λ w p. Join-Outline (rest w) (rw (none_before, none_after) refl) (next w p))
    Join-Outline (spawns before after t m' k rest) {P} {m} e h =
        let (none_before, same, none_after) = one_split before after (fork t m') m e in
        let (kept, next) = fork-Outline (subst (Outline R Q P) (sym same) h) in
        Outline.forks kept (Join-Outline rest (rw (none_before, none_after) refl) next)
