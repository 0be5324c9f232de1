-- ===== src/Base/Async/Outline.antt =====
-- Proof outlines: an assertion at each point of a future, which no other task can make false.
use swr_cache.Base.Tests.{All}
use swr_cache.Base.Async.{Task, Async, ret, step, fork, ◌>>=◌}
use swr_cache.Base.Async.Exec.{exec}
use swr_cache.Base.Async.Guarantee.{TaskGuarantees, acts, starts}
use swr_cache.Base.Async.Interleave.{
  Turn, Config, Move, own, spawns, other, Reach, here, later, All-append, All-parts,
}
use mathlib.Core.Path.{◌≡◌, subst, sym}
use mathlib.Core.List.{List, ◌∷◌, ◌++◌}

-- Segments in the relation do not make the assertion false.
abbrev pub IsStable : {W : Type 0} → (W → W → Type 0) → (W → Type 0) → Type 0
IsStable {W} R P = (w w' : W) → R w w' → P w → P w'

-- With tasks beside it whose segments are in `R`, a future that starts in `P` ends in `Q`.
pub data Outline {W : Type 0} (R : W → W → Type 0) {A : Type 0} (Q : A → W → Type 0)
    : (W → Type 0) → Async W A → Type 1 where
  returns : {P : W → Type 0} {a : A} → ((w : W) → P w → Q a w) → Outline R Q P (ret a)
  steps :
      {P : W → Type 0} {f : W → W} {g : W → Async W A} (P' : W → W → Type 0)
      → ((w : W) → P w → P' w (f w))
      → ((w : W) → P w → IsStable R (P' w))
      → ((w : W) → P w → Outline R Q (P' w) (g w))
      → Outline R Q P (step f g)
  forks :
      {P : W → Type 0} {t : Task W} {m : Async W A}
      → TaskGuarantees R t
      → Outline R Q P m
      → Outline R Q P (fork t m)

module _ {W : Type 0} {R : W → W → Type 0} where
  module _ {A : Type 0} {Q : A → W → Type 0} where
    pub Outline-from :
        {P P' : W → Type 0} {m : Async W A}
        → ((w : W) → P w → P' w)
        → Outline R Q P' m
        → Outline R Q P m
    Outline-from h (returns q) = returns (λ w p. q w (h w p))
    Outline-from h (steps P' now stable rest) =
        steps P' (λ w p. now w (h w p)) (λ w p. stable w (h w p)) (λ w p. rest w (h w p))
    Outline-from h (forks kept rest) = forks kept (Outline-from h rest)

  pub Outline-to :
      {A : Type 0} {Q Q' : A → W → Type 0} {P : W → Type 0} {m : Async W A}
      → ((a : A) (w : W) → Q a w → Q' a w)
      → Outline R Q P m
      → Outline R Q' P m
  Outline-to h (returns q) = returns (λ w p. h _ w (q w p))
  Outline-to h (steps P' now stable rest) = steps P' now stable (λ w p. Outline-to h (rest w p))
  Outline-to h (forks kept rest) = forks kept (Outline-to h rest)

  pub Outline-bind :
      {A B : Type 0} {Q : A → W → Type 0} {S : B → W → Type 0} {P : W → Type 0} {m : Async W A}
      {k : A → Async W B}
      → Outline R Q P m
      → ((a : A) → Outline R S (Q a) (k a))
      → Outline R S P (m >>= k)
  Outline-bind (returns q) next = Outline-from q (next _)
  Outline-bind (steps P' now stable rest) next =
      steps P' now stable (λ w p. Outline-bind (rest w p) next)
  Outline-bind (forks kept rest) next = forks kept (Outline-bind rest next)

module _ {W : Type 0} (R : W → W → Type 0) {A : Type 0} (Q : A → W → Type 0) where
  pub record IsOutlined (s : Config W A) : Type 1 where
    pub At : W → Type 0
    pub now : At s.world
    pub stable : IsStable R At
    pub call : Outline R Q At s.call
    pub tasks : All (TaskGuarantees R) s.tasks

module _ {W : Type 0} {R : W → W → Type 0} (same : (w : W) → R w w) where
  Turn-relation :
      {t : Task W} {w w' : W} {ts : List (Task W)}
      → Turn t w w' ts
      → TaskGuarantees R t
      → All (TaskGuarantees R) ts × R w w'
  Turn-relation (Turn.takes f g w) (acts keep rest) = ((rest w, tt), keep w)
  Turn-relation (Turn.begins t rest w) (starts kept others) = ((kept, (others, tt)), same w)

  module _ {A : Type 0} {Q : A → W → Type 0} where
    own-IsOutlined :
        (f : W → W) (g : W → Async W A) (ts : List (Task W)) (w : W)
        → IsOutlined R Q (record { call = step f g; tasks = ts; world = w })
        → IsOutlined R Q (record { call = g w; tasks = ts; world = f w })
    own-IsOutlined f g ts w h = segment h.call h.now
      where
        segment :
            {P : W → Type 0}
            → Outline R Q P (step f g)
            → P w
            → IsOutlined R Q (record { call = g w; tasks = ts; world = f w })
        segment (steps P' now stable rest) p = record {
          At = P' w;
          now = now w p;
          stable = stable w p;
          call = rest w p;
          tasks = h.tasks;
        }

    spawns-IsOutlined :
        (t : Task W) (m : Async W A) (ts : List (Task W)) (w : W)
        → IsOutlined R Q (record { call = fork t m; tasks = ts; world = w })
        → IsOutlined R Q (record { call = m; tasks = t ∷ ts; world = w })
    spawns-IsOutlined t m ts w h =
        let (kept, rest) = parts h.call in
        record { At = h.At; now = h.now; stable = h.stable; call = rest; tasks = (kept, h.tasks) }
      where
        parts : {P : W → Type 0} → Outline R Q P (fork t m) → TaskGuarantees R t × Outline R Q P m
        parts (forks kept rest) = (kept, rest)

    other-IsOutlined :
        (before after ts : List (Task W)) (t : Task W) (call : Async W A) (w w' : W)
        → Turn t w w' ts
        → IsOutlined R Q (record { call = call; tasks = before ++ t ∷ after; world = w })
        → IsOutlined R Q (record { call = call; tasks = before ++ (ts ++ after); world = w' })
    other-IsOutlined before after ts t call w w' turn h =
        let (hb, ht, ha) = All-parts (TaskGuarantees R) before t after h.tasks in
        let (hts, related) = Turn-relation turn ht in
        record {
          At = h.At;
          now = h.stable w w' related h.now;
          stable = h.stable;
          call = h.call;
          tasks =
              All-append (TaskGuarantees R) before (ts ++ after) hb
                (All-append (TaskGuarantees R) ts after hts ha);
        }

    Move-IsOutlined : (s u : Config W A) → Move s u → IsOutlined R Q s → IsOutlined R Q u
    Move-IsOutlined s u (own f g e e') h = subst (IsOutlined R Q) (sym e') (
        own-IsOutlined f g s.tasks s.world
          (subst (λ m. IsOutlined R Q (record { call = m; tasks = s.tasks; world = s.world })) e h))
    Move-IsOutlined s u (spawns t m e e') h = subst (IsOutlined R Q) (sym e') (
        spawns-IsOutlined t m s.tasks s.world
          (subst (λ n. IsOutlined R Q (record { call = n; tasks = s.tasks; world = s.world })) e h))
    Move-IsOutlined s u (other before after ts t w e turn e') h = subst (IsOutlined R Q) (sym e') (
        other-IsOutlined before after ts t s.call s.world w turn
          (subst (λ l. IsOutlined R Q (record { call = s.call; tasks = l; world = s.world })) e h))

    pub Reach-IsOutlined : {s t : Config W A} → IsOutlined R Q s → Reach s t → IsOutlined R Q t
    Reach-IsOutlined h here = h
    Reach-IsOutlined h (later r m) = Move-IsOutlined _ _ m (Reach-IsOutlined h r)

    -- However the turns fall, the call ends in `Q`.
    pub Outline-result :
        {s t : Config W A} {a : A} → IsOutlined R Q s → Reach s t → t.call ≡ ret a → Q a t.world
    Outline-result {t} h r done =
        let last = Reach-IsOutlined h r in
        ended (subst (Outline R Q last.At) done last.call) last.now
      where
        ended : {P : W → Type 0} {a : A} → Outline R Q P (ret a) → P t.world → Q a t.world
        ended (returns q) p = q t.world p

-- With nothing beside it, the future ends in `Q` too.
pub Outline-exec :
    {W A : Type 0} {R : W → W → Type 0} {Q : A → W → Type 0} {P : W → Type 0} {m : Async W A}
    → Outline R Q P m
    → (w : W) → P w
    → Q (exec m w).result (exec m w).world
Outline-exec (returns q) w p = q w p
Outline-exec (steps P' now stable rest) w p = Outline-exec (rest w p) _ (now w p)
Outline-exec (forks kept rest) w p = Outline-exec rest w p
