-- ===== src/Base/Async/Join/Alone.antt =====
-- One future that is run together with no other.
use swr_cache.Base.Async.{Async, ret, step, fork}
use swr_cache.Base.Async.Exec.{Outcome, exec}
use swr_cache.Base.Async.Join.{IsJoin, ended, takes, spawns, one_split, one_result}
use mathlib.Core.Path.{◌≡◌, refl, ap, subst, ◌∙◌}
use mathlib.Core.List.{List, [], ◌∷◌}

module _ {W A : Type 0} where
  abbrev pub listed : Outcome W A → Outcome W (List A)
  listed o = record { result = o.result ∷ []; world = o.world; spawned = o.spawned }

  Join-exec :
      {ms : List (Async W A)} {n : Async W (List A)}
      → IsJoin ms n
      → {m : Async W A} → ms ≡ m ∷ []
      → (w : W) → exec n w ≡ listed (exec m w)
  Join-exec (ended results) {m} e w =
      let (a, one, same) = one_result results m e in
      subst (λ l. exec (ret results) w ≡ listed (exec l w)) same
        (ap (λ l. record { result = l; world = w; spawned = [] }) one)
  Join-exec (takes before after f g k rest) {m} e w =
      let (none_before, same, none_after) = one_split before after (step f g) m e in
      Join-exec (rest w) {m = g w} (rw (none_before, none_after) refl) (f w)
      ∙ ap (λ l. listed (exec l w)) same
  Join-exec (spawns before after t m' k rest) {m} e w =
      let (none_before, same, none_after) = one_split before after (fork t m') m e in
      ap (λ (o : Outcome W (List A)). record o { spawned = t ∷ o.spawned })
        (Join-exec rest {m = m'} (rw (none_before, none_after) refl) w)
      ∙ ap (λ l. listed (exec l w)) same

  -- It does what it does alone.
  pub exec-join_alone :
      {m : Async W A} {n : Async W (List A)} (w : W)
      → IsJoin (m ∷ []) n
      → exec n w ≡ listed (exec m w)
  exec-join_alone w joined = Join-exec joined refl w
