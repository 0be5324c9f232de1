-- ===== src/Base/Async/Join/InTurn.antt =====
-- Futures that are run one after the other, each to its end.
use swr_cache.Base.Async.{Async, ret, step, fork, ◌>>=◌}
use swr_cache.Base.Async.Join.{IsJoin, ended, takes, spawns}
use mathlib.Core.Path.{◌≡◌, refl, ap, subst, sym}
use mathlib.Core.List.{List, [], ◌∷◌, ◌++◌, map, append_assoc, append-nil}

map_ret-append :
    {W A : Type 0} (results : List A) (a : A) (ms : List (Async W A))
    → map ret (results ++ a ∷ []) ++ ms ≡ map ret results ++ ret a ∷ ms
map_ret-append [] a ms = refl
map_ret-append (b ∷ results) a ms = ap (◌∷◌ (ret b)) (map_ret-append results a ms)

module _ {W : Type 0} where
  bind_assoc :
      {A B C : Type 0} (m : Async W A) (k : A → Async W B) (l : B → Async W C)
      → (m >>= k) >>= l ≡ (m >>= λ a. k a >>= l)
  bind_assoc (ret a) k l = refl
  bind_assoc (step f g) k l = λ i. step f (λ w. bind_assoc (g w) k l i)
  bind_assoc (fork t m) k l = ap (fork t) (bind_assoc m k l)

  bind_ret : {A : Type 0} (m : Async W A) → (m >>= ret) ≡ m
  bind_ret (ret a) = refl
  bind_ret (step f g) = λ i. step f (λ w. bind_ret (g w) i)
  bind_ret (fork t m) = ap (fork t) (bind_ret m)

module _ {W A : Type 0} where
  -- The futures one after the other, each to its end.
  abbrev pub in_turn : List (Async W A) → Async W (List A)
  in_turn [] = ret []
  in_turn (m ∷ ms) = m >>= λ a. in_turn ms >>= λ rest. ret (a ∷ rest)

  turn :
      (results : List A) (m : Async W A) (ms : List (Async W A)) (k : A → Async W (List A))
      → ((a : A) → IsJoin (map ret (results ++ a ∷ []) ++ ms) (k a))
      → IsJoin (map ret results ++ m ∷ ms) (m >>= k)
  turn results (ret a) ms k h = subst (λ l. IsJoin l (k a)) (map_ret-append results a ms) (h a)
  turn results (step f g) ms k h =
      takes (map ret results) ms f g (λ w. g w >>= k) (λ w. turn results (g w) ms k h)
  turn results (fork t m) ms k h = spawns (map ret results) ms t m (m >>= k) (turn results m ms k h)

  turns :
      (results : List A) (ms : List (Async W A))
      → IsJoin (map ret results ++ ms) (in_turn ms >>= λ rest. ret (results ++ rest))
  turns results [] =
      subst (λ l. IsJoin l (ret (results ++ []))) (sym (append-nil (map ret results)))
        (subst (λ l. IsJoin {W = W} (map ret results) (ret l)) (sym (append-nil results))
          (ended results))
  turns results (m ∷ ms) =
      rw (bind_assoc m (λ a. in_turn ms >>= λ rest. ret (a ∷ rest)) (λ rest. ret (results ++ rest)))
        (turn results m ms _ (λ a.
          rw (bind_assoc (in_turn ms) (λ rest. ret (a ∷ rest)) (λ rest. ret (results ++ rest))) (
            subst (IsJoin _)
              (λ i. in_turn ms >>= λ rest. ret (append_assoc results (a ∷ []) rest i))
              (turns (results ++ a ∷ []) ms))))

  -- One after the other is one of the orders.
  pub in_turn-IsJoin : (ms : List (Async W A)) → IsJoin ms (in_turn ms)
  in_turn-IsJoin ms = subst (IsJoin ms) (bind_ret (in_turn ms)) (turns [] ms)
