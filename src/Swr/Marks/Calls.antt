-- ===== src/Swr/Marks/Calls.antt =====
-- `swr` gives back each mark that it takes, in the call or in a task that it spawns (src/swr.rs).
use swr_cache.Base.{ℕ, refl, Bool, true, false, Option, none, some, String, Result, ok, err}
use swr_cache.Base.Dict.{contains_key}
use swr_cache.Base.Cell.{IsCell}
use swr_cache.Base.Async.{Async}
use swr_cache.Base.Async.Guarantee.{Guarantees, returns, Guarantees-if, Guarantees-mono}
use swr_cache.Base.Async.Debt.{
  Quiet, Owes, Owes-bind, Owes-after, Owes-if, Owes-Quiet, TaskOwes-task_of,
}
use swr_cache.Platform.{Serde, Platform}
use swr_cache.Utils.{build_cache_key}
use swr_cache.Error.{CacheError}
use swr_cache.Store.Guarantee.{StoreGuarantees}
use swr_cache.Swr.Data.{SwrCache, Origin, GetResult}
use swr_cache.Swr.{
  revalidation, spawn_revalidation, load_marked, load_unless, deduplicated_load_from_origin, answer,
  answer_result, swr,
}
use swr_cache.Swr.Guarantee.{
  Guarantees-get_internal, Guarantees-store_loaded, Guarantees-or_expired, Guarantees-cache_loaded,
  Guarantees-retry,
}
use swr_cache.Swr.Marks.{
  SameMarks, MarksIsMap, IsMarked, same-Quiet, is_same, Owes-mark, Owes-unmark,
}

module _ {J : Serde} {W : Type 0} (P : Platform W) {t : Serde.TypeId J} (c : SwrCache J W t)
    (store : StoreGuarantees c.store (SameMarks c)) (namespace key : String) where
  -- The parts of a call that touch no mark.
  abbrev IsSilent : {A : Type 0} → Async W A → Type 0
  IsSilent m = Guarantees (SameMarks c) m

  module _ (sleeps : (n : ℕ) → IsSilent (Platform.sleep P n)) where
    -- Seen from one key, calls of the same key and of any other.
    module _ (cell : IsCell c.revalidating) (seen_namespace seen_key : String) where
      abbrev pub Settles : {A : Type 0} → Bool → Async W A → Type 0
      Settles b m =
          Owes (MarksIsMap c cell seen_namespace seen_key) (IsMarked c cell seen_namespace seen_key)
            b m

      -- Whether the call marks the key that is looked at.
      abbrev same : Bool
      same = is_same c cell seen_namespace seen_key namespace key

      quiet :
          {A : Type 0} {m : Async W A}
          → IsSilent m
          → Guarantees
              (Quiet
                (MarksIsMap c cell seen_namespace seen_key)
                (IsMarked c cell seen_namespace seen_key))
              m
      quiet h = Guarantees-mono (same-Quiet c cell seen_namespace seen_key) h

      module _ (load : Origin J W t) (loads : IsSilent (load key)) where
        -- The mark is taken away whatever the origin gives, and whatever becomes of its value.
        pub Settles-revalidation : Settles false (revalidation P c namespace key load)
        unfolding revalidation
        Settles-revalidation =
            Owes.keeps (λ w i. (i, λ h. h))
              (λ w.
                Owes-if (contains_key (build_cache_key namespace key) (c.revalidating.read w))
                  Owes.returns
                  (Owes-mark c cell seen_namespace seen_key namespace key same refl (λ _.
                    Owes-bind (quiet loads) (λ o.
                      Owes-bind
                        (quiet (
                          Guarantees-store_loaded P c (SameMarks c) (λ _. refl) namespace key
                            (store.gets namespace key) (store.sets namespace key) o))
                        (λ _.
                          Owes-unmark c cell seen_namespace seen_key namespace key same refl
                            (λ _. Owes.returns))))))

        Settles-load_unless :
            (o : Option (Serde.Val J t)) → Settles false (load_unless P c namespace key load o)
        unfolding load_marked
        Settles-load_unless (some v) = Owes.returns
        Settles-load_unless none =
            Owes-mark c cell seen_namespace seen_key namespace key same refl (λ _.
              Owes-bind (quiet loads) (λ o.
                Owes-unmark c cell seen_namespace seen_key namespace key same refl
                  (λ _. Owes.returns)))

        pub Settles-load : Settles false (deduplicated_load_from_origin P c namespace key load)
        unfolding deduplicated_load_from_origin
        Settles-load =
            Owes.keeps (λ w i. (i, λ h. h))
              (λ w.
                Owes-bind
                  (quiet (
                    Guarantees-if
                      (contains_key (build_cache_key namespace key) (c.revalidating.read w))
                      (Guarantees-retry P c (SameMarks c) (λ _. refl) namespace key
                        (store.gets namespace key) (store.sets namespace key) sleeps)
                      returns))
                  Settles-load_unless)

        Settles-answer :
            (o : Option (Serde.Val J t)) (revalidate is_expired : Bool)
            → Settles false (answer P c namespace key load o revalidate is_expired)
        unfolding answer spawn_revalidation
        Settles-answer (some v) true false =
            Owes.forks (TaskOwes-task_of Settles-revalidation) Owes.returns
        Settles-answer (some v) true true = Owes-after Settles-load (λ r. Owes-Quiet (
            quiet (
              Guarantees-or_expired P c (SameMarks c) (λ _. refl) namespace key
                (store.gets namespace key) (store.sets namespace key) v r)))
        Settles-answer (some v) false false = Owes.returns
        Settles-answer (some v) false true = Owes-after Settles-load (λ r. Owes-Quiet (
            quiet (
              Guarantees-cache_loaded P c (SameMarks c) (λ _. refl) namespace key
                (store.gets namespace key) (store.sets namespace key) r)))
        Settles-answer none revalidate is_expired = Owes-after Settles-load (λ r. Owes-Quiet (
            quiet (
              Guarantees-cache_loaded P c (SameMarks c) (λ _. refl) namespace key
                (store.gets namespace key) (store.sets namespace key) r)))

        Settles-answer_result :
            (r : Result CacheError (GetResult (Serde.Val J t)))
            → Settles false (answer_result P c namespace key load r)
        Settles-answer_result (ok g) = Settles-answer g.value g.revalidate g.is_expired
        Settles-answer_result (err x) = Settles-answer none false false

        pub Settles-swr : Settles false (swr P c namespace key load)
        unfolding swr
        Settles-swr =
            Owes-bind
              (quiet (
                Guarantees-get_internal P c (SameMarks c) (λ _. refl) namespace key
                  (store.gets namespace key) (store.sets namespace key)))
              Settles-answer_result
