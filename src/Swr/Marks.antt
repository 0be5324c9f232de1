-- ===== src/Swr/Marks.antt =====
-- The marks of running loads and revalidations under any interleaving (src/swr.rs:
-- spawn_revalidation, deduplicated_load_from_origin).
pub mod Calls
pub mod Released
use swr_cache.Base.{
  ◌≡◌, refl, ap, sym, subst, ◌∙◌, Bool, true, false, Bool-cases, inl, inr, Option, none, some,
  String, List, [], ◌∷◌, map, Result, ok, err, arith, All, str_eq, str_eq_iff, if◌then◌else◌,
}
use swr_cache.Base.Dict.{
  IsMap, contains_key, insert, remove, lookup-insert, lookup-remove, IsMap-insert, IsMap-remove,
}
use swr_cache.Base.Cell.{IsCell, update}
use swr_cache.Base.Async.{Task, finished, Async, ret, step, ◌>>=◌, ◌>>◌, task_of}
use swr_cache.Base.Async.Guarantee.{
  Guarantees, returns, steps, forks, Guarantees-if, Guarantees-bind, Guarantees-mono,
  TaskGuarantees-task_of,
}
use swr_cache.Base.Async.Debt.{
  Quiet, TaskOwes, Owes, Owes-bind, Owes-after, Owes-if, TaskOwes-task_of,
}
use swr_cache.Platform.{Serde, Platform}
use swr_cache.Utils.{build_cache_key}
use swr_cache.Error.{CacheError}
use swr_cache.Entry.{Entry, StoredEntry, into_typed}
use swr_cache.Store.Guarantee.{StoreGuarantees}
use swr_cache.Swr.Data.{SwrCache, Origin, GetResult, retried}
use swr_cache.Swr.Direct.{stored_result, typed_result, get_internal, store_entry, cache_value}
use swr_cache.Swr.Loads.{marked, mark, unmark}
use swr_cache.Swr.{
  store_loaded, revalidation, spawn_revalidation, retry, load_marked, load_unless,
  deduplicated_load_from_origin, or_expired, cache_loaded, answer, answer_result, swr,
}

-- The map of marks stays as it is.
abbrev pub SameMarks :
    {J : Serde} {W : Type 0} {t : Serde.TypeId J} → SwrCache J W t → W → W → Type 0
SameMarks c w w' = c.revalidating.read w' ≡ c.revalidating.read w

module _ {J : Serde} {W : Type 0} {t : Serde.TypeId J} (c : SwrCache J W t)
    (cell : IsCell c.revalidating) (namespace key : String) where
  abbrev pub MarksIsMap : W → Type 0
  MarksIsMap w = IsMap (c.revalidating.read w)

  abbrev pub IsMarked : W → Type 0
  IsMarked w = marked c namespace key w ≡ true

  pub same-Quiet : (w w' : W) → SameMarks c w w' → Quiet MarksIsMap IsMarked w w'
  same-Quiet w w' e i =
      (subst IsMap (sym e) i, λ h. ap (contains_key (build_cache_key namespace key)) (sym e) ∙ h)

  -- Whether a mark of another key is the same mark.
  abbrev pub is_same : String → String → Bool
  is_same namespace' key' = str_eq (build_cache_key namespace' key') (build_cache_key namespace key)

  module _ (namespace' key' : String) where
    mark-IsMap : (w : W) → MarksIsMap w → MarksIsMap (mark c namespace' key' w)
    mark-IsMap w i =
        subst IsMap (sym (cell.read-write _ w))
          (IsMap-insert (build_cache_key namespace' key') none _ i)

    unmark-IsMap : (w : W) → MarksIsMap w → MarksIsMap (unmark c namespace' key' w)
    unmark-IsMap w i =
        subst IsMap (sym (cell.read-write _ w)) (IsMap-remove (build_cache_key namespace' key') _ i)

    marked-mark_other :
        (w : W)
        → is_same namespace' key' ≡ false
        → marked c namespace key (mark c namespace' key' w) ≡ marked c namespace key w
    unfolding contains_key
    marked-mark_other w apart =
        let m = c.revalidating.read w in
        rw (
          cell.read-write (insert (build_cache_key namespace' key') none m) w,
          lookup-insert (build_cache_key namespace' key') (build_cache_key namespace key) none m,
          apart,
        )

    marked-unmark :
        (w : W)
        → MarksIsMap w
        → marked c namespace key (unmark c namespace' key' w)
          ≡ (if is_same namespace' key' then false else marked c namespace key w)
    unfolding contains_key
    marked-unmark w i =
        let m = c.revalidating.read w in
        ground (
          arith,
          cell.read-write (remove (build_cache_key namespace' key') m) w,
          lookup-remove (build_cache_key namespace' key') (build_cache_key namespace key) m i,
        )

    module _ {A : Type 0} where
      -- A mark of this key is taken, a mark of another key is none of its business.
      pub Owes-mark :
          {g : W → Async W A} (b : Bool)
          → is_same namespace' key' ≡ b
          → ((w : W) → Owes MarksIsMap IsMarked b (g w))
          → Owes MarksIsMap IsMarked false (step (mark c namespace' key') g)
      Owes-mark true same rest = Owes.takes mark-IsMap rest
      Owes-mark false apart rest =
          Owes.keeps (λ w i. (mark-IsMap w i, λ h. sym (marked-mark_other w apart) ∙ h)) rest

      pub Owes-unmark :
          {g : W → Async W A} (b : Bool)
          → is_same namespace' key' ≡ b
          → ((w : W) → Owes MarksIsMap IsMarked false (g w))
          → Owes MarksIsMap IsMarked b (step (unmark c namespace' key') g)
      Owes-unmark true same rest =
          Owes.gives (λ w i. (unmark-IsMap w i, λ h. ground (arith, marked-unmark w i))) rest
      Owes-unmark false apart rest =
          Owes.keeps (λ w i. (unmark-IsMap w i, λ h. ground (arith, marked-unmark w i))) rest
