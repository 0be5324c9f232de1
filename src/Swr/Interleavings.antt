-- ===== src/Swr/Interleavings.antt =====
-- Revalidations and loads of one key that interleave, or end early (src/swr.rs: spawn_revalidation,
-- deduplicated_load_from_origin).
use swr_cache.Base.{
  ◌≡◌, ap, ◌∙◌, Bool, true, false, none, String, Result, Option, subst, sym, arith, str_eq_iff,
  if◌then◌else◌,
}
use swr_cache.Base.Dict.{IsMap, contains_key, lookup-insert, lookup-remove, insert, remove}
use swr_cache.Base.Cell.{IsCell}
use swr_cache.Base.Async.{task_of, Async, ◌>>=◌, ret}
use swr_cache.Base.Async.Exec.{run_task, advance, advance_task}
use swr_cache.Platform.{Serde, Platform}
use swr_cache.Utils.{build_cache_key}
use swr_cache.Swr.Data.{SwrCache, Origin}
use swr_cache.Swr.{load_marked, retry, load_unless, deduplicated_load_from_origin, revalidation}
use swr_cache.Swr.Loads.{marked, mark, unmark}
use swr_cache.Swr.Revalidation.{
  task, unless, origin, stored, round, run-unless, revalidation_runs, revalidation_deduplicated,
}

module _ {J : Serde} {W : Type 0} (P : Platform W) {t : Serde.TypeId J} (c : SwrCache J W t)
    (namespace key : String) where
  module _ (cell : IsCell c.revalidating) where
    marked-mark : (w : W) → marked c namespace key (mark c namespace key w) ≡ true
    unfolding contains_key
    marked-mark w =
        let key' = build_cache_key namespace key in
        let m = c.revalidating.read w in
        ground (
          arith,
          cell.read-write (insert key' none m) w,
          lookup-insert key' key' none m,
          str_eq_iff key' key',
        )

    marked-unmark :
        (w : W)
        → IsMap (c.revalidating.read w)
        → marked c namespace key (unmark c namespace key w) ≡ false
    unfolding contains_key
    marked-unmark w d =
        let key' = build_cache_key namespace key in
        let m = c.revalidating.read w in
        ground (
          arith,
          cell.read-write (remove key' m) w,
          lookup-remove key' key' m d,
          str_eq_iff key' key',
        )

  -- Two revalidations of an unmarked key that both check before either marks: each calls its origin
  -- and writes, one after the other, as if there were no deduplication.
  pub revalidation_twice :
      (load load' : Origin J W t) (w : W)
      → marked c namespace key w ≡ false
      → let (first, w') = advance_task (task P c namespace key load) w in
        let (second, w'') = advance_task (task P c namespace key load') w' in
        run_task second (run_task first w'')
        ≡ round P c namespace key load' (round P c namespace key load w)
  unfolding revalidation
  revalidation_twice load load' w free =
      ap
        (λ b.
          run_task (task_of (unless P c namespace key load' b))
            (run_task (task_of (unless P c namespace key load b)) w))
        free
      ∙ ap (run_task (task_of (unless P c namespace key load' false)))
          (run-unless P c namespace key load w)
      ∙ run-unless P c namespace key load' (round P c namespace key load w)

  abbrev checked : Origin J W t → Bool → Async W (Result String (Option (Serde.Val J t)))
  checked load loading =
      (if loading then retry P c namespace key else ret none) >>= load_unless P c namespace key load

  -- A load of an unmarked key that is dropped while the origin works leaves its mark, and a
  -- revalidation of the key that runs right after it changes nothing, the mark included.
  pub load_dropped :
      (load load' : Origin J W t) (w : W)
      → IsCell c.revalidating
      → marked c namespace key w ≡ false
      → let (checked, w') = advance (deduplicated_load_from_origin P c namespace key load) w in
        let (dropped, w'') = advance checked w' in
        (marked c namespace key w'' ≡ true) × (run_task (task P c namespace key load') w'' ≡ w'')
  unfolding deduplicated_load_from_origin load_marked
  load_dropped load load' w cell free =
      let blocked = marked-mark cell w in
      subst
        (λ b.
          let w'' = (advance (checked load b) w).1 in
          (marked c namespace key w'' ≡ true) × (run_task (task P c namespace key load') w'' ≡ w''))
        (sym free)
        (
          blocked,
          revalidation_deduplicated P c namespace key load' (mark c namespace key w) blocked,
        )

  -- A revalidation that runs to its end leaves the key unmarked.
  pub revalidation_unmarks :
      (load : Origin J W t) (w : W)
      → IsCell c.revalidating
      → marked c namespace key w ≡ false
      → (let (v, w') = origin P c namespace key load w in
          IsMap (c.revalidating.read (stored P c namespace key load v w')))
      → marked c namespace key (run_task (task P c namespace key load) w) ≡ false
  revalidation_unmarks load w cell free d =
      rw (revalidation_runs P c namespace key load w free) (marked-unmark cell _ d)
