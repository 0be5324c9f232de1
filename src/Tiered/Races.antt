-- ===== src/Tiered/Races.antt =====
-- The fill of a nearer tier, which runs at any time after the read that started it (src/tiered.rs:
-- get).
use swr_cache.Base.{
  ◌≡◌, refl, ap, ◌∙◌, false, none, some, String, [], ◌∷◌, ◌++◌, ok, Result, Option, err,
}
use swr_cache.Base.Async.{Task, task_of, ret, ◌>>◌}
use swr_cache.Base.Async.Exec.{exec, run_task, run_task-task_of, run-exec, run-bind}
use swr_cache.Platform.{Serde, Platform}
use swr_cache.Utils.{build_cache_key, now_ms}
use swr_cache.Error.{CacheError}
use swr_cache.Entry.{StoredEntry, is_expired, convert_for_mode}
use swr_cache.Store.{Store}
use swr_cache.Store.Laws.{IsLawful}
use swr_cache.Store.Written.{IsWrite-converted, view-write}
use swr_cache.Tiered.{TieredStore, populate, get}
use swr_cache.Tiered.Reads.{read}
use swr_cache.Tiered.FirstHit.{get_first_hit}
use mathlib.Core.List.{List}

module _ {J : Serde} {W : Type 0} (P : Platform W) (near : Store J W) (Inv : W → Type 0)
    (view : W → String → Option (StoredEntry J)) (lawful : IsLawful P near Inv view)
    (namespace key : String) (e e' : StoredEntry J)
    (taken : convert_for_mode e near.storage_mode ≡ ok e') where
  abbrev here : String
  here = build_cache_key namespace key

  -- The task that fills the nearest tier.
  abbrev fill : Task W
  fill = task_of (populate namespace key e (near ∷ []))

  fill-write : (w : W) → Inv w → run_task fill w ≡ (exec (near.set namespace key e') w).world
  unfolding populate
  fill-write w inv =
      let write = IsWrite-converted P near Inv view lawful namespace key e e' taken w inv in
      let m = near.set namespace key e' in
      ap
        (λ (r : Result CacheError (StoredEntry J)).
          run_task
            (task_of (elim r [
              | ok converted ↦ near.set namespace key converted >> ret tt
              | err x ↦ ret tt
            ]))
            w)
        taken
      ∙ run_task-task_of (m >> ret tt) w
      ∙ ap (λ p. p.1) (run-bind m (λ _. ret tt) w)
      ∙ ap (λ p. p.1) (run-exec m w write.quiet.spawned)

  read-fill :
      (w : W)
      → Inv w
      → is_expired e' (now_ms P w) ≡ false
      → (read namespace key near (run_task fill w)).result ≡ ok (some e')
  read-fill w inv live =
      let write = IsWrite-converted P near Inv view lawful namespace key e e' taken w inv in
      let w' = (exec (near.set namespace key e') w).world in
      ap (λ v. (read namespace key near v).result) (fill-write w inv)
      ∙ (lawful.reads namespace key w' write.quiet.inv).result
      ∙ ap (λ o. ok o) (view-write P near Inv view lawful namespace key e e' taken w inv live)

  -- A read that misses in the first tier and hits in the second answers with the entry found there
  -- and leaves a task that fills the first tier. Whenever that task runs, and whatever writes and
  -- removals of the key have been done to the tiers since the read, a read right after it answers
  -- with the old entry, in the first tier's form, unless it has expired: a removed key is back, and
  -- a newer entry is hidden.
  pub fill_overwrites :
      (far : Store J W) (rest : List (Store J W)) (w w' : W)
      → Inv w
      → Inv w'
      → view w here ≡ none
      → (read namespace key far (read namespace key near w).world).result ≡ ok (some e)
      → is_expired e' (now_ms P w') ≡ false
      → let s : TieredStore J W = record { tiers = near ∷ far ∷ rest } in
        let o = exec (get s namespace key) w in
        (o.result ≡ ok (some e))
        × (o.spawned
            ≡ (read namespace key far (read namespace key near w).world).spawned ++ fill ∷ [])
        × ((exec (get s namespace key) (run_task fill w')).result ≡ ok (some e'))
  fill_overwrites far rest w w' inv inv' missed found live =
      let s : TieredStore J W = record { tiers = near ∷ far ∷ rest } in
      let first = lawful.reads namespace key w inv in
      let o =
        get_first_hit namespace key s w (near ∷ []) far rest e refl
          (first.result ∙ ap (λ o. ok o) missed, tt) found in
      let o' =
        get_first_hit namespace key s (run_task fill w') [] near (far ∷ rest) e' refl tt
          (read-fill w' inv' live) in
      let quiet = first.quiet.spawned in
      (ap (λ p. p.result) o, ap (λ p. p.spawned) o ∙ rw quiet refl, ap (λ p. p.result) o')
