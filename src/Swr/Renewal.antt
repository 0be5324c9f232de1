-- ===== src/Swr/Renewal.antt =====
-- What a reader sees after a revalidation (src/swr.rs: spawn_revalidation, get).
use swr_cache.Base.{◌≡◌, ap, ◌∙◌, false, Option, none, some, String, Result, ok, if◌then◌else◌}
use swr_cache.Base.Int.{ltb_ℤ, ◌+i64◌}
use swr_cache.Base.Dict.{Dict}
use swr_cache.Base.Async.Exec.{exec, run_task, run-exec}
use swr_cache.Platform.{Serde, RoundTrips, Platform}
use swr_cache.Utils.{build_cache_key, now_ms}
use swr_cache.Entry.{StoredEntry}
use swr_cache.Store.Laws.{IsLawful}
use text.Mathlib.TextPositions.{eq_refl as str_eq_refl}
use swr_cache.Swr.Data.{Slot, SwrCache, Origin}
use swr_cache.Swr.Direct.{get}
use swr_cache.Swr.Loads.{marked, unmark}
use swr_cache.Swr.Revalidation.{task, origin, put, renewed, stored, revalidation_runs}
use swr_cache.Swr.RoundTrip.{result-get, read_made, IsWrite-made}

module _ {J : Serde} {W : Type 0} (P : Platform W) {t : Serde.TypeId J} (c : SwrCache J W t)
    (Inv : W → Type 0) (view : W → String → Option (StoredEntry J)) where
  -- The map of revalidations is memory apart from the store's.
  pub record MarksApart : Type 0 where
    pub inv : (m : Dict (Slot (Serde.Val J t))) (w : W) → Inv w → Inv (c.revalidating.write m w)
    pub views :
        (m : Dict (Slot (Serde.Val J t))) (w : W) (k : String)
        → view (c.revalidating.write m w) k ≡ view w k

  module _ (lawful : IsLawful P c.store Inv view) (r : RoundTrips J) (apart : MarksApart) where
    -- Over a store that keeps its contract, after a revalidation of an unmarked key whose origin gave
    -- a value that can be serialized, a read of the key gives that value if the time of expiry,
    -- counted from the end of the origin's call and as the machine adds it up, is still to come, and
    -- a miss if not.
    pub get-revalidation :
        (namespace key : String) (load : Origin J W t) (w w' : W) (v : Serde.Val J t)
        (e : StoredEntry J)
        → marked c namespace key w ≡ false
        → origin P c namespace key load w ≡ (some v, w')
        → Inv w'
        → renewed P c namespace key load v w' ≡ ok e
        → (exec (get P c namespace key) (run_task (task P c namespace key load) w)).result
          ≡ ok (if ltb_ℤ (now_ms P w') (now_ms P w' +i64 c.stale_ms) then some v else none)
    get-revalidation namespace key load w w' v e free loaded inv made' =
        let key' = build_cache_key namespace key in
        let write = IsWrite-made P c Inv view lawful r namespace key v none w' e inv made' in
        let after = (exec (c.store.set namespace key e) w').world in
        let ran : run_task (task P c namespace key load) w ≡ unmark c namespace key after =
          revalidation_runs P c namespace key load w free
          ∙ ap
              (λ (p : Option (Serde.Val J t) × W).
                unmark c namespace key (stored P c namespace key load p.0 p.1))
              loaded
          ∙ ap (λ m. unmark c namespace key (put P c namespace key load m w')) made'
          ∙ ap (λ (p : Result _ (Unit {0}) × W). unmark c namespace key p.1)
              (run-exec (c.store.set namespace key e) w' write.quiet.spawned) in
        ap (λ x. (exec (get P c namespace key) x).result) ran
        ∙ result-get P c Inv view lawful r namespace key (unmark c namespace key after)
            (apart.inv _ after write.quiet.inv)
        ∙ rw (apart.views _ after key', write.views key', str_eq_refl key')
            (read_made P c Inv view lawful r v none w' e made')
