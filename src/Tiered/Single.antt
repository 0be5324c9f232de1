-- ===== src/Tiered/Single.antt =====
-- A TieredStore of one tier (src/tiered.rs), as Cache::new makes it of one store.
use swr_cache.Base.{
  ◌≡◌, refl, ap, sym, ◌∙◌, subst, Option, none, some, String, List, [], ◌∷◌, Result, ok,
}
use swr_cache.Base.Async.{Async, ◌>>=◌, ret}
use swr_cache.Base.Async.Exec.{Outcome, exec, exec-bind_pure}
use swr_cache.Base.Async.Join.Alone.{exec-join_alone}
use swr_cache.Platform.{Serde, Platform, JoinsAll}
use swr_cache.Error.{CacheError}
use swr_cache.Entry.{StoredEntry, convert_for_mode}
use swr_cache.Store.{Store}
use swr_cache.Store.Laws.{IsQuiet, IsRead, IsWrite, IsRemoval, IsLawful}
use swr_cache.Tiered.{
  TieredStore, first_error, set_tier, get, set, remove, tiered_store, tiered_mode,
}
use swr_cache.Tiered.FirstHit.{get_first_hit, get-AllMiss}
use swr_cache.Tiered.Writes.{write_converted}
use mathlib.Core.List.{append-nil}

module _ {W : Type 0} (P : Platform W) (joins : JoinsAll P) where
  -- One future joined does what it does alone.
  exec-join_one :
      (m : Async W (Result CacheError (Unit {0}))) (w : W)
      → (exec m w).result ≡ ok tt
      → exec (Platform.join_all P (m ∷ []) >>= λ rs. ret (first_error rs)) w ≡ exec m w
  unfolding first_error
  exec-join_one m w done =
      let o = exec m w in
      exec-bind_pure (Platform.join_all P (m ∷ [])) (λ rs. ret (first_error rs))
        (λ rs _. first_error rs) w (λ _ _. refl)
      ∙ ap
          (λ (p : Outcome W (List (Result CacheError (Unit {0})))). record {
            result = first_error p.result;
            world = p.world;
            spawned = p.spawned;
          })
          (exec-join_alone w (joins.joined (m ∷ [])))
      ∙ ap (λ r. record { result = first_error (r ∷ []); world = o.world; spawned = o.spawned })
          done
      ∙ ap (λ (r : Result CacheError (Unit {0})). record o { result = r }) (sym done)

-- The store over this one tier.
abbrev pub single : {J : Serde} {W : Type 0} → Store J W → TieredStore J W
single S = record { tiers = S ∷ [] }

module _ {J : Serde} {W : Type 0} (P : Platform W) (joins : JoinsAll P) where
  module _ (S : Store J W) where
    exec-get_one :
        (namespace key : String) (w : W) (x : Option (StoredEntry J))
        → (exec (S.get namespace key) w).result ≡ ok x
        → exec (get (single S) namespace key) w ≡ exec (S.get namespace key) w
    exec-get_one namespace key w none missed =
        let o = exec (S.get namespace key) w in
        get-AllMiss namespace key (single S) w (missed, tt)
        ∙ rw append-nil (
            ap (λ (r : Result CacheError (Option (StoredEntry J))). record o { result = r })
              (sym missed))
    exec-get_one namespace key w (some e) found =
        let o = exec (S.get namespace key) w in
        get_first_hit namespace key (single S) w [] S [] e refl tt found
        ∙ rw append-nil (
            ap (λ (r : Result CacheError (Option (StoredEntry J))). record o { result = r })
              (sym found))

    set_one :
        (namespace key : String) (e : StoredEntry J)
        → convert_for_mode e S.storage_mode ≡ ok e
        → set_tier namespace key e S ≡ S.set namespace key e
    unfolding set_tier
    set_one namespace key e taken = ap (write_converted namespace key S) taken

    module _ (Inv : W → Type 0) (view : W → String → Option (StoredEntry J))
        (lawful : IsLawful P S Inv view) where
      IsRead-one :
          (namespace key : String) (w : W)
          → Inv w
          → IsRead P (tiered_store P (single S)) Inv view namespace key w
      unfolding tiered_store
      IsRead-one namespace key w inv =
          let read = lawful.reads namespace key w inv in
          let same = exec-get_one namespace key w _ read.result in
          record {
            quiet = subst (IsQuiet P Inv w) (sym same) read.quiet;
            result = ap (λ o. o.result) same ∙ read.result;
            views = λ k. ap (λ o. view o.world k) same ∙ read.views k;
          }

      IsWrite-one :
          (namespace key : String) (e : StoredEntry J) (w : W)
          → Inv w
          → convert_for_mode e S.storage_mode ≡ ok e
          → IsWrite P (tiered_store P (single S)) Inv view namespace key e w
      unfolding tiered_store set set_tier
      IsWrite-one namespace key e w inv taken =
          let write = lawful.writes namespace key e w inv taken in
          let same =
            ap (λ m. exec (Platform.join_all P (m ∷ []) >>= λ rs. ret (first_error rs)) w)
              (set_one namespace key e taken)
            ∙ exec-join_one P joins (S.set namespace key e) w write.result in
          record {
            quiet = subst (IsQuiet P Inv w) (sym same) write.quiet;
            result = ap (λ o. o.result) same ∙ write.result;
            views = λ k. ap (λ o. view o.world k) same ∙ write.views k;
          }

      IsRemoval-one :
          (namespace : String) (keys : List String) (w : W)
          → Inv w
          → IsRemoval P (tiered_store P (single S)) Inv view namespace keys w
      unfolding tiered_store remove
      IsRemoval-one namespace keys w inv =
          let removal = lawful.removes namespace keys w inv in
          let same = exec-join_one P joins (S.remove namespace keys) w removal.result in
          record {
            quiet = subst (IsQuiet P Inv w) (sym same) removal.quiet;
            result = ap (λ o. o.result) same ∙ removal.result;
            views = λ k. ap (λ o. view o.world k) same ∙ removal.views k;
          }

      -- A TieredStore of one store that keeps its contract keeps the same contract, for the same view.
      pub tiered_store-IsLawful : IsLawful P (tiered_store P (single S)) Inv view
      unfolding tiered_store tiered_mode
      tiered_store-IsLawful = record {
        reads = IsRead-one;
        writes = IsWrite-one;
        removes = IsRemoval-one;
      }
