-- ===== src/Tiered/Guarantee.antt =====
-- A TieredStore does what its tiers do, its background fills included (src/tiered.rs).
use swr_cache.Base.{
  ℕ, zero, suc, ltb, take, Option, none, some, String, List, [], ◌∷◌, map, Result, ok, err, All,
}
use swr_cache.Base.Async.{◌>>◌, ret}
use swr_cache.Base.Async.Guarantee.{
  Guarantees, returns, forks, Guarantees-if, Guarantees-bind, TaskGuarantees-task_of,
}
use swr_cache.Base.Async.Join.{Join-Guarantees}
use swr_cache.Platform.{Serde, Platform, JoinsAll}
use swr_cache.Error.{CacheError}
use swr_cache.Entry.{StoredEntry, convert_for_mode}
use swr_cache.Store.{Store}
use swr_cache.Store.Guarantee.{StoreGuarantees}
use swr_cache.Tiered.{
  TieredStore, is_empty, set_tier, populate, hit, get_from, get, set, remove, tiered_store,
}
use swr_cache.Tiered.Writes.{write_converted}

module _ {J : Serde} {W : Type 0} (P : Platform W) (s : TieredStore J W) (R : W → W → Type 0)
    (joins : JoinsAll P) (each : All (λ tier. StoreGuarantees tier R) s.tiers) where
  abbrev Tiers : List (Store J W) → Type 0
  Tiers tiers = All (λ tier. StoreGuarantees tier R) tiers

  module _ (namespace key : String) where
    convert_write :
        (tier : Store J W) (r : Result CacheError (StoredEntry J))
        → StoreGuarantees tier R
        → Guarantees R (write_converted namespace key tier r)
    convert_write tier (ok e) h = h.sets namespace key e
    convert_write tier (err x) h = returns

    fill_tier :
        (e : StoredEntry J) (tier : Store J W) (rest : List (Store J W))
        (r : Result CacheError (StoredEntry J))
        → StoreGuarantees tier R
        → Guarantees R (populate namespace key e rest)
        → Guarantees R (elim r [
          | ok converted ↦ tier.set namespace key converted >> populate namespace key e rest
          | err x ↦ populate namespace key e rest
        ])
    fill_tier e tier rest (ok e') h filled = Guarantees-bind (h.sets namespace key e') (λ _. filled)
    fill_tier e tier rest (err x) h filled = filled

    Guarantees-populate :
        (e : StoredEntry J) (tiers : List (Store J W))
        → Tiers tiers
        → Guarantees R (populate namespace key e tiers)
    unfolding populate
    Guarantees-populate e [] h = returns
    Guarantees-populate e (tier ∷ rest) h =
        fill_tier e tier rest (convert_for_mode e tier.storage_mode) h.0
          (Guarantees-populate e rest h.1)

    Tiers-take : (n : ℕ) (tiers : List (Store J W)) → Tiers tiers → Tiers (take n tiers)
    Tiers-take zero tiers h = tt
    Tiers-take (suc n) [] h = tt
    Tiers-take (suc n) (tier ∷ tiers) h = (h.0, Tiers-take n tiers h.1)

    Guarantees-hit :
        (tiers : List (Store J W)) (i : ℕ) (e : StoredEntry J)
        → Tiers tiers
        → Guarantees R (hit tiers i namespace key e)
    unfolding hit
    Guarantees-hit tiers i e h =
        Guarantees-if (ltb 0 i)
          (forks
            (TaskGuarantees-task_of (Guarantees-populate e (take i tiers) (Tiers-take i tiers h)))
            returns)
          returns

    after_read :
        (tiers rest : List (Store J W)) (i : ℕ) (r : Result CacheError (Option (StoredEntry J)))
        → Tiers tiers
        → Guarantees R (get_from tiers (suc i) rest namespace key)
        → Guarantees R (elim r [
          | ok res ↦ elim res [
            | none ↦ get_from tiers (suc i) rest namespace key
            | some e ↦ hit tiers i namespace key e
          ]
          | err x ↦ ret (err x)
        ])
    after_read tiers rest i (ok none) h further = further
    after_read tiers rest i (ok (some e)) h further = Guarantees-hit tiers i e h
    after_read tiers rest i (err x) h further = returns

    Guarantees-get_from :
        (tiers : List (Store J W)) (i : ℕ) (rest : List (Store J W))
        → Tiers tiers
        → Tiers rest
        → Guarantees R (get_from tiers i rest namespace key)
    unfolding get_from
    Guarantees-get_from tiers i [] h h' = returns
    Guarantees-get_from tiers i (tier ∷ rest) h h' =
        Guarantees-bind (h'.0.gets namespace key)
          (λ r. after_read tiers rest i r h (Guarantees-get_from tiers (suc i) rest h h'.1))

    Guarantees-writes :
        (e : StoredEntry J) (tiers : List (Store J W))
        → Tiers tiers
        → All (Guarantees R) (map (set_tier namespace key e) tiers)
    unfolding set_tier
    Guarantees-writes e [] h = tt
    Guarantees-writes e (tier ∷ tiers) h = (
      convert_write tier (convert_for_mode e tier.storage_mode) h.0,
      Guarantees-writes e tiers h.1,
    )

  Guarantees-removals :
      (namespace : String) (keys : List String) (tiers : List (Store J W))
      → Tiers tiers
      → All (Guarantees R) (map (λ (tier : Store J W). tier.remove namespace keys) tiers)
  Guarantees-removals namespace keys [] h = tt
  Guarantees-removals namespace keys (tier ∷ tiers) h =
      (h.0.removes namespace keys, Guarantees-removals namespace keys tiers h.1)

  -- What all tiers guarantee the TieredStore does.
  pub tiered_store-StoreGuarantees : StoreGuarantees (tiered_store P s) R
  unfolding tiered_store get set remove
  tiered_store-StoreGuarantees = record {
    gets = λ namespace key.
        Guarantees-if (is_empty s.tiers) returns
          (Guarantees-get_from namespace key s.tiers 0 s.tiers each each);
    sets = λ namespace key e.
        Guarantees-bind
          (Join-Guarantees (joins.joined _) (Guarantees-writes namespace key e s.tiers each))
          (λ _. returns);
    removes = λ namespace keys.
        Guarantees-bind
          (Join-Guarantees (joins.joined _) (Guarantees-removals namespace keys s.tiers each))
          (λ _. returns);
  }
