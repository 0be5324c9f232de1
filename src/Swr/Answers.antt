-- ===== src/Swr/Answers.antt =====
-- What `swr` answers and does, for each age of what the store has (src/swr.rs: swr).
use swr_cache.Base.{
  ◌≡◌, ap, ◌∙◌, Bool, true, false, Option, none, some, String, [], ◌∷◌, ◌++◌, Result, ok, err,
  arith, inl, inr, ◌⊎◌,
}
use swr_cache.Base.Int.{ℤ, ◌<ℤ◌, ◌≤ℤ◌, ◌+i64◌}
use swr_cache.Base.Async.{Task, task_of, Async}
use swr_cache.Base.Async.Exec.{Outcome, exec, andthen, exec-bind}
use swr_cache.Platform.{Serde, Platform}
use swr_cache.Utils.{now_ms}
use swr_cache.Error.{CacheError}
use swr_cache.Entry.{Entry, StoredEntry, into_typed}
use swr_cache.Swr.Data.{SwrCache, Origin, GetResult, classify, entry_for}
use swr_cache.Swr.Direct.{get_internal, store_entry}
use swr_cache.Swr.{
  answer, answer_result, or_expired, cache_loaded, revalidation, deduplicated_load_from_origin, swr,
}
use swr_cache.Swr.Reads.{internal, aged, exec-get_internal}
use mathlib.Core.List.{append-nil}

-- A result of `get_internal` with a value.
abbrev hit : {V : Type 0} → V → Bool → Bool → GetResult V
hit v revalidate is_expired = record {
  value = some v;
  revalidate = revalidate;
  is_expired = is_expired;
}

module _ {V : Type 0} (entry : Entry V) (now : ℤ) where
  classify-fresh :
      now <ℤ entry.fresh_until
      → now <ℤ entry.stale_until
      → classify entry now ≡ hit entry.value false false
  unfolding classify
  classify-fresh fresh live = ground arith

  classify-stale :
      entry.fresh_until ≤ℤ now
      → now <ℤ entry.stale_until
      → classify entry now ≡ hit entry.value true false
  unfolding classify
  classify-stale aged' live = ground arith

  classify-expired : entry.stale_until ≤ℤ now → classify entry now ≡ hit entry.value true true
  unfolding classify
  classify-expired dead = ground arith

module _ {J : Serde} {W : Type 0} (P : Platform W) {t : Serde.TypeId J} (c : SwrCache J W t) where
  -- The task that `cache_value` spawns at `w`.
  abbrev pub caching : String → String → Serde.Val J t → W → Task W
  caching namespace key v w = task_of (
      store_entry c namespace key (
        entry_for t c.store.storage_mode v (now_ms P w +i64 c.fresh_ms)
          (now_ms P w +i64 c.stale_ms)))

  module _ (namespace key : String) (load : Origin J W t) (w : W) where
    abbrev pub read : Outcome W (Result CacheError (Option (StoredEntry J)))
    read = exec (c.store.get namespace key) w

    -- What follows a result of `get_internal`.
    abbrev follow :
        Result CacheError (GetResult (Serde.Val J t))
        → Outcome W (Result CacheError (Option (Serde.Val J t)))
    follow r =
        andthen (record { result = r; world = read.world; spawned = read.spawned })
          (answer_result P c namespace key load)

    exec-swr :
        exec (swr P c namespace key load) w ≡ follow (internal t read.result (now_ms P read.world))
    unfolding swr
    exec-swr =
        exec-bind (get_internal P c namespace key) (answer_result P c namespace key load) w
        ∙ ap
            (λ (o : Outcome W (Result CacheError (GetResult (Serde.Val J t)))).
              andthen o (answer_result P c namespace key load))
            (exec-get_internal P c namespace key w)

    -- The load from the origin, and what is done with its answer.
    abbrev pub load_then :
        (Result String (Option (Serde.Val J t))
          → Async W (Result CacheError (Option (Serde.Val J t))))
        → Outcome W (Result CacheError (Option (Serde.Val J t)))
    load_then k =
        let l = exec (deduplicated_load_from_origin P c namespace key load) read.world in
        let o = andthen l k in record o { spawned = read.spawned ++ o.spawned }

    module _ {stored : StoredEntry J} {entry : Entry (Serde.Val J t)}
        (found : read.result ≡ ok (some stored)) (typed' : into_typed t stored ≡ ok entry) where
      exec-swr_found :
          {r : GetResult (Serde.Val J t)}
          → classify entry (now_ms P read.world) ≡ r
          → exec (swr P c namespace key load) w ≡ follow (ok r)
      exec-swr_found age =
          exec-swr
          ∙ ap (λ r. follow (internal t r (now_ms P read.world))) found
          ∙ ap (λ r. follow (aged r (now_ms P read.world))) typed'
          ∙ ap (λ r. follow (ok r)) age

      -- A fresh entry is the answer. The store is read once; nothing is loaded and nothing spawned.
      pub swr_fresh :
          now_ms P read.world <ℤ entry.fresh_until
          → now_ms P read.world <ℤ entry.stale_until
          → exec (swr P c namespace key load) w
            ≡ record { result = ok (some entry.value); world = read.world; spawned = read.spawned }
      unfolding answer
      swr_fresh fresh live =
          exec-swr_found (classify-fresh entry (now_ms P read.world) fresh live) ∙ rw append-nil

      -- A stale entry is the answer at once; the one task that `swr` spawns is the revalidation.
      pub swr_stale :
          entry.fresh_until ≤ℤ now_ms P read.world
          → now_ms P read.world <ℤ entry.stale_until
          → exec (swr P c namespace key load) w ≡ record {
            result = ok (some entry.value);
            world = read.world;
            spawned = read.spawned ++ task_of (revalidation P c namespace key load) ∷ [];
          }
      unfolding answer
      swr_stale stale live = exec-swr_found (classify-stale entry (now_ms P read.world) stale live)

      pub exec-swr_expired :
          entry.stale_until ≤ℤ now_ms P read.world
          → exec (swr P c namespace key load) w
            ≡ load_then (or_expired P c namespace key entry.value)
      unfolding answer
      exec-swr_expired dead =
          exec-swr_found (classify-expired entry (now_ms P read.world) dead)
          ∙ ap
              (λ (o : Outcome W (Result CacheError (Option (Serde.Val J t)))). record o {
                spawned = read.spawned ++ o.spawned;
              })
              (exec-bind (deduplicated_load_from_origin P c namespace key load)
                (or_expired P c namespace key entry.value) read.world)

    pub exec-swr_miss :
        (read.result ≡ ok none) ⊎ ((e : CacheError) × (read.result ≡ err e))
        → exec (swr P c namespace key load) w ≡ load_then (cache_loaded P c namespace key)
    unfolding answer
    exec-swr_miss missed =
        exec-swr
        ∙ elim missed [
          | inl none' ↦ ap (λ r. follow (internal t r (now_ms P read.world))) none'
          | inr (e, failed) ↦ ap (λ r. follow (internal t r (now_ms P read.world))) failed
        ]
        ∙ ap
            (λ (o : Outcome W (Result CacheError (Option (Serde.Val J t)))). record o {
              spawned = read.spawned ++ o.spawned;
            })
            (exec-bind (deduplicated_load_from_origin P c namespace key load)
              (cache_loaded P c namespace key) read.world)
