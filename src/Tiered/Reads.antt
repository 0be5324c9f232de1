-- ===== src/Tiered/Reads.antt =====
-- The loop of a read of a TieredStore (src/tiered.rs: get).
use swr_cache.Base.{
  ℕ, suc, ◌+◌, ◌≡◌, refl, ap, ◌∙◌, Option, none, some, String, List, [], ◌∷◌, ◌++◌, Result, ok, err,
  length, arith,
}
use swr_cache.Base.Async.{Task, task_of, Async, ret}
use swr_cache.Base.Async.Exec.{Outcome, exec, andthen, exec-bind}
use swr_cache.Platform.{Serde}
use swr_cache.Error.{CacheError}
use swr_cache.Entry.{StoredEntry}
use swr_cache.Store.{Store}
use swr_cache.Tiered.{populate, hit, get_from}
use mathlib.Core.List.{append_assoc}

module _ {J : Serde} {W : Type 0} (namespace key : String) where
  abbrev pub read : Store J W → W → Outcome W (Result CacheError (Option (StoredEntry J)))
  read tier w = exec (tier.get namespace key) w

  -- Each of the tiers, read in turn, has nothing for the key.
  abbrev pub AllMiss : List (Store J W) → W → Type 0
  AllMiss [] w = Unit
  AllMiss (tier ∷ tiers) w = ((read tier w).result ≡ ok none) × AllMiss tiers (read tier w).world

  -- The world after the reads, and the tasks that they spawned.
  abbrev pub after : List (Store J W) → W → W
  after [] w = w
  after (tier ∷ tiers) w = after tiers (read tier w).world

  abbrev pub spawned_by : List (Store J W) → W → List (Task W)
  spawned_by [] w = []
  spawned_by (tier ∷ tiers) w = (read tier w).spawned ++ spawned_by tiers (read tier w).world

  -- The task that fills the nearer tiers, if there are any.
  abbrev pub filling : List (Store J W) → StoredEntry J → List (Task W)
  filling [] e = []
  filling (tier ∷ tiers) e = task_of (populate namespace key e (tier ∷ tiers)) ∷ []

  -- What follows the read of the tier with number `i`.
  abbrev pub next :
      List (Store J W)
      → ℕ
      → List (Store J W)
      → Result CacheError (Option (StoredEntry J))
      → Async W (Result CacheError (Option (StoredEntry J)))
  next all i rest r = elim r [
    | ok res ↦ elim res [
      | none ↦ get_from all (suc i) rest namespace key
      | some entry ↦ hit all i namespace key entry
    ]
    | err e ↦ ret (err e)
  ]

  -- The loop at a tier that answers `r`.
  pub get_from-read :
      (all rest : List (Store J W)) (tier : Store J W) (i : ℕ) (w : W)
      {r : Result CacheError (Option (StoredEntry J))}
      → (read tier w).result ≡ r
      → exec (get_from all i (tier ∷ rest) namespace key) w
        ≡ andthen (record (read tier w) { result = r }) (next all i rest)
  unfolding get_from
  get_from-read all rest tier i w e =
      exec-bind (tier.get namespace key) (next all i rest) w
      ∙ ap (λ r. andthen (record (read tier w) { result = r }) (next all i rest)) e

  -- The loop at the tier with number `i`, after tiers that spawned `ts`.
  abbrev pub from :
      List (Store J W)
      → ℕ
      → List (Store J W)
      → List (Task W)
      → W
      → Outcome W (Result CacheError (Option (StoredEntry J)))
  from all i rest ts w =
      let o = exec (get_from all i rest namespace key) w in record o { spawned = ts ++ o.spawned }

  pub get_from-misses :
      (all before rest : List (Store J W)) (i : ℕ) (w : W)
      → AllMiss before w
      → exec (get_from all i (before ++ rest) namespace key) w
        ≡ from all (i + length before) rest (spawned_by before w) (after before w)
  get_from-misses all [] rest i w miss = let same : i + 0 ≡ i = omega arith in rw same
  get_from-misses all (tier ∷ before) rest i w miss =
      let w' = (read tier w).world in
      let ts = (read tier w).spawned in
      let count : suc i + length before ≡ i + suc (length before) = omega arith in
      get_from-read all (before ++ rest) tier i w miss.0
      ∙ ap
          (λ (o : Outcome W (Result CacheError (Option (StoredEntry J)))). record o {
            spawned = ts ++ o.spawned;
          })
          (get_from-misses all before rest (suc i) w' miss.1)
      ∙ (rw (← append_assoc))
      ∙ ap (λ n. from all n rest (ts ++ spawned_by before w') (after before w')) count

  pub get_from-AllMiss :
      (all tiers : List (Store J W)) (i : ℕ) (w : W)
      → AllMiss tiers w
      → exec (get_from all i tiers namespace key) w
        ≡ record { result = ok none; world = after tiers w; spawned = spawned_by tiers w }
  unfolding get_from
  get_from-AllMiss all [] i w miss = refl
  get_from-AllMiss all (tier ∷ tiers) i w miss =
      get_from-read all tiers tier i w miss.0
      ∙ ap
          (λ (o : Outcome W (Result CacheError (Option (StoredEntry J)))). record o {
            spawned = (read tier w).spawned ++ o.spawned;
          })
          (get_from-AllMiss all tiers (suc i) (read tier w).world miss.1)
