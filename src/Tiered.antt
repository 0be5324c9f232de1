-- ===== src/Tiered.antt =====
-- src/tiered.rs: TieredStore, a store over several stores, nearest first.
pub mod Reads
pub mod FirstHit
pub mod Writes
pub mod Single
pub mod Failures
pub mod Safety
pub mod Guarantee
pub mod Keyed
pub mod Races
pub mod Nearest
pub mod Bounded
use swr_cache.Base.{
  ℕ, suc, Bool, true, false, Option, none, some, String, List, [], ◌∷◌, map, Result, ok, err, ltb,
  take, if◌then◌else◌,
}
use swr_cache.Base.Async.{Async, ret, ◌>>=◌, ◌>>◌, ◌>>?◌, spawn}
use swr_cache.Platform.{Serde, Platform}
use swr_cache.Error.{CacheError}
use swr_cache.Entry.{StorageMode, serialized_mode, StoredEntry, convert_for_mode}
use swr_cache.Store.{Store}

pub record TieredStore (J : Serde) (W : Type 0) : Type 0 where
  pub tiers : List (Store J W)

abbrev pub is_empty {ℓ} : {A : Type ℓ} → List A → Bool
is_empty [] = true
is_empty (_ ∷ _) = false

-- `stores.into_iter().flatten().collect()`
unfoldable pub present {ℓ} : {A : Type ℓ} → List (Option A) → List A
present [] = []
present (none ∷ os) = present os
present (some a ∷ os) = a ∷ present os

-- `for result in results { result?; } Ok(())`
unfoldable pub first_error : List (Result CacheError (Unit {0})) → Result CacheError (Unit {0})
first_error [] = ok tt
first_error (ok _ ∷ rs) = first_error rs
first_error (err e ∷ rs) = err e

module _ {J : Serde} {W : Type 0} where
  -- `TieredStore::new`
  unfoldable pub new : List (Option (Store J W)) → TieredStore J W
  unfolding present
  new stores = record { tiers = present stores }

  unfoldable pub from_stores : List (Store J W) → TieredStore J W
  from_stores stores = record { tiers = stores }

  unfoldable pub tiered_mode : List (Store J W) → StorageMode
  tiered_mode [] = serialized_mode
  tiered_mode (tier ∷ _) = tier.storage_mode

  -- One tier of a write: the entry in the form that the tier asks for.
  unfoldable pub set_tier :
      String → String → StoredEntry J → Store J W → Async W (Result CacheError (Unit {0}))
  set_tier namespace key entry tier = elim (convert_for_mode entry tier.storage_mode) [
    | ok converted ↦ tier.set namespace key converted
    | err e ↦ ret (err e)
  ]

  -- The task that fills the tiers before the one that had the entry; a tier that cannot take it is
  -- passed over.
  unfoldable pub populate : String → String → StoredEntry J → List (Store J W) → Async W (Unit {0})
  populate namespace key entry [] = ret tt
  populate namespace key entry (tier ∷ rest) = elim (convert_for_mode entry tier.storage_mode) [
    | ok converted ↦ tier.set namespace key converted >> populate namespace key entry rest
    | err e ↦ populate namespace key entry rest
  ]

  unfoldable pub hit :
      List (Store J W)
      → ℕ
      → String
      → String
      → StoredEntry J
      → Async W (Result CacheError (Option (StoredEntry J)))
  hit tiers i namespace key entry =
      if ltb 0 i
      then spawn (populate namespace key entry (take i tiers)) >> ret (ok (some entry))
      else ret (ok (some entry))

  -- The loop of `get`, at the tier with number `i`.
  unfoldable pub get_from :
      List (Store J W)
      → ℕ
      → List (Store J W)
      → String
      → String
      → Async W (Result CacheError (Option (StoredEntry J)))
  get_from tiers i [] namespace key = ret (ok none)
  get_from tiers i (tier ∷ rest) namespace key = tier.get namespace key >>? λ res. elim res [
    | none ↦ get_from tiers (suc i) rest namespace key
    | some entry ↦ hit tiers i namespace key entry
  ]

  unfoldable pub get :
      TieredStore J W → String → String → Async W (Result CacheError (Option (StoredEntry J)))
  get s namespace key =
      if is_empty s.tiers then ret (ok none) else get_from s.tiers 0 s.tiers namespace key

module _ {J : Serde} {W : Type 0} (P : Platform W) where
  unfoldable pub set :
      TieredStore J W → String → String → StoredEntry J → Async W (Result CacheError (Unit {0}))
  unfolding set_tier first_error
  set s namespace key entry = do
    results ← Platform.join_all P (map (set_tier namespace key entry) s.tiers)
    ret (first_error results)

  unfoldable pub remove :
      TieredStore J W → String → List String → Async W (Result CacheError (Unit {0}))
  unfolding first_error
  remove s namespace keys = do
    results ← Platform.join_all P (map (λ (tier : Store J W). tier.remove namespace keys) s.tiers)
    ret (first_error results)

  -- `impl Store for TieredStore`
  unfoldable pub tiered_store : TieredStore J W → Store J W
  unfolding get set remove tiered_mode
  tiered_store s = record {
    name = "tiered";
    storage_mode = tiered_mode s.tiers;
    get = get s;
    set = set s;
    remove = remove s;
  }
