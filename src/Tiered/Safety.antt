-- ===== src/Tiered/Safety.antt =====
-- A TieredStore under any interleaving (src/tiered.rs).
use swr_cache.Base.{
  ℕ, zero, suc, ltb, take, ◌≡◌, refl, Option, none, some, String, List, [], ◌∷◌, map, Result, ok,
  err, All,
}
use swr_cache.Base.Async.{◌>>◌, ret}
use swr_cache.Base.Async.Safe.{Ensures, returns, forks, Ensures-if, Ensures-bind, Keeps-task_of}
use swr_cache.Base.Async.Join.{Join-Ensures}
use swr_cache.Platform.{Serde, Platform, JoinsAll}
use swr_cache.Utils.{build_cache_key}
use swr_cache.Error.{CacheError}
use swr_cache.Entry.{StorageMode, StoredEntry, convert_for_mode}
use swr_cache.Store.{Store}
use swr_cache.Store.Safety.{Found, IsSafeStore}
use swr_cache.Tiered.{
  TieredStore, is_empty, set_tier, populate, hit, get_from, get, set, remove, tiered_store,
}

module _ {J : Serde} {W : Type 0} (P : Platform W) (s : TieredStore J W) (Inv : W → Type 0)
    (Fits : String → StoredEntry J → Type 0)
    (converts : (k : String) (mode : StorageMode) (e e' : StoredEntry J)
      → convert_for_mode e mode ≡ ok e'
      → Fits k e
      → Fits k e')
    (joins : JoinsAll P) (safe : All (λ tier. IsSafeStore tier Inv Fits) s.tiers) where
  abbrev IsSafeTier : Store J W → Type 0
  IsSafeTier tier = IsSafeStore tier Inv Fits

  module _ (namespace key : String) where
    abbrev Fit : StoredEntry J → Type 0
    Fit = Fits (build_cache_key namespace key)

    after_convert :
        (tier : Store J W) (r : Result CacheError (StoredEntry J))
        → IsSafeTier tier
        → ((e : StoredEntry J) → r ≡ ok e → Fit e)
        → Ensures Inv
            (λ _. Unit {0})
            (elim r [ ok e ↦ tier.set namespace key e | err x ↦ ret (err x) ])
    after_convert tier (ok e) h fit = h.writes namespace key e (fit e refl)
    after_convert tier (err x) h fit = returns tt

    Ensures-set_tier :
        (e : StoredEntry J) (tier : Store J W)
        → Fit e
        → IsSafeTier tier
        → Ensures Inv (λ _. Unit {0}) (set_tier namespace key e tier)
    unfolding set_tier
    Ensures-set_tier e tier fit h =
        after_convert tier (convert_for_mode e tier.storage_mode) h
          (λ e' same. converts _ tier.storage_mode e e' same fit)

    fill_tier :
        (e : StoredEntry J) (tier : Store J W) (rest : List (Store J W))
        (r : Result CacheError (StoredEntry J))
        → IsSafeTier tier
        → ((e' : StoredEntry J) → r ≡ ok e' → Fit e')
        → Ensures Inv (λ _. Unit {0}) (populate namespace key e rest)
        → Ensures Inv
            (λ _. Unit {0})
            (elim r [
              | ok converted ↦ tier.set namespace key converted >> populate namespace key e rest
              | err x ↦ populate namespace key e rest
            ])
    fill_tier e tier rest (ok e') h fit filled =
        Ensures-bind (h.writes namespace key e' (fit e' refl)) (λ _ _. filled)
    fill_tier e tier rest (err x) h fit filled = filled

    Ensures-populate :
        (e : StoredEntry J) (tiers : List (Store J W))
        → Fit e
        → All IsSafeTier tiers
        → Ensures Inv (λ _. Unit {0}) (populate namespace key e tiers)
    unfolding populate
    Ensures-populate e [] fit h = returns tt
    Ensures-populate e (tier ∷ rest) fit h =
        fill_tier e tier rest (convert_for_mode e tier.storage_mode) h.0
          (λ e' same. converts _ tier.storage_mode e e' same fit) (Ensures-populate e rest fit h.1)

    All-take :
        (n : ℕ) (tiers : List (Store J W)) → All IsSafeTier tiers → All IsSafeTier (take n tiers)
    All-take zero tiers h = tt
    All-take (suc n) [] h = tt
    All-take (suc n) (tier ∷ tiers) h = (h.0, All-take n tiers h.1)

    Ensures-hit :
        (tiers : List (Store J W)) (i : ℕ) (e : StoredEntry J)
        → All IsSafeTier tiers
        → Fit e
        → Ensures Inv (Found Fit) (hit tiers i namespace key e)
    unfolding hit
    Ensures-hit tiers i e h fit =
        Ensures-if (ltb 0 i)
          (λ _.
            forks (Keeps-task_of (Ensures-populate e (take i tiers) fit (All-take i tiers h)))
              (returns fit))
          (λ _. returns fit)

    -- What follows the read of one tier.
    after_read :
        (tiers rest : List (Store J W)) (i : ℕ) (r : Result CacheError (Option (StoredEntry J)))
        → All IsSafeTier tiers
        → Found Fit r
        → Ensures Inv (Found Fit) (get_from tiers (suc i) rest namespace key)
        → Ensures Inv (Found Fit) (elim r [
          | ok res ↦ elim res [
            | none ↦ get_from tiers (suc i) rest namespace key
            | some e ↦ hit tiers i namespace key e
          ]
          | err x ↦ ret (err x)
        ])
    after_read tiers rest i (ok none) h fit further = further
    after_read tiers rest i (ok (some e)) h fit further = Ensures-hit tiers i e h fit
    after_read tiers rest i (err x) h fit further = returns tt

    Ensures-get_from :
        (tiers : List (Store J W)) (i : ℕ) (rest : List (Store J W))
        → All IsSafeTier tiers
        → All IsSafeTier rest
        → Ensures Inv (Found Fit) (get_from tiers i rest namespace key)
    unfolding get_from
    Ensures-get_from tiers i [] h h' = returns tt
    Ensures-get_from tiers i (tier ∷ rest) h h' =
        Ensures-bind (h'.0.reads namespace key) (λ r found.
          after_read tiers rest i r h found (Ensures-get_from tiers (suc i) rest h h'.1))

    Ensures-get : Ensures Inv (Found Fit) (get s namespace key)
    unfolding get
    Ensures-get =
        Ensures-if (is_empty s.tiers) (λ _. returns tt)
          (λ _. Ensures-get_from s.tiers 0 s.tiers safe safe)

    All-set_tier :
        (e : StoredEntry J) (tiers : List (Store J W))
        → Fit e
        → All IsSafeTier tiers
        → All (Ensures Inv (λ _. Unit {0})) (map (set_tier namespace key e) tiers)
    All-set_tier e [] fit h = tt
    All-set_tier e (tier ∷ tiers) fit h =
        (Ensures-set_tier e tier fit h.0, All-set_tier e tiers fit h.1)

    Ensures-set :
        (e : StoredEntry J) → Fit e → Ensures Inv (λ _. Unit {0}) (set P s namespace key e)
    unfolding set
    Ensures-set e fit =
        Ensures-bind
          (Join-Ensures (joins.joined (map (set_tier namespace key e) s.tiers))
            (All-set_tier e s.tiers fit safe))
          (λ _ _. returns tt)

  All-remove :
      (namespace : String) (keys : List String) (tiers : List (Store J W))
      → All IsSafeTier tiers
      → All
          (Ensures Inv (λ _. Unit {0}))
          (map (λ (tier : Store J W). tier.remove namespace keys) tiers)
  All-remove namespace keys [] h = tt
  All-remove namespace keys (tier ∷ tiers) h =
      (h.0.removes namespace keys, All-remove namespace keys tiers h.1)

  Ensures-remove :
      (namespace : String) (keys : List String)
      → Ensures Inv (λ _. Unit {0}) (remove P s namespace keys)
  unfolding remove
  Ensures-remove namespace keys =
      Ensures-bind
        (Join-Ensures
          (joins.joined (map (λ (tier : Store J W). tier.remove namespace keys) s.tiers))
          (All-remove namespace keys s.tiers safe))
        (λ _ _. returns tt)

  -- A TieredStore over any number of safe stores is safe, its background fills included: no
  -- interleaving brings an entry under a key that it does not fit.
  pub tiered_store-IsSafeStore : IsSafeStore (tiered_store P s) Inv Fits
  unfolding tiered_store
  tiered_store-IsSafeStore = record {
    reads = Ensures-get;
    writes = λ namespace key e fit. Ensures-set namespace key e fit;
    removes = Ensures-remove;
  }
