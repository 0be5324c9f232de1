-- ===== src/Tiered/Bounded.antt =====
-- How many segments a read of a TieredStore takes (src/tiered.rs).
use swr_cache.Base.{
  ◌≡◌, refl, ap, map, ℕ, suc, ◌+◌, ◌*◌, Option, none, some, String, List, [], ◌∷◌, Result, ok, err,
  ltb, length, arith, All,
}
use swr_cache.Base.Async.{ret}
use swr_cache.Base.Async.Within.{Within, ends, spawned, Within-le, Within-if, Within-bind}
use swr_cache.Base.Async.Join.Bounded.{Join-Within}
use swr_cache.Platform.{Serde, Platform, JoinsAll}
use swr_cache.Error.{CacheError}
use swr_cache.Entry.{StoredEntry, convert_for_mode}
use swr_cache.Store.{Store}
use swr_cache.Tiered.{TieredStore, is_empty, hit, get_from, get, set_tier, set}
use swr_cache.Tiered.Writes.{write_converted}

module _ {J : Serde} {W : Type 0} (namespace key : String) (reading : ℕ) where
  abbrev pub IsBoundedTier : Store J W → Type 0
  IsBoundedTier tier = Within reading (tier.get namespace key)

  Within-hit :
      (tiers : List (Store J W)) (i : ℕ) (e : StoredEntry J)
      → Within 1 (hit tiers i namespace key e)
  unfolding hit
  Within-hit tiers i e = Within-if (ltb 0 i) (spawned ends) ends

  -- What follows the read of one tier.
  after_read :
      (tiers rest : List (Store J W)) (i : ℕ) (r : Result CacheError (Option (StoredEntry J)))
      → Within (length rest * reading + 1) (get_from tiers (suc i) rest namespace key)
      → Within (length rest * reading + 1) (elim r [
        | ok res ↦ elim res [
          | none ↦ get_from tiers (suc i) rest namespace key
          | some e ↦ hit tiers i namespace key e
        ]
        | err x ↦ ret (err x)
      ])
  after_read tiers rest i (ok none) further = further
  after_read tiers rest i (ok (some e)) further = Within-le (omega arith) (Within-hit tiers i e)
  after_read tiers rest i (err x) further = ends

  Within-get_from :
      (tiers : List (Store J W)) (i : ℕ) (rest : List (Store J W))
      → All IsBoundedTier rest
      → Within (length rest * reading + 1) (get_from tiers i rest namespace key)
  unfolding get_from
  Within-get_from tiers i [] h = ends
  Within-get_from tiers i (tier ∷ rest) h =
      Within-le (omega arith)
        (Within-bind h.0 (λ r. after_read tiers rest i r (Within-get_from tiers (suc i) rest h.1)))

  -- A read asks each tier at most once, and spawns at most one task.
  pub get-Within :
      (s : TieredStore J W)
      → All IsBoundedTier s.tiers
      → Within (length s.tiers * reading + 1) (get s namespace key)
  unfolding get
  get-Within s h = Within-if (is_empty s.tiers) ends (Within-get_from s.tiers 0 s.tiers h)

length-map {ℓ κ} : {A : Type ℓ} {B : Type κ} (f : A → B) (l : List A) → length (map f l) ≡ length l
length-map f [] = refl
length-map f (a ∷ l) = ap suc (length-map f l)

module _ {J : Serde} {W : Type 0} (P : Platform W) (joins : JoinsAll P) where
  Within-converted :
      (n : ℕ) (namespace key : String) (tier : Store J W) (r : Result CacheError (StoredEntry J))
      → ((e : StoredEntry J) → Within n (tier.set namespace key e))
      → Within n (write_converted namespace key tier r)
  Within-converted n namespace key tier (ok e) h = h e
  Within-converted n namespace key tier (err x) h = ends

  Within-writes :
      (n : ℕ) (namespace key : String) (e : StoredEntry J) (tiers : List (Store J W))
      → All
          (λ (tier : Store J W). (e' : StoredEntry J) → Within n (tier.set namespace key e'))
          tiers
      → All (Within n) (map (set_tier namespace key e) tiers)
  unfolding set_tier
  Within-writes n namespace key e [] h = tt
  Within-writes n namespace key e (tier ∷ tiers) h = (
    Within-converted n namespace key tier (convert_for_mode e tier.storage_mode) h.0,
    Within-writes n namespace key e tiers h.1,
  )

  -- A write takes no more segments than the writes to the tiers one after the other.
  pub set-Within :
      (n : ℕ) (namespace key : String) (e : StoredEntry J) (s : TieredStore J W)
      → All
          (λ (tier : Store J W). (e' : StoredEntry J) → Within n (tier.set namespace key e'))
          s.tiers
      → Within (length s.tiers * n) (set P s namespace key e)
  unfolding set
  set-Within n namespace key e s h =
      let ms = map (set_tier namespace key e) s.tiers in
      Within-le (omega (arith, ap (λ l. l * n) (length-map (set_tier namespace key e) s.tiers))) (
        Within-bind {k = 0}
          (Join-Within n (joins.joined ms) (Within-writes n namespace key e s.tiers h))
          (λ rs. ends))
