-- ===== src/Tiered/Writes.antt =====
-- Writes of a TieredStore to all of its tiers (src/tiered.rs: set).
use swr_cache.Base.{◌≡◌, ◌⊎◌, inl, inr, ap, ◌∙◌, none, some, String, Result, ok, err, Result-cases}
use swr_cache.Base.Int.{ℤ}
use swr_cache.Base.Async.{Async, ret}
use swr_cache.Platform.{Serde}
use swr_cache.Error.{CacheError}
use swr_cache.Entry.{
  StoredEntry, typed, serialized, serialized_mode, convert_for_mode, to_serialized,
}
use swr_cache.Store.{Store}
use swr_cache.Tiered.{set_tier}

module _ {J : Serde} {W : Type 0} (namespace key : String) (tier : Store J W) where
  -- The write of a converted entry, or the error in place of it.
  abbrev pub write_converted :
      Result CacheError (StoredEntry J) → Async W (Result CacheError (Unit {0}))
  write_converted (ok converted) = tier.set namespace key converted
  write_converted (err e) = ret (err e)

  -- Nothing is written, or an entry in serialized form.
  abbrev pub IsSerializedWrite : Async W (Result CacheError (Unit {0})) → Type 0
  IsSerializedWrite m =
      ((x : CacheError) × (m ≡ ret (err x)))
      ⊎ ((json : String) × (fresh : ℤ) × (stale : ℤ) × (m
            ≡ tier.set namespace key (serialized json fresh stale)))

  -- A tier that prefers serialized entries is given such an entry, or nothing at all.
  pub set_tier_serialized :
      (e : StoredEntry J)
      → tier.storage_mode ≡ serialized_mode
      → IsSerializedWrite (set_tier namespace key e tier)
  unfolding set_tier convert_for_mode to_serialized
  set_tier_serialized (typed v fresh stale none) mode =
      inl (_, ap (λ m. write_converted (convert_for_mode (typed v fresh stale none) m)) mode)
  set_tier_serialized (typed v fresh stale (some ser)) mode =
      let e = typed v fresh stale (some ser) in
      let shape = ap (λ m. write_converted (convert_for_mode e m)) mode in
      elim (Result-cases (ser tt)) [
        | inl (json, h) ↦ inr (json, fresh, stale, shape ∙ rw h)
        | inr (x, h) ↦ inl (x, shape ∙ rw h)
      ]
  set_tier_serialized (serialized json fresh stale) mode = inr (
    json,
    fresh,
    stale,
    ap (λ m. write_converted (convert_for_mode (serialized json fresh stale) m)) mode,
  )
