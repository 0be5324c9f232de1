-- ===== src/Entry/Conversions.antt =====
-- What the conversions of entries keep (src/entry.rs).
use swr_cache.Base.{
  Option, none, some, ◌≡◌, ◌≢◌, ◌∙◌, refl, ap, subst, ok, err, Result-cases, inl, inr, arith,
}
use swr_cache.Base.Int.{ℤ}
use swr_cache.Platform.{Serde, RoundTrips}
use swr_cache.Error.{serialization}
use swr_cache.Entry.{
  StorageMode, typed_mode, serialized_mode, StoredEntry, typed, new, fresh_until, stale_until,
  Serializer, from_typed_with_serializer, downcast, into_typed, convert_for_mode,
}
use mathlib.Core.HLevel.{hedberg}
use mathlib.Core.Path.{subst_refl}

module _ (J : Serde) where
  pub downcast_self : (t : Serde.TypeId J) (v : Serde.Val J t) → downcast J t (t, v) ≡ some v
  unfolding downcast
  downcast_self t v = go (Serde.same_type J t t)
    where
      go :
          (d : Dec (t ≡ t))
          → elim d [ yes p ↦ some (subst (Serde.Val J) p v) | no _ ↦ none ] ≡ some v
      go (yes p) =
          ap (λ q. some (subst (Serde.Val J) q v)) (hedberg (Serde.same_type J) t t p refl)
          ∙ ap some (subst_refl (Serde.Val J) v)
      go (no n) = absurd (n refl)

  pub downcast_other :
      (t u : Serde.TypeId J) (v : Serde.Val J u) → u ≢ t → downcast J t (u, v) ≡ none
  unfolding downcast
  downcast_other t u v h = go (Serde.same_type J u t)
    where
      go :
          (d : Dec (u ≡ t)) → elim d [ yes p ↦ some (subst (Serde.Val J) p v) | no _ ↦ none ] ≡ none
      go (yes p) = absurd (h p)
      go (no n) = refl

  -- A typed entry is read back at its own type, and refused at every other type.
  pub into_typed-typed :
      (t u : Serde.TypeId J) (v : Serde.Val J t) (fresh stale : ℤ) (s : Option Serializer)
      → (into_typed {J = J} t (typed (t, v) fresh stale s) ≡ ok (new v fresh stale))
        × (t ≢ u
            → into_typed {J = J} u (typed (t, v) fresh stale s)
              ≡ err (serialization "Type downcast failed"))
  unfolding into_typed
  into_typed-typed t u v fresh stale s = (rw (downcast_self t v), λ h. rw (downcast_other u t v h))

  -- An entry made from a value, in the form that any store asks for, gives back the value and the
  -- two times, in the entry's own fields too.
  pub into_typed-convert_for_mode :
      (t : Serde.TypeId J) (v : Serde.Val J t) (fresh stale : ℤ) (mode : StorageMode)
      (e : StoredEntry J)
      → RoundTrips J
      → convert_for_mode (from_typed_with_serializer t v fresh stale) mode ≡ ok e
      → (into_typed t e ≡ ok (new v fresh stale))
        × (fresh_until e ≡ fresh)
        × (stale_until e ≡ stale)
  unfolding into_typed convert_for_mode from_typed_with_serializer
  into_typed-convert_for_mode t v fresh stale typed_mode e r h = ground (arith, downcast_self t v)
  into_typed-convert_for_mode t v fresh stale serialized_mode e r h =
      elim (Result-cases (Serde.to_string J t v fresh stale)) [
        | inl (s, written) ↦ ground (arith, r.entry t v fresh stale s written)
        | inr (x, failed) ↦ ground arith
      ]
