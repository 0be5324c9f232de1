-- ===== src/Swr/Safety/Values.antt =====
-- Values that are right for a key, in entries and in answers (src/swr.rs).
use swr_cache.Base.{◌≡◌, refl, subst, sym, Option, none, some, Result, ok, err, arith}
use swr_cache.Base.Int.{ℤ}
use swr_cache.Platform.{Serde, RoundTrips}
use swr_cache.Error.{CacheError}
use swr_cache.Entry.{
  Entry, StorageMode, typed_mode, serialized_mode, StoredEntry, convert_for_mode, into_typed,
  from_typed_with_serializer,
}
use swr_cache.Entry.Carries.{Carries, Carries-right, convert-Carries, value-Carries}
use swr_cache.Store.Safety.{Found}
use swr_cache.Swr.Data.{GetResult, classify, entry_for, retried}
use swr_cache.Swr.Reads.{value-classify}

module _ {V : Type 0} (Right : V → Type 0) where
  -- A value, if there is one, is right.
  abbrev pub RightOption : Option V → Type 0
  RightOption none = Unit
  RightOption (some v) = Right v

  -- No error, and a right value if there is one.
  abbrev pub RightAnswer : {E : Type 0} → Result E (Option V) → Type 0
  RightAnswer (ok o) = RightOption o
  RightAnswer (err x) = ⊥

  abbrev pub RightGet : Result CacheError (GetResult V) → Type 0
  RightGet (ok r) = RightOption r.value
  RightGet (err x) = Unit

  pub classify-RightOption :
      (e : Entry V) (now : ℤ) → Right e.value → RightOption (classify e now).value
  classify-RightOption e now h = subst RightOption (sym (value-classify e now)) h

  -- The value of an entry that was read, or nothing.
  entry-RightOption :
      {E : Type 0} (o : Result E (Entry V))
      → ((x : Entry V) → o ≡ ok x → Right x.value)
      → RightOption (elim o [ ok entry ↦ some entry.value | err e ↦ none ])
  entry-RightOption (ok x) h = h x refl
  entry-RightOption (err e) h = tt

made_typed :
    {J : Serde} (t : Serde.TypeId J) (v : Serde.Val J t) (fresh stale : ℤ) (e : StoredEntry J)
    → entry_for t typed_mode v fresh stale ≡ ok e
    → from_typed_with_serializer t v fresh stale ≡ e
unfolding entry_for
made_typed t v fresh stale e made = ground arith

serialized_made :
    {J : Serde} (t : Serde.TypeId J) (v : Serde.Val J t) (fresh stale : ℤ) (e : StoredEntry J)
    → entry_for t serialized_mode v fresh stale ≡ ok e
    → convert_for_mode (from_typed_with_serializer t v fresh stale) serialized_mode ≡ ok e
unfolding entry_for convert_for_mode
serialized_made t v fresh stale e made = ground arith

module _ {J : Serde} (t : Serde.TypeId J) (Right : Serde.Val J t → Type 0) where
  pub entry_for-Carries :
      (mode : StorageMode) (v : Serde.Val J t) (fresh stale : ℤ) (e : StoredEntry J)
      → RoundTrips J
      → Right v
      → entry_for t mode v fresh stale ≡ ok e
      → Carries t Right e
  unfolding entry_for
  entry_for-Carries typed_mode v fresh stale e r h made =
      subst (Carries t Right) (made_typed t v fresh stale e made)
        (value-Carries t Right v fresh stale r h)
  entry_for-Carries serialized_mode v fresh stale e r h made =
      convert-Carries t Right serialized_mode (from_typed_with_serializer t v fresh stale) e
        (serialized_made t v fresh stale e made) (value-Carries t Right v fresh stale r h)

  pub retried-RightOption :
      (r : Result CacheError (Option (StoredEntry J)))
      → Found (Carries t Right) r
      → RightOption Right (retried t r)
  unfolding retried
  retried-RightOption (ok (some e)) h =
      entry-RightOption Right (into_typed t e) (λ x read. Carries-right t Right e x h read)
  retried-RightOption (ok none) h = tt
  retried-RightOption (err x) h = tt
