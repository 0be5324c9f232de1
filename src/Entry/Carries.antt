-- ===== src/Entry/Carries.antt =====
-- The value that an entry carries, whichever form it has or is given later (src/entry.rs).
use swr_cache.Base.{String, ◌≡◌, ◌⊎◌, refl, ok, Result, inl, inr, arith}
use swr_cache.Base.Int.{ℤ}
use swr_cache.Platform.{Serde, RoundTrips}
use swr_cache.Error.{CacheError}
use swr_cache.Entry.{
  StorageMode, typed_mode, serialized_mode, StoredEntry, typed, serialized, Entry, new,
  from_typed_with_serializer, into_typed, to_serialized, convert_for_mode,
}
use swr_cache.Entry.Conversions.{into_typed-convert_for_mode}

same_value :
    {V : Type 0} (r : Result CacheError (Entry V)) (x y : Entry V)
    → r ≡ ok x
    → r ≡ ok y
    → x.value ≡ y.value
same_value r x y h k = ground arith

module _ {J : Serde} (t : Serde.TypeId J) where
  text_read :
      (mode : StorageMode) (json : String) (fresh stale fresh' stale' : ℤ) (e' : StoredEntry J)
      (x : Entry (Serde.Val J t))
      → convert_for_mode (serialized json fresh' stale') mode ≡ ok e'
      → into_typed t e' ≡ ok x
      → (let e : StoredEntry J = serialized json fresh stale in into_typed t e ≡ ok x)
  unfolding convert_for_mode into_typed
  text_read mode json fresh stale fresh' stale' e' x converted read = ground arith

module _ {J : Serde} (t : Serde.TypeId J) (Right : Serde.Val J t → Type 0) where
  -- Whatever form the entry is given, reading it at the type `t` gives an error or a right value.
  pub record Carries (e : StoredEntry J) : Type 0 where
    pub right :
        (mode : StorageMode) (e' : StoredEntry J) (x : Entry (Serde.Val J t))
        → convert_for_mode e mode ≡ ok e'
        → into_typed t e' ≡ ok x
        → Right x.value

  -- Two conversions end in the form that one of them alone gives.
  convert_twice :
      (mode mode' : StorageMode) (e e' e'' : StoredEntry J)
      → convert_for_mode e mode ≡ ok e'
      → convert_for_mode e' mode' ≡ ok e''
      → (convert_for_mode e mode ≡ ok e'') ⊎ (convert_for_mode e mode' ≡ ok e'')
  unfolding convert_for_mode to_serialized
  convert_twice mode mode' e e' e'' first second = ground arith

  pub convert-Carries :
      (mode : StorageMode) (e e' : StoredEntry J)
      → convert_for_mode e mode ≡ ok e'
      → Carries e
      → Carries e'
  convert-Carries mode e e' converted c = record {
    right = λ mode' e'' x again read. elim (convert_twice mode mode' e e' e'' converted again) [
      | inl first ↦ c.right mode e'' x first read
      | inr second ↦ c.right mode' e'' x second read
    ];
  }

  -- The entry as it stands.
  pub Carries-right :
      (e : StoredEntry J) (x : Entry (Serde.Val J t))
      → Carries e
      → into_typed t e ≡ ok x
      → Right x.value
  unfolding convert_for_mode
  Carries-right (typed v fresh stale s) x c read =
      c.right typed_mode (typed v fresh stale s) x refl read
  Carries-right (serialized s fresh stale) x c read =
      c.right serialized_mode (serialized s fresh stale) x refl read

  -- A text carries what serde_json reads from it, whatever times stand beside it.
  pub text-Carries :
      (json : String) (fresh stale fresh' stale' : ℤ)
      → Carries (serialized json fresh stale)
      → Carries (serialized json fresh' stale')
  unfolding convert_for_mode into_typed
  text-Carries json fresh stale fresh' stale' c = record {
    right = λ mode e' x converted read.
        c.right serialized_mode (serialized json fresh stale) x refl
          (text_read t mode json fresh stale fresh' stale' e' x converted read);
  }

  -- What is made of a right value carries it.
  pub value-Carries :
      (v : Serde.Val J t) (fresh stale : ℤ)
      → RoundTrips J
      → Right v
      → Carries (from_typed_with_serializer t v fresh stale)
  value-Carries v fresh stale r h = record {
    right = λ mode e' x converted read.
        let same = (into_typed-convert_for_mode J t v fresh stale mode e' r converted).0 in
        rw (same_value (into_typed t e') x (new v fresh stale) read same) h;
  }
