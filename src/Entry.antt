-- ===== src/Entry.antt =====
-- src/entry.rs: typed entries, type-erased entries, and the conversions between them.
pub mod Times
pub mod Conversions
pub mod Carries
use swr_cache.Base.{
  Bool, ◌&&◌, Option, some, none, String, ◌⧺◌, Result, ok, err, map_err, ◌≡◌, subst,
}
use swr_cache.Base.Int.{ℤ, ltb_ℤ, leb_ℤ}
use swr_cache.Platform.{Serde}
use swr_cache.Error.{CacheError, serialization}

pub record Entry (V : Type 0) : Type 0 where
  pub value : V
  pub fresh_until : ℤ
  pub stale_until : ℤ

pub data StorageMode : Type 0 where
  typed_mode serialized_mode : StorageMode

-- `Arc<dyn Any>`: a value with the identity of its type.
abbrev pub Any : Serde → Type 0
Any J = (t : Serde.TypeId J) × Serde.Val J t

-- `Arc<dyn Fn() -> Result<String, CacheError>>`
abbrev pub Serializer : Type 0
Serializer = Unit {0} → Result CacheError String

pub data StoredEntry (J : Serde) : Type 0 where
  typed : Any J → ℤ → ℤ → Option Serializer → StoredEntry J
  serialized : String → ℤ → ℤ → StoredEntry J

abbrev pub new : {V : Type 0} → V → ℤ → ℤ → Entry V
new value fresh_until stale_until = record {
  value = value;
  fresh_until = fresh_until;
  stale_until = stale_until;
}

module _ {V : Type 0} (e : Entry V) (now_ms : ℤ) where
  unfoldable pub entry_is_fresh : Bool
  entry_is_fresh = ltb_ℤ now_ms e.fresh_until

  unfoldable pub entry_is_stale : Bool
  entry_is_stale = leb_ℤ e.fresh_until now_ms && ltb_ℤ now_ms e.stale_until

  unfoldable pub entry_is_expired : Bool
  entry_is_expired = leb_ℤ e.stale_until now_ms

abbrev pub serialize_failed : String → CacheError
serialize_failed e = serialization ("Serialization failed: " ⧺ e)

abbrev typed_entry : {V : Type 0} → Option V → ℤ → ℤ → Result CacheError (Entry V)
typed_entry none fresh stale = err (serialization "Type downcast failed")
typed_entry (some v) fresh stale = ok (new v fresh stale)

abbrev parsed_entry : {V : Type 0} → Result String (V × ℤ × ℤ) → Result CacheError (Entry V)
parsed_entry (err e) = err (serialization ("Deserialization failed: " ⧺ e))
parsed_entry (ok (v, fresh, stale)) = ok (new v fresh stale)

-- `value.downcast::<V>()`
module _ (J : Serde) where
  unfoldable pub downcast : (t : Serde.TypeId J) → Any J → Option (Serde.Val J t)
  downcast t (u, v) = elim (Serde.same_type J u t) [
    | yes p ↦ some (subst (Serde.Val J) p v)
    | no _ ↦ none
  ]

module _ {J : Serde} where
  abbrev pub fresh_until : StoredEntry J → ℤ
  fresh_until (typed value fresh stale serializer) = fresh
  fresh_until (serialized s fresh stale) = fresh

  abbrev pub stale_until : StoredEntry J → ℤ
  stale_until (typed value fresh stale serializer) = stale
  stale_until (serialized s fresh stale) = stale

  unfoldable pub is_fresh : StoredEntry J → ℤ → Bool
  is_fresh e now_ms = ltb_ℤ now_ms (fresh_until e)

  unfoldable pub is_stale : StoredEntry J → ℤ → Bool
  is_stale e now_ms = leb_ℤ (fresh_until e) now_ms && ltb_ℤ now_ms (stale_until e)

  unfoldable pub is_expired : StoredEntry J → ℤ → Bool
  is_expired e now_ms = leb_ℤ (stale_until e) now_ms

  unfoldable pub from_typed : (t : Serde.TypeId J) → Serde.Val J t → ℤ → ℤ → StoredEntry J
  from_typed t value fresh_until stale_until = typed (t, value) fresh_until stale_until none

  unfoldable pub from_typed_with_serializer :
      (t : Serde.TypeId J) → Serde.Val J t → ℤ → ℤ → StoredEntry J
  from_typed_with_serializer t value fresh_until stale_until =
      typed (t, value) fresh_until stale_until
        (some (λ _. map_err serialize_failed (Serde.to_string J t value fresh_until stale_until)))

  unfoldable pub from_serialized : String → ℤ → ℤ → StoredEntry J
  from_serialized s fresh_until stale_until = serialized s fresh_until stale_until

  -- The times of a serialized entry are those inside the text, not the fields beside it.
  unfoldable pub into_typed :
      (t : Serde.TypeId J) → StoredEntry J → Result CacheError (Entry (Serde.Val J t))
  unfolding downcast
  into_typed t (typed value fresh stale serializer) = typed_entry (downcast J t value) fresh stale
  into_typed t (serialized s fresh stale) = parsed_entry (Serde.from_str J t s)

  abbrev serialized_by : Result CacheError String → ℤ → ℤ → Result CacheError (StoredEntry J)
  serialized_by (err e) fresh stale = err e
  serialized_by (ok s) fresh stale = ok (serialized s fresh stale)

  unfoldable pub to_serialized : StoredEntry J → Result CacheError (StoredEntry J)
  to_serialized (serialized s fresh stale) = ok (serialized s fresh stale)
  to_serialized (typed value fresh stale (some serializer)) =
      serialized_by (serializer tt) fresh stale
  to_serialized (typed value fresh stale none) =
      err (serialization "Cannot serialize Typed entry: no serializer available")

  unfoldable pub convert_for_mode : StoredEntry J → StorageMode → Result CacheError (StoredEntry J)
  unfolding to_serialized
  convert_for_mode (typed value fresh stale serializer) typed_mode =
      ok (typed value fresh stale serializer)
  convert_for_mode (serialized s fresh stale) serialized_mode = ok (serialized s fresh stale)
  convert_for_mode (typed value fresh stale serializer) serialized_mode =
      to_serialized (typed value fresh stale serializer)
  convert_for_mode (serialized s fresh stale) typed_mode = ok (serialized s fresh stale)
