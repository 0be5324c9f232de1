-- ===== src/Platform.antt =====
-- What the crate takes from outside its sources, as parameters of the model: the values that a cache
-- holds with serde_json's conversions of them, std's clock and random state, floats, tokio's timer
-- and join_all.
use swr_cache.Base.{ℕ, ◌≡◌, Bool, String, List, Result, ok}
use swr_cache.Base.Int.{ℤ}
use swr_cache.Base.Async.Join.{IsJoin}
use swr_cache.Base.Async.{Async}

-- The types that implement Serialize and Deserialize, each with its `std::any::TypeId`.
-- serde_json's errors stand as the text that `Display` gives.
pub record Serde : Type 1 where
  pub TypeId : Type 0
  pub same_type : Discrete TypeId
  pub Val : TypeId → Type 0
  -- `serde_json::to_string(&Entry::new(value, fresh_until, stale_until))`
  pub to_string : (t : TypeId) → Val t → ℤ → ℤ → Result String String
  -- `serde_json::from_str::<Entry<V>>(&data)`: the three fields
  pub from_str : (t : TypeId) → String → Result String (Val t × ℤ × ℤ)
  -- `serde_json::from_str::<EntryMetadata>(&data)`: the fields fresh_until and stale_until
  pub metadata_from_str : String → Result String (ℤ × ℤ)

-- serde_json reads back what it wrote, and ignores the fields that a struct does not name.
pub record RoundTrips (J : Serde) : Type 0 where
  pub entry :
      (t : Serde.TypeId J) (v : Serde.Val J t) (fresh stale : ℤ) (s : String)
      → Serde.to_string J t v fresh stale ≡ ok s
      → Serde.from_str J t s ≡ ok (v, fresh, stale)
  pub metadata :
      (t : Serde.TypeId J) (v : Serde.Val J t) (fresh stale : ℤ) (s : String)
      → Serde.to_string J t v fresh stale ≡ ok s
      → Serde.metadata_from_str J s ≡ ok (fresh, stale)

-- f64, as far as the crate computes with it.
pub record Floats : Type 1 where
  pub F64 : Type 0
  pub zero_f : F64
  pub one_f : F64
  pub thousand_f : F64
  pub of_u64 : ℕ → F64
  pub div : F64 → F64 → F64
  pub mul : F64 → F64 → F64
  pub lt : F64 → F64 → Bool
  pub le : F64 → F64 → Bool

pub record Platform (W : Type 0) : Type 1 where
  pub floats : Floats
  -- milliseconds and nanoseconds since the epoch (`SystemTime::now()`, set after 1970)
  pub millis : W → ℕ
  pub nanos : W → ℕ
  -- `RandomState::new()`: the keys of the next hasher, as its `finish` after one `write_u64`
  pub random_hash : W → ℕ → ℕ
  -- `Instant::elapsed().as_secs_f64()` between two readings of the monotonic clock
  pub Instant : Type 0
  pub instant : W → Instant
  pub secs_between : Instant → Instant → Floats.F64 floats
  -- `tokio::time::sleep`, in milliseconds
  pub sleep : ℕ → Async W (Unit {0})
  -- `futures::future::join_all`
  pub join_all : {A : Type 0} → List (Async W A) → Async W (List A)

-- `join_all` runs the segments of the futures in some order and nothing else, and gives their results
-- in the order of the futures.
pub record JoinsAll {W : Type 0} (P : Platform W) : Type 1 where
  pub joined : {A : Type 0} (ms : List (Async W A)) → IsJoin ms (Platform.join_all P ms)
