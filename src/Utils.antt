-- ===== src/Utils.antt =====
-- src/utils.rs: composite keys, the clock in milliseconds, and a pseudo-random number.
pub mod Keys
use swr_cache.Base.{ℕ, ◌-◌, ◌%◌, ◌^◌, String, ◌⧺◌}
use swr_cache.Base.Int.{ℤ, as_i64}
use swr_cache.Platform.{Platform, Floats}

-- `format!("{}:{}", namespace, key)`
unfoldable pub build_cache_key : String → String → String
build_cache_key namespace key = namespace ⧺ ":" ⧺ key

module _ {W : Type 0} (P : Platform W) where
  -- `as_millis() as i64`
  unfoldable pub now_ms : W → ℤ
  unfolding as_i64
  now_ms w = as_i64 (Platform.millis P w)

  -- `hasher.finish() as f64 / u64::MAX as f64`, of the hash of the nanoseconds as u64
  unfoldable pub rand_simple : W → Floats.F64 (Platform.floats P)
  rand_simple w =
      let f = Platform.floats P in
      Floats.div f (Floats.of_u64 f (Platform.random_hash P w (Platform.nanos P w % 2 ^ 64)))
        (Floats.of_u64 f (2 ^ 64 - 1))
