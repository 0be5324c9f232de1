-- ===== src/Error.antt =====
-- src/error.rs: the error type of cache operations.
use swr_cache.Base.{String, ◌⧺◌}

pub data CacheError : Type 0 where
  operation_error : String → String → String → CacheError
  serialization : String → CacheError

-- `CacheError::operation(tier, key, message)`
abbrev pub operation : String → String → String → CacheError
operation tier key message = operation_error tier key message

-- The `Display` text that `thiserror` derives from the `#[error]` lines.
unfoldable pub error_text : CacheError → String
error_text (operation_error tier key message) =
    "[" ⧺ tier ⧺ "] cache error for key '" ⧺ key ⧺ "': " ⧺ message
error_text (serialization s) = "Serialization error: " ⧺ s
