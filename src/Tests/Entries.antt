-- ===== src/Tests/Entries.antt =====
-- Conversions of entries.
use swr_cache.Base.{◌≡◌, refl, true, ok}
use swr_cache.Base.Int.{pos}
use swr_cache.Entry.{serialized_mode, new, into_typed, fresh_until, stale_until}
use swr_cache.Entry.Conversions.{into_typed-convert_for_mode}
use swr_cache.Tests.Codec.{serde, serde-RoundTrips}
use swr_cache.Tests.Servers.{old}
use swr_cache.Tests.Program.{program}

into_typed-convert_for_mode_example :
    (into_typed true old ≡ ok (new 7 (pos 8) (pos 9)))
    × (fresh_until old ≡ pos 8)
    × (stale_until old ≡ pos 9)
unfolding program
into_typed-convert_for_mode_example =
    into_typed-convert_for_mode serde true 7 (pos 8) (pos 9) serialized_mode old serde-RoundTrips
      refl
