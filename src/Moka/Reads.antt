-- ===== src/Moka/Reads.antt =====
-- What a MokaStore answers to what moka has (src/stores/moka.rs).
use swr_cache.Base.{◌≡◌, ◌⊎◌, none, some, String, ok, arith}
use swr_cache.Base.Int.{◌<ℤ◌, ◌≤ℤ◌}
use swr_cache.Base.Async.Exec.{exec}
use swr_cache.Platform.{Serde, Platform}
use swr_cache.Utils.{build_cache_key, now_ms}
use swr_cache.Entry.{StoredEntry, stale_until, is_expired}
use swr_cache.Moka.{MokaCrate, MokaStore, serve, get}

module _ {J : Serde} {W : Type 0} (M : MokaCrate J W) (P : Platform W) (s : MokaStore M)
    (namespace key : String) where
  -- Where moka has an entry for the key, a read gives it if it has not expired; if it has, the entry
  -- is invalidated and the read is a miss.
  pub get_unexpired :
      (w : W) (e : StoredEntry J)
      → (MokaCrate.cache_get M s.cache (build_cache_key namespace key) w).0 ≡ some e
      → let (_, w') = MokaCrate.cache_get M s.cache (build_cache_key namespace key) w in
        let o = exec (get M P s namespace key) w in
        ((now_ms P w' <ℤ stale_until e) × (o.result ≡ ok (some e)) × (o.world ≡ w'))
        ⊎ ((stale_until e ≤ℤ now_ms P w')
            × (o.result ≡ ok none)
            × (o.world ≡ MokaCrate.invalidate M s.cache (build_cache_key namespace key) w'))
  unfolding get serve is_expired
  get_unexpired w e found = ground arith
