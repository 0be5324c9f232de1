-- ===== src/Entry/Times.antt =====
-- The three ages of an entry (src/entry.rs).
use swr_cache.Base.{Bool, true, false, ◌≡◌, ◌⊎◌, arith}
use swr_cache.Base.Int.{ℤ, ◌≤ℤ◌}
use swr_cache.Platform.{Serde}
use swr_cache.Entry.{StoredEntry, fresh_until, stale_until, is_fresh, is_stale, is_expired}

-- The tests of one entry at one time, in order: fresh, stale, expired.
abbrev pub HasAges : {J : Serde} → StoredEntry J → ℤ → Bool → Bool → Bool → Type 0
HasAges e now f s x = (is_fresh e now ≡ f) × (is_stale e now ≡ s) × (is_expired e now ≡ x)

module _ {J : Serde} (e : StoredEntry J) where
  -- An entry whose times are in order is at every moment exactly one of fresh, stale and expired.
  pub ages_exclusive :
      (now : ℤ)
      → fresh_until e ≤ℤ stale_until e
      → HasAges e now true false false
        ⊎ HasAges e now false true false
        ⊎ HasAges e now false false true
  unfolding is_fresh is_stale is_expired
  ages_exclusive now h = ground arith
