-- ===== src/Swr/Overflow.antt =====
-- Times of expiry beyond the range of i64 (src/swr.rs: set).
use swr_cache.Base.{
  ◌^◌, ◌≡◌, ap, ◌∙◌, false, none, some, map_or, Option, String, ok, arith, if◌then◌else◌,
}
use swr_cache.Base.Int.{ℤ, pos, ltb_ℤ, InI64, InI64-as_i64, ◌≤ℤ◌, ◌+ℤ◌, +i64_overflow}
use swr_cache.Base.Async.Exec.{exec}
use swr_cache.Platform.{Serde, RoundTrips, Platform}
use swr_cache.Utils.{now_ms}
use swr_cache.Entry.{StoredEntry}
use swr_cache.Store.Laws.{IsLawful}
use swr_cache.Swr.Data.{SwrCache, SetOptions}
use swr_cache.Swr.Direct.{get, set}
use swr_cache.Swr.RoundTrip.{stale_time, made, get-set}

module _ {J : Serde} {W : Type 0} (P : Platform W) {t : Serde.TypeId J} (c : SwrCache J W t) where
  InI64-now_ms : (w : W) → InI64 (now_ms P w)
  unfolding now_ms
  InI64-now_ms w = InI64-as_i64 (Platform.millis P w)

  -- The time to live that a write asks for.
  abbrev pub asked : Option SetOptions → ℤ
  asked opts = map_or opts (λ o. o.stale_ms) c.stale_ms

  passed :
      (opts : Option SetOptions) (w : W)
      → pos 0 ≤ℤ now_ms P w
      → InI64 (asked opts)
      → pos (2 ^ 63) ≤ℤ now_ms P w +ℤ asked opts
      → ltb_ℤ (now_ms P w) (stale_time P c opts w) ≡ false
  passed opts w since fits over =
      let wrapped = +i64_overflow (now_ms P w) (asked opts) (InI64-now_ms w) fits over in
      ground arith

  -- A time to live so long that the time of expiry is beyond i64, such as `i64::MAX` milliseconds
  -- for an entry that is never to expire: over a store that keeps its contract the write succeeds,
  -- and the read right after it is a miss.
  pub get-set_overflow :
      (Inv : W → Type 0) (view : W → String → Option (StoredEntry J)) (namespace key : String)
      (v : Serde.Val J t) (opts : Option SetOptions) (w : W) (e : StoredEntry J)
      → IsLawful P c.store Inv view
      → RoundTrips J
      → Inv w
      → made P c opts w v ≡ ok e
      → pos 0 ≤ℤ now_ms P w
      → InI64 (asked opts)
      → pos (2 ^ 63) ≤ℤ now_ms P w +ℤ asked opts
      → let o = exec (set P c namespace key v opts) w in
        (o.result ≡ ok tt) × ((exec (get P c namespace key) o.world).result ≡ ok none)
  get-set_overflow Inv view namespace key v opts w e lawful r inv made' since fits over =
      let all = get-set P c Inv view lawful r namespace key v opts w e inv made' in
      (all.0, all.1 ∙ ap (λ b. ok (if b then some v else none)) (passed opts w since fits over))
