-- ===== src/Cache/Tiers.antt =====
-- Caches that Cache::new makes over several stores (src/cache.rs).
use swr_cache.Base.{
  ◌≡◌, ◌⊎◌, inl, inr, sym, subst, true, ap, ◌∙◌, Option, none, some, String, List, ◌∷◌, Result, ok,
  All,
}
use swr_cache.Base.Int.{ℤ, leb_ℤ, ◌+i64◌}
use swr_cache.Base.Dict.{Dict}
use swr_cache.Base.Cell.{Cell}
use swr_cache.Base.Async.Exec.{Outcome, exec}
use swr_cache.Platform.{JoinsAll, Serde, RoundTrips, Platform}
use swr_cache.Utils.{now_ms}
use swr_cache.Error.{CacheError}
use swr_cache.Entry.{StoredEntry, is_expired}
use swr_cache.Store.{Store}
use swr_cache.Store.Keyed.{IsKeyed}
use swr_cache.Tiered.{tiered_store, from_stores, tiered_mode}
use swr_cache.Tiered.Nearest.{LeavesAlone, get-set_nearest}
use swr_cache.Swr.Data
use swr_cache.Swr.Direct
use swr_cache.Swr.Data.{Slot, entry_for}
use swr_cache.Swr.Reads.{exec-get, read_back}
use swr_cache.Swr.RoundTrip.{exec-set, Holds, entry_for-Holds}
use swr_cache.Cache.{Cache, new, get, set}

module _ {J : Serde} {W : Type 0} (P : Platform W) {t : Serde.TypeId J} (v : Serde.Val J t)
    (fresh stale : ℤ) (e : StoredEntry J) where
  expired_late :
      {mode : _} (now : ℤ)
      → Holds t mode v fresh stale e
      → is_expired e now ≡ true
      → leb_ℤ stale now ≡ true
  unfolding is_expired
  expired_late now h late = rw (sym h.expires) late

  value_read : {mode : _} → Holds t mode v fresh stale e → read_back t (ok (some e)) ≡ ok (some v)
  value_read h = rw h.reads

-- The cache that Cache::new makes over a store and others after it.
abbrev pub tiers_cache :
    {J : Serde} {W : Type 0} (P : Platform W) {t : Serde.TypeId J}
    → String
    → Store J W
    → List (Store J W)
    → ℤ
    → ℤ
    → Cell W (Dict (Slot (Serde.Val J t)))
    → W
    → Cache J W t
tiers_cache P namespace near rest fresh_ms stale_ms cell w0 =
    (new P namespace (near ∷ rest) fresh_ms stale_ms cell w0).0

module _ {J : Serde} {W : Type 0} (P : Platform W) (joins : JoinsAll P) (near : Store J W)
    (Inv : W → Type 0) (entry : W → String → Option (StoredEntry J))
    (keyed : IsKeyed P Inv entry near) (rest : List (Store J W)) (r : RoundTrips J)
    {t : Serde.TypeId J} (namespace : String) (fresh_ms stale_ms : ℤ)
    (cell : Cell W (Dict (Slot (Serde.Val J t)))) (w0 : W) where
  abbrev made : Cache J W t
  made = tiers_cache P namespace near rest fresh_ms stale_ms cell w0

  -- In a cache over any number of stores, of which the first keeps the entries of different keys
  -- apart and the others, in their writes of the key, leave what it holds there alone, a read right
  -- after a write of a value that can be serialized gives the value, or the value has expired by the
  -- end of the first store's read. It does so in whatever order the segments of the stores' writes
  -- fall, and where the other stores refuse the write or are down and the write ends in an error.
  pub get-set_tiers :
      (key : String) (v : Serde.Val J t) (w : W) (e : StoredEntry J)
      → All (LeavesAlone P Inv entry namespace key) rest
      → Inv w
      → entry_for t near.storage_mode v (now_ms P w +i64 fresh_ms) (now_ms P w +i64 stale_ms) ≡ ok e
      → let w' = (exec (set P made key v) w).world in
        ((exec (get P made key) w').result ≡ ok (some v))
        ⊎ (leb_ℤ (now_ms P w +i64 stale_ms) (now_ms P (exec (near.get namespace key) w').world)
            ≡ true)
  unfolding new get set Data.new from_stores tiered_store tiered_mode
  get-set_tiers key v w e alone inv written =
      let c = made.swr_cache in
      let fresh = now_ms P w +i64 fresh_ms in
      let stale = now_ms P w +i64 stale_ms in
      let holds = entry_for-Holds r t near.storage_mode v fresh stale e written in
      let same = exec-set P c namespace key v none w written in
      let w' = (exec (c.store.set namespace key e) w).world in
      subst
        (λ (o : Outcome W (Result CacheError (Unit {0}))).
          ((exec (Direct.get P c namespace key) o.world).result ≡ ok (some v))
          ⊎ (leb_ℤ stale (now_ms P (exec (near.get namespace key) o.world).world) ≡ true))
        (sym same)
        (elim (get-set_nearest P near Inv entry keyed namespace key joins rest w e e alone inv
          holds.taken) [
            | inl found ↦ inl (
                ap (λ (o : Outcome W (Result CacheError (Option (Serde.Val J t)))). o.result)
                  (exec-get P c namespace key w')
                ∙ ap (read_back t) found
                ∙ value_read P v fresh stale e holds)
            | inr late ↦ inr (expired_late P v fresh stale e _ holds late)
          ])
