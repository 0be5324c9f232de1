-- ===== src/Cache/Contract.antt =====
-- Caches that Cache::new makes over one store (src/cache.rs).
use swr_cache.Error.{CacheError}
use swr_cache.Base.{
  Result, ap, ◌≡◌, ◌≢◌, sym, ◌∙◌, false, Bool-cases, inl, inr, Option, none, some, String, [], ◌∷◌,
  ok, str_eq, str_eq_iff, if◌then◌else◌,
}
use swr_cache.Base.Int.{ℤ, ltb_ℤ, ◌+i64◌}
use swr_cache.Base.Dict.{Dict}
use swr_cache.Base.Cell.{Cell}
use swr_cache.Base.Async.{Async, ◌>>◌}
use swr_cache.Base.Async.Exec.{Outcome, exec}
use swr_cache.Platform.{JoinsAll, Serde, RoundTrips, Platform}
use swr_cache.Utils.{build_cache_key, now_ms}
use swr_cache.Utils.Keys.{NoColon, build_cache_key_injective}
use swr_cache.Entry.{StoredEntry}
use swr_cache.Store.{Store}
use swr_cache.Store.Laws.{IsLawful}
use swr_cache.Tiered.{tiered_store, from_stores, tiered_mode}
use swr_cache.Tiered.Single.{tiered_store-IsLawful}
use swr_cache.Swr.Data.{Slot, entry_for}
use swr_cache.Swr.RoundTrip.{result-get, exec-set, IsWrite-made, get-set}
use swr_cache.Swr.Data
use swr_cache.Cache.{Cache, new, get, set}

-- A write of a key and then a read of it, as one future.
abbrev pub set_then_get :
    {J : Serde} {W : Type 0} (P : Platform W) {t : Serde.TypeId J}
    → Cache J W t
    → String
    → Serde.Val J t
    → Async W (Result CacheError (Option (Serde.Val J t)))
set_then_get P c key v = set P c key v >> get P c key

module _ {J : Serde} {W : Type 0} (P : Platform W) (S : Store J W) where
  -- The cache that Cache::new makes over the store.
  abbrev pub made_cache :
      {t : Serde.TypeId J} → String → ℤ → ℤ → Cell W (Dict (Slot (Serde.Val J t))) → W → Cache J W t
  made_cache namespace fresh_ms stale_ms cell w0 =
      (new P namespace (S ∷ []) fresh_ms stale_ms cell w0).0

  -- The entry that a write without options stores.
  abbrev pub Writes : (t : Serde.TypeId J) → ℤ → ℤ → Serde.Val J t → W → StoredEntry J → Type 0
  Writes t fresh_ms stale_ms v w e =
      entry_for t S.storage_mode v (now_ms P w +i64 fresh_ms) (now_ms P w +i64 stale_ms) ≡ ok e

module _ {J : Serde} {W : Type 0} (P : Platform W) (joins : JoinsAll P) (S : Store J W)
    (Inv : W → Type 0) (view : W → String → Option (StoredEntry J)) (lawful : IsLawful P S Inv view)
    (r : RoundTrips J) where
  module _ {t : Serde.TypeId J} (namespace : String) (fresh_ms stale_ms : ℤ)
      (cell : Cell W (Dict (Slot (Serde.Val J t)))) (w0 : W) where
    -- In a cache over one store that keeps its contract, a write that can be serialized succeeds, and
    -- a read of the key right after it gives the value if the sum of the clock and the cache's time of
    -- expiry, which may wrap, is still to come, and a miss if not.
    pub get-set_cache :
        (key : String) (v : Serde.Val J t) (w : W) (e : StoredEntry J)
        → Inv w
        → Writes P S t fresh_ms stale_ms v w e
        → let c = made_cache P S {t = t} namespace fresh_ms stale_ms cell w0 in
          let o = exec (set P c key v) w in
          (o.result ≡ ok tt)
          × ((exec (get P c key) o.world).result
              ≡ ok (if ltb_ℤ (now_ms P w) (now_ms P w +i64 stale_ms) then some v else none))
    unfolding new get set Data.new from_stores tiered_store tiered_mode
    get-set_cache key v w e inv written =
        let c = made_cache P S {t = t} namespace fresh_ms stale_ms cell w0 in
        let all =
          get-set P c.swr_cache Inv view (tiered_store-IsLawful P joins S Inv view lawful) r
            namespace key v none w e inv written in
        (all.0, all.1)

  keys_apart :
      (n m k j : String)
      → NoColon n
      → NoColon m
      → n ≢ m
      → str_eq (build_cache_key n k) (build_cache_key m j) ≡ false
  keys_apart n m k j hn hm ne =
      elim (Bool-cases (str_eq (build_cache_key n k) (build_cache_key m j))) [
        | inl same ↦
            absurd (ne (build_cache_key_injective n m k j hn hm ((str_eq_iff _ _).0 same)).0)
        | inr apart ↦ apart
      ]

  -- Two caches over one store that keeps its contract, of any two types of values, in different
  -- namespaces without colons: a write in the first changes no read of the second.
  pub namespaces_apart :
      (t u : Serde.TypeId J) (namespace other : String) (fresh_ms stale_ms fresh' stale' : ℤ)
      (cell : Cell W (Dict (Slot (Serde.Val J t)))) (cell' : Cell W (Dict (Slot (Serde.Val J u))))
      (key key' : String) (v : Serde.Val J t) (w0 w : W) (e : StoredEntry J)
      → Inv w
      → Writes P S t fresh_ms stale_ms v w e
      → NoColon namespace
      → NoColon other
      → namespace ≢ other
      → let c = made_cache P S {t = t} namespace fresh_ms stale_ms cell w0 in
        let d = made_cache P S {t = u} other fresh' stale' cell' w0 in
        (exec (get P d key') (exec (set P c key v) w).world).result ≡ (exec (get P d key') w).result
  unfolding new get set Data.new from_stores tiered_store tiered_mode
  namespaces_apart t u namespace other fresh_ms stale_ms fresh' stale' cell cell' key key' v w0 w e
        inv written hn hm ne =
      let c = made_cache P S {t = t} namespace fresh_ms stale_ms cell w0 in
      let d = made_cache P S {t = u} other fresh' stale' cell' w0 in
      let tiers = tiered_store-IsLawful P joins S Inv view lawful in
      let write =
        IsWrite-made P c.swr_cache Inv view tiers r namespace key v none w e inv written in
      let after = (exec (c.swr_cache.store.set namespace key e) w).world in
      let apart = keys_apart namespace other key key' hn hm ne in
      ap (λ (o : Outcome W (Result CacheError (Unit {0}))). (exec (get P d key') o.world).result)
        (exec-set P c.swr_cache namespace key v none w written)
      ∙ result-get P d.swr_cache Inv view tiers r other key' after write.quiet.inv
      ∙ rw (write.views (build_cache_key other key'), apart)
          (sym (result-get P d.swr_cache Inv view tiers r other key' w inv))
