-- ===== src/Cache.antt =====
-- src/cache.rs: Cache, a namespace over a SwrCache over a TieredStore.
pub mod Contract
pub mod Tiers
pub mod Clients
pub mod Marks
pub mod Safety
pub mod Bounded
use swr_cache.Base.{Option, none, some, String, List, Result}
use swr_cache.Base.Int.{ℤ}
use swr_cache.Base.Dict.{Dict}
use swr_cache.Base.Cell.{Cell}
use swr_cache.Base.Async.{Async}
use swr_cache.Platform.{Serde, Platform}
use swr_cache.Error.{CacheError}
use swr_cache.Store.{Store}
use swr_cache.Tiered
use swr_cache.Swr.Data.{Slot, SwrCache, Origin}
use swr_cache.Swr.Data
use swr_cache.Swr.Direct
use swr_cache.Swr

pub record Cache (J : Serde) (W : Type 0) (t : Serde.TypeId J) : Type 0 where
  pub namespace : String
  pub swr_cache : SwrCache J W t

module _ {J : Serde} {W : Type 0} (P : Platform W) {t : Serde.TypeId J} where
  -- `Cache::new`; the map of revalidations is the new memory `cell`.
  unfoldable pub new :
      String → List (Store J W) → ℤ → ℤ → Cell W (Dict (Slot (Serde.Val J t))) → W → Cache J W t × W
  new namespace stores fresh_ms stale_ms cell w =
      let tiered = Tiered.tiered_store P (Tiered.from_stores stores) in
      let (swr_cache, w') = Data.new {t = t} tiered fresh_ms stale_ms cell w in
      (record { namespace = namespace; swr_cache = swr_cache }, w')

  unfoldable pub with_optional_stores :
      String
      → List (Option (Store J W))
      → ℤ
      → ℤ
      → Cell W (Dict (Slot (Serde.Val J t)))
      → W
      → Cache J W t × W
  with_optional_stores namespace stores fresh_ms stale_ms cell w =
      let tiered = Tiered.tiered_store P (Tiered.new stores) in
      let (swr_cache, w') = Data.new {t = t} tiered fresh_ms stale_ms cell w in
      (record { namespace = namespace; swr_cache = swr_cache }, w')

  unfoldable pub get : Cache J W t → String → Async W (Result CacheError (Option (Serde.Val J t)))
  get c key = Direct.get P c.swr_cache c.namespace key

  unfoldable pub set : Cache J W t → String → Serde.Val J t → Async W (Result CacheError (Unit {0}))
  set c key value = Direct.set P c.swr_cache c.namespace key value none

  unfoldable pub set_with_options :
      Cache J W t → String → Serde.Val J t → ℤ → ℤ → Async W (Result CacheError (Unit {0}))
  set_with_options c key value fresh_ms stale_ms =
      Direct.set P c.swr_cache c.namespace key value
        (some (record { fresh_ms = fresh_ms; stale_ms = stale_ms }))

  unfoldable pub remove : Cache J W t → String → Async W (Result CacheError (Unit {0}))
  remove c key = Direct.remove_key c.swr_cache c.namespace key

  unfoldable pub swr :
      Cache J W t → String → Origin J W t → Async W (Result CacheError (Option (Serde.Val J t)))
  swr c key load_from_origin = Swr.swr P c.swr_cache c.namespace key load_from_origin
