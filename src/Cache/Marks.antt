-- ===== src/Cache/Marks.antt =====
-- The marks of a cache that Cache::new makes, when all calls have ended (src/cache.rs).
use swr_cache.Base.{
  ℕ, ◌≡◌, refl, ap, sym, subst, false, Option, String, List, [], ◌∷◌, map, Result, All,
}
use swr_cache.Base.Int.{ℤ}
use swr_cache.Base.Dict.{Dict, IsMap, contains_key}
use swr_cache.Base.Cell.{Cell, IsCell}
use swr_cache.Base.Async.{Task, finished, ret, task_of}
use swr_cache.Base.Async.Interleave.{Reach}
use swr_cache.Base.Async.Guarantee.{Guarantees}
use swr_cache.Platform.{Serde, Platform, JoinsAll}
use swr_cache.Utils.{build_cache_key}
use swr_cache.Error.{CacheError}
use swr_cache.Store.{Store}
use swr_cache.Store.Guarantee.{StoreGuarantees}
use swr_cache.Tiered.{from_stores}
use swr_cache.Tiered.Guarantee.{tiered_store-StoreGuarantees}
use swr_cache.Swr.Data
use swr_cache.Swr.Data.{Slot, Origin}
use swr_cache.Swr.Marks.Released.{Request, clients, IsApart, marks_released}
use swr_cache.Cache.{Cache, new, swr}

-- A call of `Cache::swr`: key and origin.
pub record Load (J : Serde) (W : Type 0) (t : Serde.TypeId J) : Type 0 where
  pub key : String
  pub origin : Origin J W t

module _ {J : Serde} {W : Type 0} (P : Platform W) {t : Serde.TypeId J} (c : Cache J W t) where
  abbrev pub loads : List (Load J W t) → List (Task W)
  loads calls = map (λ (q : Load J W t). task_of (swr P c q.key q.origin)) calls

  abbrev request : Load J W t → Request J W t
  request q = record { namespace = c.namespace; key = q.key; load = q.origin }

  loads-clients :
      (calls : List (Load J W t)) → clients P c.swr_cache (map request calls) ≡ loads calls
  unfolding swr
  loads-clients [] = refl
  loads-clients (q ∷ calls) = ap (◌∷◌ (task_of (swr P c q.key q.origin))) (loads-clients calls)

module _ {W S : Type 0} (cell : Cell W S) where
  -- The memory stays as it is.
  abbrev pub Same : W → W → Type 0
  Same w w' = cell.read w' ≡ cell.read w

module _ {J : Serde} {W : Type 0} (P : Platform W) {t : Serde.TypeId J} (joins : JoinsAll P)
    (namespace : String) (stores : List (Store J W)) (fresh_ms stale_ms : ℤ)
    (cell : Cell W (Dict (Slot (Serde.Val J t)))) (w0 : W) where
  abbrev made : Cache J W t
  made = (new P namespace stores fresh_ms stale_ms cell w0).0

  All-IsApart :
      (calls : List (Load J W t))
      → All (λ q. Guarantees (Same cell) (q.origin q.key)) calls
      → All (IsApart P made.swr_cache) (map (request P made) calls)
  unfolding new Data.new
  All-IsApart [] h = tt
  All-IsApart (q ∷ calls) h = (h.0, All-IsApart calls h.1)

  -- Any number of calls of `Cache::swr` on a cache over any number of stores, with any keys and
  -- origins, in any order of their segments and of those of the tasks that they spawn: when all of
  -- them have ended, no key of the cache is marked that was not marked before. The stores, the sleeps
  -- and the origins do not write to the map of revalidations.
  pub cache_marks_released :
      (seen : String) (call : Load J W t) (others : List (Load J W t)) (w w' : W)
      (answer : Result CacheError (Option (Serde.Val J t))) (ts : List (Task W))
      → IsCell cell
      → All (λ S. StoreGuarantees S (Same cell)) stores
      → ((n : ℕ) → Guarantees (Same cell) (Platform.sleep P n))
      → Guarantees (Same cell) (call.origin call.key)
      → All (λ q. Guarantees (Same cell) (q.origin q.key)) others
      → IsMap (cell.read w)
      → contains_key (build_cache_key namespace seen) (cell.read w) ≡ false
      → Reach
          (record {
            call = swr P made call.key call.origin;
            tasks = loads P made others;
            world = w;
          })
          (record { call = ret answer; tasks = ts; world = w' })
      → All (λ task. task ≡ finished) ts
      → contains_key (build_cache_key namespace seen) (cell.read w') ≡ false
  unfolding new swr Data.new from_stores
  cache_marks_released seen call others w w' answer ts is_cell guarantee sleeps apart all_apart i
        free reach done =
      marks_released P made.swr_cache is_cell
        (tiered_store-StoreGuarantees P (from_stores stores) (Same cell) joins guarantee) sleeps
        namespace seen (request P made call) (map (request P made) others) w w' answer ts apart
        (All-IsApart others all_apart) i free
        (subst
          (λ tasks.
            Reach (record { call = swr P made call.key call.origin; tasks = tasks; world = w })
              (record { call = ret answer; tasks = ts; world = w' }))
          (sym (loads-clients P made others)) reach)
        done
