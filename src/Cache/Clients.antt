-- ===== src/Cache/Clients.antt =====
-- Any number of caches over one store, each with its client (src/cache.rs).
use swr_cache.Base.{
  ℕ, ◌≡◌, refl, Option, none, some, String, List, [], ◌∷◌, map, Result, All, subst, sym,
}
use swr_cache.Base.Int.{ℤ}
use swr_cache.Base.Dict.{Dict}
use swr_cache.Base.Cell.{Cell}
use swr_cache.Base.Async.{Task, ret, task_of}
use swr_cache.Base.Async.Guarantee.{Guarantees, TaskGuarantees}
use swr_cache.Base.Async.Interleave.{Config, Reach}
use swr_cache.Platform.{JoinsAll, Serde, RoundTrips, Platform}
use swr_cache.Utils.{build_cache_key, now_ms}
use swr_cache.Error.{CacheError}
use swr_cache.Entry.{StoredEntry}
use swr_cache.Store.{Store}
use swr_cache.Store.Keyed.{Aside, IsKeyed}
use swr_cache.Tiered.{from_stores}
use swr_cache.Tiered.Keyed.{tiered_store-IsKeyed}
use swr_cache.Swr.Data.{Slot, Origin}
use swr_cache.Swr.Data
use swr_cache.Swr.Among.{IsBack, CanWrite, get-set_among}
use swr_cache.Swr.Among.Clients.{ClientCall, client, IsElsewhere, client-TaskGuarantees}
use swr_cache.Cache.{Cache, new, get, set, set_with_options, remove, swr}
use swr_cache.Cache.Contract.{made_cache, set_then_get}

-- One call of a client of a cache.
pub data CacheCall (J : Serde) (W : Type 0) (t : Serde.TypeId J) : Type 0 where
  gets : String → CacheCall J W t
  sets : String → Serde.Val J t → CacheCall J W t
  sets_for : String → Serde.Val J t → ℤ → ℤ → CacheCall J W t
  removes : String → CacheCall J W t
  loads : String → Origin J W t → CacheCall J W t

-- What a client's cache is made with, and the client's call.
pub record Client (J : Serde) (W : Type 0) : Type 0 where
  pub t : Serde.TypeId J
  pub namespace : String
  pub fresh_ms : ℤ
  pub stale_ms : ℤ
  pub cell : Cell W (Dict (Slot (Serde.Val J t)))
  pub call : CacheCall J W t

module _ {J : Serde} {W : Type 0} {t : Serde.TypeId J} where
  -- The call of the SwrCache inside.
  abbrev pub inner : String → CacheCall J W t → ClientCall J W t
  inner namespace (gets key) = ClientCall.gets namespace key
  inner namespace (sets key v) = ClientCall.sets namespace key v none
  inner namespace (sets_for key v fresh stale) =
      ClientCall.sets namespace key v (some (record { fresh_ms = fresh; stale_ms = stale }))
  inner namespace (removes key) = ClientCall.removes namespace key
  inner namespace (loads key load) = ClientCall.loads namespace key load

  abbrev pub call_task : Platform W → Cache J W t → CacheCall J W t → Task W
  call_task P c (gets key) = task_of (get P c key)
  call_task P c (sets key v) = task_of (set P c key v)
  call_task P c (sets_for key v fresh stale) = task_of (set_with_options P c key v fresh stale)
  call_task P c (removes key) = task_of (remove P c key)
  call_task P c (loads key load) = task_of (swr P c key load)

  call_task-inner :
      (P : Platform W) (c : Cache J W t) (q : CacheCall J W t)
      → call_task P c q ≡ client P c.swr_cache (inner c.namespace q)
  unfolding get set set_with_options remove swr
  call_task-inner P c (gets key) = refl
  call_task-inner P c (sets key v) = refl
  call_task-inner P c (sets_for key v fresh stale) = refl
  call_task-inner P c (removes key) = refl
  call_task-inner P c (loads key load) = refl

module _ {J : Serde} {W : Type 0} (P : Platform W) (S : Store J W) (w0 : W) where
  abbrev pub task : Client J W → Task W
  task q = call_task P (made_cache P S {t = q.t} q.namespace q.fresh_ms q.stale_ms q.cell w0) q.call

module _ {J : Serde} {W : Type 0} (P : Platform W) (joins : JoinsAll P) (S : Store J W) (w0 : W)
    (Inv : W → Type 0) (entry : W → String → Option (StoredEntry J)) (keyed : IsKeyed P Inv entry S)
    (r : RoundTrips J) where
  -- The client's call is on another composite key, and its marks leave this one aside.
  abbrev pub IsOther : String → Client J W → Type 0
  IsOther k q =
      IsElsewhere P Inv entry k (inner q.namespace q.call)
      × ((m : Dict (Slot (Serde.Val J q.t))) (w : W) → Aside P Inv entry k w (q.cell.write m w))

  module _ (k : String)
      (sleeps : (n : ℕ) → Guarantees (Aside P Inv entry k) (Platform.sleep P n)) where
    task-TaskGuarantees :
        (q : Client J W) → IsOther k q → TaskGuarantees (Aside P Inv entry k) (task P S w0 q)
    unfolding new Data.new from_stores
    task-TaskGuarantees q h =
        let c = made_cache P S {t = q.t} q.namespace q.fresh_ms q.stale_ms q.cell w0 in
        subst (TaskGuarantees (Aside P Inv entry k)) (sym (call_task-inner P c q.call)) (
          client-TaskGuarantees P Inv entry c.swr_cache
            (tiered_store-IsKeyed P joins S Inv entry keyed) k sleeps h.1 (inner q.namespace q.call)
            h.0)

    tasks-TaskGuarantees :
        (qs : List (Client J W))
        → All (IsOther k) qs
        → All (TaskGuarantees (Aside P Inv entry k)) (map (task P S w0) qs)
    tasks-TaskGuarantees [] h = tt
    tasks-TaskGuarantees (q ∷ qs) h = (task-TaskGuarantees q h.0, tasks-TaskGuarantees qs h.1)

  -- Any number of caches that Cache::new makes over one store, of any types of values, and a
  -- client of each that reads, writes, removes or loads another composite key, while a client of
  -- one more such cache writes a value that can be serialized and then reads its key; the
  -- segments of all of them, and of the tasks that they spawn, in any order. The read gives the
  -- value; or it gives nothing, and the value, written between the start and the end, has expired
  -- by the end. The store keeps the entries of different keys apart, and the marks, the sleeps
  -- and the origins of the others leave its memory and do not turn the clock back.
  pub get-set_caches :
      {t : Serde.TypeId J} (namespace key : String) (fresh_ms stale_ms : ℤ)
      (cell : Cell W (Dict (Slot (Serde.Val J t)))) (v : Serde.Val J t) (w : W)
      (others : List (Client J W)) (end : Config W (Result CacheError (Option (Serde.Val J t))))
      (answer : Result CacheError (Option (Serde.Val J t)))
      → ((n : ℕ)
          → Guarantees (Aside P Inv entry (build_cache_key namespace key)) (Platform.sleep P n))
      → All (IsOther (build_cache_key namespace key)) others
      → CanWrite P (made_cache P S {t = t} namespace fresh_ms stale_ms cell w0).swr_cache v
      → Inv w
      → Reach
          (record {
            call =
                set_then_get P (made_cache P S {t = t} namespace fresh_ms stale_ms cell w0) key v;
            tasks = map (task P S w0) others;
            world = w;
          })
          end
      → end.call ≡ ret answer
      → IsBack P
          (made_cache P S {t = t} namespace fresh_ms stale_ms cell w0).swr_cache
          v
          stale_ms
          (now_ms P w)
          answer
          end.world
  unfolding new set get Data.new from_stores
  get-set_caches namespace key fresh_ms stale_ms cell v w others end answer sleeps apart writes i
        reach done =
      let c = made_cache P S namespace fresh_ms stale_ms cell w0 in
      get-set_among P c.swr_cache Inv entry (tiered_store-IsKeyed P joins S Inv entry keyed) r
        namespace key v none w (map (task P S w0) others) end answer writes i
        (tasks-TaskGuarantees (build_cache_key namespace key) sleeps others apart) reach done
