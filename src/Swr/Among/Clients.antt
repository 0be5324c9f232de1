-- ===== src/Swr/Among/Clients.antt =====
-- Any number of other clients that call a SwrCache with other keys (src/swr.rs).
use swr_cache.Base.{ℕ, ◌≡◌, refl, false, Option, String, List, [], ◌∷◌, map, Result, All, str_eq}
use swr_cache.Base.Dict.{Dict}
use swr_cache.Base.Async.{Task, ret, task_of}
use swr_cache.Base.Async.Guarantee.{Guarantees, TaskGuarantees, TaskGuarantees-task_of}
use swr_cache.Base.Async.Interleave.{Config, Reach}
use swr_cache.Platform.{Serde, RoundTrips, Platform}
use swr_cache.Utils.{build_cache_key, now_ms}
use swr_cache.Error.{CacheError}
use swr_cache.Entry.{StoredEntry}
use swr_cache.Store.Keyed.{Aside, Aside-refl, IsKeyed}
use swr_cache.Swr.Data.{Slot, SwrCache, SetOptions, Origin, clone}
use swr_cache.Swr.Direct.{remove_key, get, set}
use swr_cache.Swr.{swr}
use swr_cache.Swr.Guarantee.{Guarantees-get, Guarantees-set, Guarantees-swr}
use swr_cache.Swr.Among.{set_then_get, life, IsBack, CanWrite, get-set_among}

-- One call of a client.
pub data ClientCall (J : Serde) (W : Type 0) (t : Serde.TypeId J) : Type 0 where
  gets : String → String → ClientCall J W t
  sets : String → String → Serde.Val J t → Option SetOptions → ClientCall J W t
  removes : String → String → ClientCall J W t
  loads : String → String → Origin J W t → ClientCall J W t

module _ {J : Serde} {W : Type 0} (P : Platform W) {t : Serde.TypeId J} (c : SwrCache J W t) where
  -- The client has a clone of the cache.
  abbrev pub client : ClientCall J W t → Task W
  client (gets namespace key) = task_of (get P (clone c) namespace key)
  client (sets namespace key v opts) = task_of (set P (clone c) namespace key v opts)
  client (removes namespace key) = task_of (remove_key (clone c) namespace key)
  client (loads namespace key load) = task_of (swr P (clone c) namespace key load)

module _ {J : Serde} {W : Type 0} (P : Platform W) (Inv : W → Type 0)
    (entry : W → String → Option (StoredEntry J)) {t : Serde.TypeId J} where
  -- The call is on another composite key, and its origin leaves this one aside.
  abbrev pub IsElsewhere : String → ClientCall J W t → Type 0
  IsElsewhere k (gets namespace key) = str_eq (build_cache_key namespace key) k ≡ false
  IsElsewhere k (sets namespace key v opts) = str_eq (build_cache_key namespace key) k ≡ false
  IsElsewhere k (removes namespace key) = str_eq (build_cache_key namespace key) k ≡ false
  IsElsewhere k (loads namespace key load) =
      (str_eq (build_cache_key namespace key) k ≡ false)
      × Guarantees (Aside P Inv entry k) (load key)

  module _ (c : SwrCache J W t) (keyed : IsKeyed P Inv entry c.store) (k : String)
      (sleeps : (n : ℕ) → Guarantees (Aside P Inv entry k) (Platform.sleep P n))
      (marks : (m : Dict (Slot (Serde.Val J t))) (w : W)
        → Aside P Inv entry k w (c.revalidating.write m w)) where
    pub client-TaskGuarantees :
        (q : ClientCall J W t)
        → IsElsewhere k q
        → TaskGuarantees (Aside P Inv entry k) (client P c q)
    unfolding remove_key
    client-TaskGuarantees (gets namespace key) h = TaskGuarantees-task_of (
        Guarantees-get P c (Aside P Inv entry k) (Aside-refl P Inv entry k) namespace key
          (keyed.gets_aside k namespace key h) (λ e. keyed.sets_aside k namespace key e h))
    client-TaskGuarantees (sets namespace key v opts) h = TaskGuarantees-task_of (
        Guarantees-set P c (Aside P Inv entry k) (Aside-refl P Inv entry k) namespace key
          (keyed.gets_aside k namespace key h) (λ e. keyed.sets_aside k namespace key e h) v opts)
    client-TaskGuarantees (removes namespace key) h =
        TaskGuarantees-task_of (keyed.removes_aside k namespace (key ∷ []) (rw h refl))
    client-TaskGuarantees (loads namespace key load) h = TaskGuarantees-task_of (
        Guarantees-swr P c (Aside P Inv entry k) (Aside-refl P Inv entry k) namespace key
          (keyed.gets_aside k namespace key h.0) (λ e. keyed.sets_aside k namespace key e h.0)
          sleeps marks load h.1)

    clients-TaskGuarantees :
        (qs : List (ClientCall J W t))
        → All (IsElsewhere k) qs
        → All (TaskGuarantees (Aside P Inv entry k)) (map (client P c) qs)
    clients-TaskGuarantees [] h = tt
    clients-TaskGuarantees (q ∷ qs) h = (client-TaskGuarantees q h.0, clients-TaskGuarantees qs h.1)

  -- Any number of clients read, write, remove and load other composite keys while one writes a
  -- value that can be serialized and then reads its key, in any order of the segments of all of
  -- them and of the tasks that they spawn. The read gives the value; or it gives nothing, and the
  -- value has expired by then. The store keeps the entries of different keys apart, and the
  -- marks, the sleeps and the origins of the others leave its memory and do not turn the clock
  -- back.
  pub get-set_clients :
      (c : SwrCache J W t) (keyed : IsKeyed P Inv entry c.store) (r : RoundTrips J)
      (namespace key : String) (v : Serde.Val J t) (opts : Option SetOptions) (w : W)
      (others : List (ClientCall J W t))
      (end : Config W (Result CacheError (Option (Serde.Val J t))))
      (answer : Result CacheError (Option (Serde.Val J t)))
      → ((n : ℕ)
          → Guarantees (Aside P Inv entry (build_cache_key namespace key)) (Platform.sleep P n))
      → ((m : Dict (Slot (Serde.Val J t))) (w' : W)
          → Aside P Inv entry (build_cache_key namespace key) w' (c.revalidating.write m w'))
      → All (IsElsewhere (build_cache_key namespace key)) others
      → CanWrite P c v
      → Inv w
      → Reach
          (record {
            call = set_then_get P c namespace key v opts;
            tasks = map (client P c) others;
            world = w;
          })
          end
      → end.call ≡ ret answer
      → IsBack P c v (life P c opts) (now_ms P w) answer end.world
  get-set_clients c keyed r namespace key v opts w others end answer sleeps marks elsewhere writes i
        reach done =
      get-set_among P c Inv entry keyed r namespace key v opts w (map (client P c) others) end
        answer writes i
        (clients-TaskGuarantees c keyed (build_cache_key namespace key) sleeps marks others
          elsewhere)
        reach done
