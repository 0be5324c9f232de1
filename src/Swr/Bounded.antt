-- ===== src/Swr/Bounded.antt =====
-- How many segments a call of `swr` takes (src/swr.rs).
use swr_cache.Base.{
  ℕ, suc, ◌+◌, ◌*◌, Bool, true, false, Option, none, some, String, List, Result, ok, err, arith,
}
use swr_cache.Base.Dict.{contains_key}
use swr_cache.Base.Async.{Task, ret, ◌>>◌}
use swr_cache.Base.Async.Interleave.{Config, Reach}
use swr_cache.Base.Async.Within.{
  Within, ends, takes, spawned, Within-le, Within-if, Within-bind, IsLeft, Reach-IsLeft,
}
use swr_cache.Platform.{Serde, Platform}
use swr_cache.Utils.{build_cache_key}
use swr_cache.Error.{CacheError}
use swr_cache.Entry.{Entry, StoredEntry, into_typed}
use swr_cache.Swr.Data.{SwrCache, Origin, GetResult, SetOptions}
use swr_cache.Swr.Direct.{
  stored_result, typed_result, get_internal, write_entry, get, set, cache_value,
}
use swr_cache.Swr.{
  spawn_revalidation, retry, load_marked, load_unless, deduplicated_load_from_origin, or_expired,
  cache_loaded, answer, answer_result, swr,
}

module _ {J : Serde} {W : Type 0} (P : Platform W) {t : Serde.TypeId J} (c : SwrCache J W t)
    (namespace key : String) (reading : ℕ)
    (reads : Within reading (c.store.get namespace key)) where
  Within-typed_result :
      (r : Result CacheError (Entry (Serde.Val J t))) → Within 1 (typed_result P r)
  Within-typed_result (ok e) = takes (λ w. ends)
  Within-typed_result (err x) = ends

  Within-found :
      (r : Result CacheError (Option (StoredEntry J)))
      → Within 1 (elim r [ ok o ↦ stored_result P {t = t} o | err x ↦ ret (err x) ])
  Within-found (ok (some e)) = Within-typed_result (into_typed t e)
  Within-found (ok none) = ends
  Within-found (err x) = ends

  Within-get_internal : Within (reading + 1) (get_internal P c namespace key)
  unfolding get_internal
  Within-get_internal = Within-bind reads Within-found

  Within-value :
      (r : Result CacheError (GetResult (Serde.Val J t)))
      → Within {W = W} {A = Result CacheError (Option (Serde.Val J t))} 0
          (elim r [ ok found ↦ ret (ok found.value) | err x ↦ ret (err x) ])
  Within-value (ok found) = ends
  Within-value (err x) = ends

  Within-get : Within (reading + 1) (get P c namespace key)
  unfolding get
  Within-get = Within-le (omega arith) (Within-bind Within-get_internal Within-value)

  module _ (writing : ℕ)
      (writes : (e : StoredEntry J) → Within writing (c.store.set namespace key e)) where
    Within-write_entry :
        (r : Result String (StoredEntry J)) → Within writing (write_entry c namespace key r)
    Within-write_entry (ok e) = writes e
    Within-write_entry (err x) = ends

    -- A write and then a read of its key.
    pub Within-set_get :
        (v : Serde.Val J t) (opts : Option SetOptions)
        → Within (writing + reading + 2) (set P c namespace key v opts >> get P c namespace key)
    unfolding set
    Within-set_get v opts =
        Within-le {n = suc (writing + (reading + 1))} (omega arith)
          (takes (λ w. Within-bind (Within-write_entry _) (λ r. Within-get)))

  module _ (load : Origin J W t) (sleeping loading : ℕ)
      (sleeps : (n : ℕ) → Within sleeping (Platform.sleep P n))
      (loads : Within loading (load key)) where
    Within-retry : Within (sleeping + reading) (retry P c namespace key)
    unfolding retry
    Within-retry =
        Within-bind (sleeps 100)
          (λ _. Within-le (omega arith) (Within-bind reads (λ found. ends {n = 0})))

    Within-load_unless :
        (o : Option (Serde.Val J t)) → Within (loading + 2) (load_unless P c namespace key load o)
    unfolding load_marked
    Within-load_unless (some v) = ends
    Within-load_unless none =
        Within-le (omega arith) (takes (λ _. Within-bind loads (λ o. takes {n = 0} (λ _. ends))))

    Within-load :
        Within
          (sleeping + reading + loading + 3)
          (deduplicated_load_from_origin P c namespace key load)
    unfolding deduplicated_load_from_origin
    Within-load = Within-le (omega arith) (
        takes (λ w.
          Within-bind
            (Within-if (contains_key (build_cache_key namespace key) (c.revalidating.read w))
              Within-retry ends)
            Within-load_unless))

    Within-cached :
        {A : Type 0} (v : Serde.Val J t) (a : A)
        → Within 2 (cache_value P c namespace key v >> ret a)
    unfolding cache_value
    Within-cached v a = takes (λ w. spawned ends)

    Within-or_expired :
        (old : Serde.Val J t) (r : Result String (Option (Serde.Val J t)))
        → Within 2 (or_expired P c namespace key old r)
    unfolding or_expired
    Within-or_expired old (ok (some v)) = Within-cached v _
    Within-or_expired old (ok none) = ends
    Within-or_expired old (err x) = ends

    Within-cache_loaded :
        (r : Result String (Option (Serde.Val J t))) → Within 2 (cache_loaded P c namespace key r)
    unfolding cache_loaded
    Within-cache_loaded (ok (some v)) = Within-cached v _
    Within-cache_loaded (ok none) = ends
    Within-cache_loaded (err x) = ends

    Within-answer :
        (o : Option (Serde.Val J t)) (revalidate is_expired : Bool)
        → Within
            (sleeping + reading + loading + 5)
            (answer P c namespace key load o revalidate is_expired)
    unfolding answer spawn_revalidation
    Within-answer (some v) true false = Within-le {n = 1} (omega arith) (spawned ends)
    Within-answer (some v) true true =
        Within-le (omega arith) (Within-bind Within-load (Within-or_expired v))
    Within-answer (some v) false false = ends
    Within-answer (some v) false true =
        Within-le (omega arith) (Within-bind Within-load Within-cache_loaded)
    Within-answer none revalidate is_expired =
        Within-le (omega arith) (Within-bind Within-load Within-cache_loaded)

    Within-answer_result :
        (r : Result CacheError (GetResult (Serde.Val J t)))
        → Within (sleeping + reading + loading + 5) (answer_result P c namespace key load r)
    Within-answer_result (ok g) = Within-answer g.value g.revalidate g.is_expired
    Within-answer_result (err x) = Within-answer none false false

    pub Within-swr : Within (2 * reading + sleeping + loading + 6) (swr P c namespace key load)
    unfolding swr
    Within-swr = Within-le (omega arith) (Within-bind Within-get_internal Within-answer_result)

    -- Whatever tasks run beside a call of `swr`, and in any order of their segments, at every moment
    -- the call has at most as many segments to go as are left of `2 * reading + sleeping + loading +
    -- 6`: a mark of another load or a revalidation makes it sleep no more than once. The bound is in
    -- those of the store's `get`, of the timer and of the origin.
    pub swr_bounded :
        (tasks : List (Task W)) (w : W)
        (now : Config W (Result CacheError (Option (Serde.Val J t))))
        (r : Reach (record { call = swr P c namespace key load; tasks = tasks; world = w }) now)
        → IsLeft (2 * reading + sleeping + loading + 6) r
    swr_bounded tasks w now r = Reach-IsLeft Within-swr r
