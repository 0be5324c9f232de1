-- ===== src/Swr/Guarantee.antt =====
-- What the segments of a SwrCache's calls do to the world: what its store does, and writes of marks
-- (src/swr.rs).
use swr_cache.Base.{ℕ, Bool, true, false, Option, none, some, String, Result, ok, err}
use swr_cache.Base.Dict.{Dict, contains_key}
use swr_cache.Base.Async.{ret, ◌>>◌}
use swr_cache.Base.Async.Guarantee.{
  Guarantees, returns, steps, forks, Guarantees-if, Guarantees-bind, TaskGuarantees-task_of,
}
use swr_cache.Platform.{Serde, Platform}
use swr_cache.Utils.{build_cache_key}
use swr_cache.Error.{CacheError}
use swr_cache.Entry.{Entry, StoredEntry, into_typed}
use swr_cache.Swr.Data.{Slot, SwrCache, SetOptions, Origin, GetResult}
use swr_cache.Swr.Direct.{
  stored_result, typed_result, get_internal, get, set, write_entry, store_entry, cache_value,
}
use swr_cache.Swr.{
  store_loaded, revalidation, spawn_revalidation, retry, load_marked, load_unless,
  deduplicated_load_from_origin, or_expired, cache_loaded, answer, answer_result, swr,
}

module _ {J : Serde} {W : Type 0} (P : Platform W) {t : Serde.TypeId J} (c : SwrCache J W t)
    (R : W → W → Type 0) (same : (w : W) → R w w) (namespace key : String)
    (gets : Guarantees R (c.store.get namespace key))
    (sets : (e : StoredEntry J) → Guarantees R (c.store.set namespace key e)) where
  Guarantees-typed_result :
      (r : Result CacheError (Entry (Serde.Val J t))) → Guarantees R (typed_result P r)
  Guarantees-typed_result (ok e) = steps same (λ w. returns)
  Guarantees-typed_result (err x) = returns

  Guarantees-found :
      (r : Result CacheError (Option (StoredEntry J)))
      → Guarantees R (elim r [ ok o ↦ stored_result P {t = t} o | err x ↦ ret (err x) ])
  Guarantees-found (ok (some e)) = Guarantees-typed_result (into_typed t e)
  Guarantees-found (ok none) = returns
  Guarantees-found (err x) = returns

  pub Guarantees-get_internal : Guarantees R (get_internal P c namespace key)
  unfolding get_internal
  Guarantees-get_internal = Guarantees-bind gets Guarantees-found

  after_get :
      (r : Result CacheError (GetResult (Serde.Val J t)))
      → Guarantees R {A = Result CacheError (Option (Serde.Val J t))}
          (elim r [ ok o ↦ ret (ok o.value) | err x ↦ ret (err x) ])
  after_get (ok o) = returns
  after_get (err x) = returns

  pub Guarantees-get : Guarantees R (get P c namespace key)
  unfolding get
  Guarantees-get = Guarantees-bind Guarantees-get_internal after_get

  Guarantees-write_entry :
      (r : Result String (StoredEntry J)) → Guarantees R (write_entry c namespace key r)
  Guarantees-write_entry (ok e) = sets e
  Guarantees-write_entry (err x) = returns

  pub Guarantees-set :
      (v : Serde.Val J t) (opts : Option SetOptions) → Guarantees R (set P c namespace key v opts)
  unfolding set
  Guarantees-set v opts = steps same (λ w. Guarantees-write_entry _)

  Guarantees-store_entry :
      (r : Result String (StoredEntry J)) → Guarantees R (store_entry c namespace key r)
  unfolding store_entry
  Guarantees-store_entry (ok e) = Guarantees-bind (sets e) (λ _. returns)
  Guarantees-store_entry (err x) = returns

  pub Guarantees-store_loaded :
      (o : Option (Serde.Val J t)) → Guarantees R (store_loaded P c namespace key o)
  unfolding store_loaded
  Guarantees-store_loaded none = returns
  Guarantees-store_loaded (some v) = steps same (λ w. Guarantees-store_entry _)

  Guarantees-cached :
      {A : Type 0} (v : Serde.Val J t) (a : A)
      → Guarantees R (cache_value P c namespace key v >> ret a)
  unfolding cache_value
  Guarantees-cached v a =
      steps same (λ w. forks (TaskGuarantees-task_of (Guarantees-store_entry _)) returns)

  pub Guarantees-or_expired :
      (old : Serde.Val J t) (r : Result String (Option (Serde.Val J t)))
      → Guarantees R (or_expired P c namespace key old r)
  unfolding or_expired
  Guarantees-or_expired old (ok (some v)) = Guarantees-cached v _
  Guarantees-or_expired old (ok none) = returns
  Guarantees-or_expired old (err x) = returns

  pub Guarantees-cache_loaded :
      (r : Result String (Option (Serde.Val J t))) → Guarantees R (cache_loaded P c namespace key r)
  unfolding cache_loaded
  Guarantees-cache_loaded (ok (some v)) = Guarantees-cached v _
  Guarantees-cache_loaded (ok none) = returns
  Guarantees-cache_loaded (err x) = returns

  module _ (sleeps : (n : ℕ) → Guarantees R (Platform.sleep P n)) where
    pub Guarantees-retry : Guarantees R (retry P c namespace key)
    unfolding retry
    Guarantees-retry = Guarantees-bind (sleeps 100) (λ _. Guarantees-bind gets (λ _. returns))

    module _ (marks : (m : Dict (Slot (Serde.Val J t))) (w : W) → R w (c.revalidating.write m w))
        (load : Origin J W t) (loads : Guarantees R (load key)) where
      Guarantees-revalidation : Guarantees R (revalidation P c namespace key load)
      unfolding revalidation
      Guarantees-revalidation = steps same (λ w.
          Guarantees-if (contains_key (build_cache_key namespace key) (c.revalidating.read w))
            returns
            (steps (λ w'. marks _ w')
              (λ _. Guarantees-bind loads (λ o.
                Guarantees-bind (Guarantees-store_loaded o)
                  (λ _. steps (λ w'. marks _ w') (λ _. returns))))))

      Guarantees-load_unless :
          (o : Option (Serde.Val J t)) → Guarantees R (load_unless P c namespace key load o)
      unfolding load_marked
      Guarantees-load_unless (some v) = returns
      Guarantees-load_unless none =
          steps (λ w. marks _ w)
            (λ _. Guarantees-bind loads (λ o. steps (λ w. marks _ w) (λ _. returns)))

      Guarantees-load : Guarantees R (deduplicated_load_from_origin P c namespace key load)
      unfolding deduplicated_load_from_origin
      Guarantees-load = steps same (λ w.
          Guarantees-bind
            (Guarantees-if (contains_key (build_cache_key namespace key) (c.revalidating.read w))
              Guarantees-retry returns)
            Guarantees-load_unless)

      Guarantees-answer :
          (o : Option (Serde.Val J t)) (revalidate is_expired : Bool)
          → Guarantees R (answer P c namespace key load o revalidate is_expired)
      unfolding answer spawn_revalidation
      Guarantees-answer (some v) true false =
          forks (TaskGuarantees-task_of Guarantees-revalidation) returns
      Guarantees-answer (some v) true true =
          Guarantees-bind Guarantees-load (Guarantees-or_expired v)
      Guarantees-answer (some v) false false = returns
      Guarantees-answer (some v) false true =
          Guarantees-bind Guarantees-load Guarantees-cache_loaded
      Guarantees-answer none revalidate is_expired =
          Guarantees-bind Guarantees-load Guarantees-cache_loaded

      Guarantees-answer_result :
          (r : Result CacheError (GetResult (Serde.Val J t)))
          → Guarantees R (answer_result P c namespace key load r)
      Guarantees-answer_result (ok g) = Guarantees-answer g.value g.revalidate g.is_expired
      Guarantees-answer_result (err x) = Guarantees-answer none false false

      pub Guarantees-swr : Guarantees R (swr P c namespace key load)
      unfolding swr
      Guarantees-swr = Guarantees-bind Guarantees-get_internal Guarantees-answer_result
