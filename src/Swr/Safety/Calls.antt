-- ===== src/Swr/Safety/Calls.antt =====
-- Writes, loads, revalidations and `swr` under any interleaving (src/swr.rs).
use swr_cache.Base.{
  ℕ, ◌≡◌, refl, Bool, true, false, Option, none, some, String, [], ◌∷◌, Result, ok, err,
}
use swr_cache.Base.Int.{ℤ}
use swr_cache.Base.Dict.{Dict, contains_key}
use swr_cache.Base.Cell.{Guards}
use swr_cache.Base.Async.{◌>>◌, ret}
use swr_cache.Base.Async.Safe.{
  Ensures, returns, steps, forks, Ensures-if, Ensures-bind, Keeps-task_of,
}
use swr_cache.Platform.{Serde, RoundTrips, Platform}
use swr_cache.Utils.{build_cache_key}
use swr_cache.Error.{CacheError}
use swr_cache.Entry.{StoredEntry}
use swr_cache.Entry.Carries.{Carries}
use swr_cache.Store.Safety.{IsSafeStore}
use swr_cache.Swr.Data.{SwrCache, SetOptions, Origin, GetResult, entry_for}
use swr_cache.Swr.Direct.{set, write_entry, remove_key, store_entry, cache_value}
use swr_cache.Swr.{
  revalidation, store_loaded, spawn_revalidation, retry, load_marked, load_unless,
  deduplicated_load_from_origin, or_expired, cache_loaded, answer, answer_result, swr,
}
use swr_cache.Swr.Safety.Values.{
  RightOption, RightAnswer, RightGet, entry_for-Carries, retried-RightOption,
}
use swr_cache.Swr.Safety.Reads.{Ensures-get_internal}

module _ {J : Serde} {W : Type 0} (P : Platform W) {t : Serde.TypeId J} (c : SwrCache J W t)
    (Inv : W → Type 0) (Right : String → Serde.Val J t → Type 0)
    (store : IsSafeStore c.store Inv (λ k. Carries t (Right k)))
    (marks : Guards Inv c.revalidating (λ _. Unit {0}))
    (sleeps : (n : ℕ) → Ensures Inv (λ _. Unit {0}) (Platform.sleep P n)) (r : RoundTrips J)
    (namespace key : String) where
  -- The values that are right for the key.
  abbrev RightHere : Serde.Val J t → Type 0
  RightHere = Right (build_cache_key namespace key)

  -- A write of a right value keeps the invariant, segment by segment.
  Ensures-write_entry :
      (e : Result String (StoredEntry J))
      → ((x : StoredEntry J) → e ≡ ok x → Carries t RightHere x)
      → Ensures Inv (λ _. Unit {0}) (write_entry c namespace key e)
  Ensures-write_entry (ok e) h = store.writes namespace key e (h e refl)
  Ensures-write_entry (err x) h = returns tt

  Ensures-store_entry :
      (e : Result String (StoredEntry J))
      → ((x : StoredEntry J) → e ≡ ok x → Carries t RightHere x)
      → Ensures Inv (λ _. Unit {0}) (store_entry c namespace key e)
  unfolding store_entry
  Ensures-store_entry (ok e) h =
      Ensures-bind (store.writes namespace key e (h e refl)) (λ _ _. returns tt)
  Ensures-store_entry (err x) h = returns tt

  made-Carries :
      (v : Serde.Val J t) (fresh stale : ℤ)
      → RightHere v
      → (x : StoredEntry J) → entry_for t c.store.storage_mode v fresh stale ≡ ok x
      → Carries t RightHere x
  made-Carries v fresh stale h x =
      entry_for-Carries t RightHere c.store.storage_mode v fresh stale x r h

  pub Ensures-set :
      (v : Serde.Val J t) (opts : Option SetOptions)
      → RightHere v
      → Ensures Inv (λ _. Unit {0}) (set P c namespace key v opts)
  unfolding set
  Ensures-set v opts h = steps (λ w i. i) (λ w _. Ensures-write_entry _ (made-Carries v _ _ h))

  pub Ensures-remove_key : Ensures Inv (λ _. Unit {0}) (remove_key c namespace key)
  unfolding remove_key
  Ensures-remove_key = store.removes namespace (key ∷ [])

  Ensures-cache_value :
      (v : Serde.Val J t)
      → RightHere v
      → Ensures Inv (λ _. Unit {0}) (cache_value P c namespace key v)
  unfolding cache_value
  Ensures-cache_value v h =
      steps (λ w i. i)
        (λ w _. forks (Keeps-task_of (Ensures-store_entry _ (made-Carries v _ _ h))) (returns tt))

  -- A value that is answered and written in the background.
  cached :
      (v : Serde.Val J t)
      → RightHere v
      → Ensures Inv
          (RightAnswer RightHere {E = CacheError})
          (cache_value P c namespace key v >> ret (ok (some v)))
  cached v h = Ensures-bind (Ensures-cache_value v h) (λ _ _. returns h)

  module _ (load : Origin J W t) (loads : Ensures Inv (RightOption RightHere) (load key)) where
    marked_world : (m : Dict _) (w : W) → Inv w → Inv (c.revalidating.write m w)
    marked_world m w i = marks.admits m w i tt

    Ensures-store_loaded :
        (o : Option (Serde.Val J t))
        → RightOption RightHere o
        → Ensures Inv (λ _. Unit {0}) (store_loaded P c namespace key o)
    unfolding store_loaded
    Ensures-store_loaded none h = returns tt
    Ensures-store_loaded (some v) h =
        steps (λ w i. i) (λ w _. Ensures-store_entry _ (made-Carries v _ _ h))

    -- The background revalidation.
    pub Ensures-revalidation : Ensures Inv (λ _. Unit {0}) (revalidation P c namespace key load)
    unfolding revalidation
    Ensures-revalidation =
        steps (λ w i. i)
          (λ w _.
            Ensures-if (contains_key (build_cache_key namespace key) (c.revalidating.read w))
              (λ _. returns tt)
              (λ _.
                steps (λ w' i. marked_world _ w' i)
                  (λ _ _. Ensures-bind loads (λ o h.
                    Ensures-bind (Ensures-store_loaded o h)
                      (λ _ _. steps (λ w' i. marked_world _ w' i) (λ _ _. returns tt))))))

    Ensures-retry : Ensures Inv (RightOption RightHere) (retry P c namespace key)
    unfolding retry
    Ensures-retry = Ensures-bind (sleeps 100) (λ _ _.
        Ensures-bind (store.reads namespace key)
          (λ found h. returns (retried-RightOption t RightHere found h)))

    Ensures-load_unless :
        (o : Option (Serde.Val J t))
        → RightOption RightHere o
        → Ensures Inv (RightAnswer RightHere) (load_unless P c namespace key load o)
    unfolding load_marked
    Ensures-load_unless (some v) h = returns h
    Ensures-load_unless none h =
        steps (λ w i. marked_world _ w i)
          (λ _ _.
            Ensures-bind loads (λ o h'. steps (λ w i. marked_world _ w i) (λ _ _. returns h')))

    Ensures-load :
        Ensures Inv (RightAnswer RightHere) (deduplicated_load_from_origin P c namespace key load)
    unfolding deduplicated_load_from_origin
    Ensures-load =
        steps (λ w i. i)
          (λ w _.
            Ensures-bind
              (Ensures-if (contains_key (build_cache_key namespace key) (c.revalidating.read w))
                (λ _. Ensures-retry) (λ _. returns tt))
              Ensures-load_unless)

    Ensures-or_expired :
        (old : Serde.Val J t) (o : Result String (Option (Serde.Val J t)))
        → RightHere old
        → RightAnswer RightHere o
        → Ensures Inv (RightAnswer RightHere) (or_expired P c namespace key old o)
    unfolding or_expired
    Ensures-or_expired old (ok (some v)) h h' = cached v h'
    Ensures-or_expired old (ok none) h h' = returns h
    Ensures-or_expired old (err x) h h' = elim h' [ ]

    Ensures-cache_loaded :
        (o : Result String (Option (Serde.Val J t)))
        → RightAnswer RightHere o
        → Ensures Inv (RightAnswer RightHere) (cache_loaded P c namespace key o)
    unfolding cache_loaded
    Ensures-cache_loaded (ok (some v)) h = cached v h
    Ensures-cache_loaded (ok none) h = returns tt
    Ensures-cache_loaded (err x) h = elim h [ ]

    Ensures-answer :
        (o : Option (Serde.Val J t)) (revalidate is_expired : Bool)
        → RightOption RightHere o
        → Ensures Inv
            (RightAnswer RightHere)
            (answer P c namespace key load o revalidate is_expired)
    unfolding answer spawn_revalidation
    Ensures-answer (some v) true false h = forks (Keeps-task_of Ensures-revalidation) (returns h)
    Ensures-answer (some v) true true h =
        Ensures-bind Ensures-load (λ o h'. Ensures-or_expired v o h h')
    Ensures-answer (some v) false false h = returns h
    Ensures-answer (some v) false true h = Ensures-bind Ensures-load Ensures-cache_loaded
    Ensures-answer none revalidate is_expired h = Ensures-bind Ensures-load Ensures-cache_loaded

    Ensures-answer_result :
        (o : Result CacheError (GetResult (Serde.Val J t)))
        → RightGet RightHere o
        → Ensures Inv (RightAnswer RightHere) (answer_result P c namespace key load o)
    Ensures-answer_result (ok g) h = Ensures-answer g.value g.revalidate g.is_expired h
    Ensures-answer_result (err x) h = Ensures-answer none false false tt

    -- `swr` keeps the invariant segment by segment, and so do the tasks that it spawns; it ends in
    -- no error, and a value that it gives is right for its key.
    pub Ensures-swr : Ensures Inv (RightAnswer RightHere) (swr P c namespace key load)
    unfolding swr
    Ensures-swr =
        Ensures-bind (Ensures-get_internal P c Inv Right store marks sleeps r namespace key)
          Ensures-answer_result
