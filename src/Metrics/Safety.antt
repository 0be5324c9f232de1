-- ===== src/Metrics/Safety.antt =====
-- A MetricsStore under any interleaving (src/stores/metrics.rs).
use swr_cache.Base.{String, List}
use swr_cache.Base.Async.Safe.{Ensures, returns, steps, Ensures-bind}
use swr_cache.Platform.{Serde, Platform}
use swr_cache.Utils.{build_cache_key}
use swr_cache.Entry.{StoredEntry}
use swr_cache.Metrics.{CacheMetric, MetricsStore, get, set, remove, metrics_store}
use swr_cache.Store.Safety.{Found, IsSafeStore}

module _ {J : Serde} {W : Type 0} {P : Platform W} (s : MetricsStore J P) (Inv : W → Type 0)
    (Fits : String → StoredEntry J → Type 0)
    (emits : (m : CacheMetric (Platform.floats P)) (w : W) → Inv w → Inv (s.sink.emit m w))
    (inner : IsSafeStore s.inner Inv Fits) where
  Ensures-get :
      (namespace key : String)
      → Ensures Inv (Found (Fits (build_cache_key namespace key))) (get s namespace key)
  unfolding get
  Ensures-get namespace key =
      steps (λ w i. i)
        (λ _ _. Ensures-bind (inner.reads namespace key) (λ r h.
          steps (λ w i. i)
            (λ _ _. steps (λ w i. i) (λ _ _. steps (λ w i. emits _ w i) (λ _ _. returns h)))))

  Ensures-set :
      (namespace key : String) (e : StoredEntry J)
      → Fits (build_cache_key namespace key) e
      → Ensures Inv (λ _. Unit {0}) (set s namespace key e)
  unfolding set
  Ensures-set namespace key e fit =
      steps (λ w i. i)
        (λ _ _.
          Ensures-bind (inner.writes namespace key e fit)
            (λ r h. steps (λ w i. i) (λ _ _. steps (λ w i. emits _ w i) (λ _ _. returns h))))

  Ensures-remove :
      (namespace : String) (keys : List String)
      → Ensures Inv (λ _. Unit {0}) (remove s namespace keys)
  unfolding remove
  Ensures-remove namespace keys =
      steps (λ w i. i)
        (λ _ _.
          Ensures-bind (inner.removes namespace keys)
            (λ r h. steps (λ w i. i) (λ _ _. steps (λ w i. emits _ w i) (λ _ _. returns h))))

  -- A MetricsStore is as safe as the store inside it, if the sink does not write to the stores.
  pub metrics_store-IsSafeStore : IsSafeStore (metrics_store s) Inv Fits
  unfolding metrics_store
  metrics_store-IsSafeStore = record {
    reads = Ensures-get;
    writes = Ensures-set;
    removes = Ensures-remove;
  }
