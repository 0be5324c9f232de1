-- ===== src/Metrics/Bounded.antt =====
-- How many segments a read of a MetricsStore takes (src/stores/metrics.rs).
use swr_cache.Base.{ℕ, ◌+◌, String, arith}
use swr_cache.Base.Async.Within.{Within, ends, takes, Within-le, Within-bind}
use swr_cache.Platform.{Serde, Platform}
use swr_cache.Metrics.{MetricsStore, get}

module _ {J : Serde} {W : Type 0} {P : Platform W} (s : MetricsStore J P) where
  -- Four segments more than the inner store.
  pub get-Within :
      (namespace key : String) (n : ℕ)
      → Within n (s.inner.get namespace key)
      → Within (n + 4) (get s namespace key)
  unfolding get
  get-Within namespace key n h =
      Within-le (omega arith)
        (takes (λ _. Within-bind h (λ _. takes {n = 2} (λ _. takes (λ _. takes (λ _. ends))))))
