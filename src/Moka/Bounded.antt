-- ===== src/Moka/Bounded.antt =====
-- How many segments a read of a MokaStore takes (src/stores/moka.rs).
use swr_cache.Base.{Option, none, some, String}
use swr_cache.Base.Async.Within.{Within, ends, takes, Within-if}
use swr_cache.Platform.{Serde, Platform}
use swr_cache.Utils.{now_ms}
use swr_cache.Entry.{StoredEntry, is_expired}
use swr_cache.Moka.{MokaCrate, MokaStore, serve, get}

module _ {J : Serde} {W : Type 0} (P : Platform W) {M : MokaCrate J W} (s : MokaStore M) where
  Within-serve :
      (cache_key : String) (found : Option (StoredEntry J)) → Within 2 (serve M P s cache_key found)
  unfolding serve
  Within-serve cache_key none = ends
  Within-serve cache_key (some entry) =
      takes (λ w. Within-if (is_expired entry (now_ms P w)) (takes (λ _. ends)) ends)

  pub get-Within : (namespace key : String) → Within 3 (get M P s namespace key)
  unfolding get
  get-Within namespace key = takes (λ w. Within-serve _ _)
