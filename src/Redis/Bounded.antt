-- ===== src/Redis/Bounded.antt =====
-- How many segments a read and a write of a RedisStore take (src/stores/redis.rs).
use swr_cache.Base.{Option, none, some, String, Result, ok, err, ◌⧺◌}
use swr_cache.Base.Int.{ℤ, leb_ℤ}
use swr_cache.Base.Async.{ret}
use swr_cache.Base.Async.Within.{Within, ends, takes, spawned, Within-if}
use swr_cache.Platform.{Serde, Platform}
use swr_cache.Utils.{now_ms}
use swr_cache.Error.{operation}
use swr_cache.Entry.{StoredEntry, typed, serialized}
use swr_cache.Redis.{RedisCrate, RedisStore, serve_parsed, serve, get, set}

module _ {J : Serde} {W : Type 0} (P : Platform W) {R : RedisCrate W} (s : RedisStore R) where
  Within-serve_parsed :
      (cache_key json : String) (times : ℤ × ℤ)
      → Within 2 (serve_parsed {J = J} P R s cache_key json times)
  unfolding serve_parsed
  Within-serve_parsed cache_key json (fresh_until, stale_until) = takes (λ w.
      Within-if (leb_ℤ stale_until (now_ms P w))
        (Within-if s.disable_expiration ends (spawned ends)) ends)

  after_parse :
      (key cache_key json : String) (r : Result String (ℤ × ℤ))
      → Within 2 (elim r [
        | err e ↦ ret (err (operation "redis" key ("Metadata parse failed: " ⧺ e)))
        | ok metadata ↦ serve_parsed {J = J} P R s cache_key json metadata
      ])
  after_parse key cache_key json (ok times) = Within-serve_parsed cache_key json times
  after_parse key cache_key json (err e) = ends

  Within-serve :
      (key cache_key : String) (found : Option String)
      → Within 2 (serve {J = J} P R s key cache_key found)
  unfolding serve
  Within-serve key cache_key none = ends
  Within-serve key cache_key (some json) =
      after_parse key cache_key json (Serde.metadata_from_str J json)

  after_get :
      (key cache_key : String) (found : Result String (Option String))
      → Within 2 (elim found [
        | err e ↦ ret (err (operation "redis" key ("GET failed: " ⧺ e)))
        | ok result ↦ serve {J = J} P R s key cache_key result
      ])
  after_get key cache_key (ok result) = Within-serve key cache_key result
  after_get key cache_key (err e) = ends

  -- The request, the clock, and the spawn of the removal; the removal itself is not waited for.
  pub get-Within : (namespace key : String) → Within 3 (get {J = J} P R s namespace key)
  unfolding get
  get-Within namespace key = takes (λ w. after_get _ _ _)

  -- The clock, and one command.
  pub set-Within :
      (namespace key : String) (e : StoredEntry J) → Within 2 (set P R s namespace key e)
  unfolding set
  set-Within namespace key (typed value fresh stale serializer) = ends
  set-Within namespace key (serialized json fresh stale) =
      Within-if s.disable_expiration (takes (λ _. ends)) (takes (λ _. takes (λ _. ends)))
