-- ===== src/Redis/Guarantee.antt =====
-- A RedisStore writes to the world by its commands only (src/stores/redis.rs).
use swr_cache.Base.{ℕ, Option, none, some, String, List, [], ◌∷◌, Result, ok, err, ◌⧺◌}
use swr_cache.Base.Int.{ℤ, leb_ℤ}
use swr_cache.Base.Async.{ret}
use swr_cache.Base.Async.Guarantee.{
  Guarantees, returns, steps, forks, finishes, acts, Guarantees-if,
}
use swr_cache.Platform.{Serde, Platform}
use swr_cache.Utils.{now_ms}
use swr_cache.Error.{operation}
use swr_cache.Entry.{StoredEntry, typed, serialized}
use swr_cache.Store.Guarantee.{StoreGuarantees}
use swr_cache.Redis.{RedisCrate, RedisStore, serve_parsed, serve, get, set, remove, redis_store}

-- The commands to the server stay in the relation.
pub record RedisGuarantee {W : Type 0} (R : RedisCrate W) (G : W → W → Type 0) : Type 0 where
  pub gets :
      (c : RedisCrate.Connection R) (k : String) (w : W) → G w (RedisCrate.get_text R c k w).1
  pub sets :
      (c : RedisCrate.Connection R) (k text : String) (w : W)
      → G w (RedisCrate.set_text R c k text w).1
  pub sets_ex :
      (c : RedisCrate.Connection R) (k text : String) (ttl : ℕ) (w : W)
      → G w (RedisCrate.set_ex R c k text ttl w).1
  pub dels :
      (c : RedisCrate.Connection R) (ks : List String) (w : W) → G w (RedisCrate.del R c ks w).1

module _ {W : Type 0} {R : RedisCrate W} (s : RedisStore R) (G : W → W → Type 0)
    (redis : RedisGuarantee R G) where
  Guarantees-remove :
      (namespace : String) (keys : List String) → Guarantees G (remove R s namespace keys)
  unfolding remove
  Guarantees-remove namespace [] = returns
  Guarantees-remove namespace (key ∷ keys) = steps (λ w. redis.dels _ _ w) (λ _. returns)

module _ {J : Serde} {W : Type 0} (P : Platform W) {R : RedisCrate W} (s : RedisStore R)
    (G : W → W → Type 0) (same : (w : W) → G w w) (redis : RedisGuarantee R G) where
  Guarantees-serve_parsed :
      (cache_key json : String) (times : ℤ × ℤ)
      → Guarantees G (serve_parsed {J = J} P R s cache_key json times)
  unfolding serve_parsed
  Guarantees-serve_parsed cache_key json (fresh_until, stale_until) = steps same (λ w.
      Guarantees-if (leb_ℤ stale_until (now_ms P w))
        (Guarantees-if s.disable_expiration returns
          (forks (acts (λ w'. redis.dels _ _ w') (λ _. finishes)) returns))
        returns)

  after_parse :
      (key cache_key json : String) (r : Result String (ℤ × ℤ))
      → Guarantees G (elim r [
        | err e ↦ ret (err (operation "redis" key ("Metadata parse failed: " ⧺ e)))
        | ok metadata ↦ serve_parsed {J = J} P R s cache_key json metadata
      ])
  after_parse key cache_key json (ok times) = Guarantees-serve_parsed cache_key json times
  after_parse key cache_key json (err e) = returns

  after_get :
      (key cache_key : String) (r : Result String (Option String))
      → Guarantees G (elim r [
        | err e ↦ ret (err (operation "redis" key ("GET failed: " ⧺ e)))
        | ok result ↦ serve {J = J} P R s key cache_key result
      ])
  unfolding serve
  after_get key cache_key (ok none) = returns
  after_get key cache_key (ok (some json)) =
      after_parse key cache_key json (Serde.metadata_from_str J json)
  after_get key cache_key (err e) = returns

  Guarantees-set :
      (namespace key : String) (e : StoredEntry J) → Guarantees G (set P R s namespace key e)
  unfolding set
  Guarantees-set namespace key (typed value fresh stale serializer) = returns
  Guarantees-set namespace key (serialized json fresh stale) =
      Guarantees-if s.disable_expiration (steps (λ w. redis.sets _ _ _ w) (λ _. returns))
        (steps same (λ w. steps (λ w'. redis.sets_ex _ _ _ _ w') (λ _. returns)))

  -- What the commands guarantee the RedisStore does, the deletion in the background included.
  pub redis_store-StoreGuarantees : StoreGuarantees {J = J} (redis_store P R s) G
  unfolding redis_store get
  redis_store-StoreGuarantees = record {
    gets = λ namespace key. steps (λ w. redis.gets _ _ w) (λ w. after_get key _ _);
    sets = Guarantees-set;
    removes = Guarantees-remove s G redis;
  }
