-- ===== src/Redis.antt =====
-- src/stores/redis.rs: RedisStore, a store over a connection of the `redis` crate.
pub mod Expiry
pub mod Safety
pub mod Bounded
pub mod Guarantee
use swr_cache.Base.{
  ℕ, Bool, Option, none, some, String, ◌⧺◌, List, [], ◌∷◌, map, Result, ok, err, map_err,
  if◌then◌else◌,
}
use swr_cache.Base.Int.{ℤ, pos, leb_ℤ, ◌-i64◌, quot_i64, max_i64, as_u64}
use swr_cache.Base.Async.{Async, ret, ◌>>=◌, ◌>>◌, gets, atomic, spawn}
use swr_cache.Platform.{Serde, Platform}
use swr_cache.Utils.{build_cache_key, now_ms}
use swr_cache.Error.{CacheError, operation, serialization}
use swr_cache.Entry.{StoredEntry, typed, serialized, serialized_mode}
use swr_cache.Store.{Store}

-- The `redis` crate: a client, its multiplexed connection, and the commands that the store sends.
-- Errors stand as the text that `Display` gives.
pub record RedisCrate (W : Type 0) : Type 1 where
  pub Client : Type 0
  pub open_client : String → Result String Client
  pub Connection : Type 0
  pub connect : Client → W → Result String Connection × W
  pub get_text : Connection → String → W → Result String (Option String) × W
  pub set_text : Connection → String → String → W → Result String (Unit {0}) × W
  pub set_ex : Connection → String → String → ℕ → W → Result String (Unit {0}) × W
  pub del : Connection → List String → W → Result String (Unit {0}) × W

pub record RedisStoreConfig : Type 0 where
  pub url : String
  pub disable_expiration : Bool

pub record RedisStore {W : Type 0} (R : RedisCrate W) : Type 0 where
  pub connection : RedisCrate.Connection R
  pub disable_expiration : Bool

-- `cache_keys.join(",")`
unfoldable pub join_keys : List String → String
join_keys [] = ""
join_keys (k ∷ []) = k
join_keys (k ∷ j ∷ ks) = k ⧺ "," ⧺ join_keys (j ∷ ks)

-- `.map_err(|e| CacheError::operation("redis", key, format!("… failed: {}", e)))`
abbrev pub failed : {A : Type 0} → String → String → Result String A → Result CacheError A
failed key what = map_err (λ e. operation "redis" key (what ⧺ e))

module _ {W : Type 0} (P : Platform W) where
  -- `calculate_ttl_seconds`, with the clock that it reads
  unfoldable pub calculate_ttl_seconds : ℤ → W → ℕ
  calculate_ttl_seconds stale_until w =
      let now = now_ms P w in
      if leb_ℤ stale_until now
      then 1
      else as_u64 (max_i64 (quot_i64 (stale_until -i64 now) 1000) (pos 1))

module _ {W : Type 0} (R : RedisCrate W) where
  abbrev connected :
      Bool → Result String (RedisCrate.Connection R) → Result CacheError (RedisStore R)
  connected disabled (ok connection) =
      ok (record { connection = connection; disable_expiration = disabled })
  connected disabled (err e) = err (operation "redis" "" ("Failed to connect to Redis: " ⧺ e))

  -- `RedisStore::new`
  unfoldable pub new : RedisStoreConfig → Async W (Result CacheError (RedisStore R))
  new config = elim (RedisCrate.open_client R config.url) [
    | err e ↦ ret (err (operation "redis" "" ("Failed to create Redis client: " ⧺ e)))
    | ok client ↦ do
      opened ← atomic (RedisCrate.connect R client)
      ret (connected config.disable_expiration opened)
  ]

  unfoldable pub remove :
      RedisStore R → String → List String → Async W (Result CacheError (Unit {0}))
  unfolding join_keys
  remove s namespace [] = ret (ok tt)
  remove s namespace (key ∷ keys) = do
    let cache_keys = map (build_cache_key namespace) (key ∷ keys)
    deleted ← atomic (RedisCrate.del R s.connection cache_keys)
    ret (failed (join_keys cache_keys) "DEL failed: " deleted)

module _ {J : Serde} {W : Type 0} (P : Platform W) (R : RedisCrate W) where
  -- With the metadata of the text read: an entry that has expired is deleted in the background,
  -- unless expiration is disabled.
  unfoldable pub serve_parsed :
      RedisStore R → String → String → ℤ × ℤ → Async W (Result CacheError (Option (StoredEntry J)))
  serve_parsed s cache_key json (fresh_until, stale_until) = do
    now ← gets (now_ms P)
    if leb_ℤ stale_until now
        then (if s.disable_expiration
            then ret (ok (some (serialized json fresh_until stale_until)))
            else (spawn (atomic (RedisCrate.del R s.connection (cache_key ∷ []))) >> ret (ok none)))
        else ret (ok (some (serialized json fresh_until stale_until)))

  unfoldable pub serve :
      RedisStore R
      → String
      → String
      → Option String
      → Async W (Result CacheError (Option (StoredEntry J)))
  unfolding serve_parsed
  serve s key cache_key none = ret (ok none)
  serve s key cache_key (some json) = elim (Serde.metadata_from_str J json) [
    | err e ↦ ret (err (operation "redis" key ("Metadata parse failed: " ⧺ e)))
    | ok metadata ↦ serve_parsed s cache_key json metadata
  ]

  unfoldable pub get :
      RedisStore R → String → String → Async W (Result CacheError (Option (StoredEntry J)))
  unfolding serve
  get s namespace key = do
    let cache_key = build_cache_key namespace key
    found ← atomic (RedisCrate.get_text R s.connection cache_key)
    elim found [
      | err e ↦ ret (err (operation "redis" key ("GET failed: " ⧺ e)))
      | ok result ↦ serve s key cache_key result
    ]

  unfoldable pub set :
      RedisStore R → String → String → StoredEntry J → Async W (Result CacheError (Unit {0}))
  unfolding calculate_ttl_seconds
  set s namespace key (typed value fresh stale serializer) = ret (
      err (
        serialization
          "RedisStore received Typed entry but requires Serialized. This indicates a bug in TieredStore conversion logic."))
  set s namespace key (serialized json fresh stale) =
      let cache_key = build_cache_key namespace key in
      if s.disable_expiration
      then (do
        stored ← atomic (RedisCrate.set_text R s.connection cache_key json)
        ret (failed key "SET failed: " stored))
      else (do
        ttl_seconds ← gets (calculate_ttl_seconds P stale)
        stored ← atomic (RedisCrate.set_ex R s.connection cache_key json ttl_seconds)
        ret (failed key "SETEX failed: " stored))

  -- `impl Store for RedisStore`
  unfoldable pub redis_store : RedisStore R → Store J W
  unfolding get set remove
  redis_store s = record {
    name = "redis";
    storage_mode = serialized_mode;
    get = get s;
    set = set s;
    remove = remove R s;
  }
