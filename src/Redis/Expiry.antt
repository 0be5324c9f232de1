-- ===== src/Redis/Expiry.antt =====
-- The time to live of what a RedisStore writes, and what it reads back (src/stores/redis.rs).
use swr_cache.Base.{
  ℕ, ◌≡◌, ◌⊎◌, ◌+◌, ◌*◌, ◌≤◌, ◌||◌, Bool, true, false, Option, none, some, String, ok, arith,
  if◌then◌else◌, refl,
}
use swr_cache.Base.Int.{
  ℤ, pos, ltb_ℤ, ◌<ℤ◌, ◌≤ℤ◌, ◌-ℤ◌, ◌-i64◌, -ℤ_parts, InI64, quot_i64, max_i64, as_u64,
}
use swr_cache.Base.Async.Exec.{exec}
use swr_cache.Platform.{Serde, Platform}
use swr_cache.Utils.{build_cache_key, now_ms}
use swr_cache.Entry.{StoredEntry, serialized}
use swr_cache.Redis.{RedisCrate, RedisStore, calculate_ttl_seconds, serve, serve_parsed, get, set}

-- Redis keeps an entry for the whole seconds that are left until it expires, and for one second where
-- less than that is left or it has expired already, if the difference fits the machine integer.
pub ttl_bounds :
    {W : Type 0} (P : Platform W) (stale : ℤ) (w : W)
    → InI64 (stale -ℤ now_ms P w)
    → let ttl = calculate_ttl_seconds P stale w in
      ((stale -ℤ now_ms P w <ℤ pos 1000) × (ttl ≡ 1))
      ⊎ ((pos 1000 ≤ℤ stale -ℤ now_ms P w)
          × (pos (ttl * 1000) ≤ℤ stale -ℤ now_ms P w)
          × (stale -ℤ now_ms P w <ℤ pos (ttl * 1000 + 1000)))
unfolding calculate_ttl_seconds quot_i64 max_i64 as_u64 ◌-i64◌ ◌-ℤ◌
ttl_bounds P stale w fits = ground (arith, -ℤ_parts stale (now_ms P w))

-- What redis documents of GET right after SET or SETEX: the text that was set.
pub record Keeps {W : Type 0} (R : RedisCrate W) (c : RedisCrate.Connection R) : Type 0 where
  pub get-set_text :
      (k text : String) (w : W)
      → (RedisCrate.set_text R c k text w).0 ≡ ok tt
      → (RedisCrate.get_text R c k (RedisCrate.set_text R c k text w).1).0 ≡ ok (some text)
  pub get-set_ex :
      (k text : String) (ttl : ℕ) (w : W)
      → (RedisCrate.set_ex R c k text ttl w).0 ≡ ok tt
      → 1 ≤ ttl
      → (RedisCrate.get_text R c k (RedisCrate.set_ex R c k text ttl w).1).0 ≡ ok (some text)

pub ttl_positive :
    {W : Type 0} (P : Platform W) (stale : ℤ) (w : W) → 1 ≤ calculate_ttl_seconds P stale w
unfolding calculate_ttl_seconds max_i64 as_u64
ttl_positive P stale w = ground arith

module _ (J : Serde) {W : Type 0} (P : Platform W) (R : RedisCrate W) (s : RedisStore R)
    (namespace key : String) where
  -- The write's two branches: what was stored is read back.
  read_back :
      (json : String) (fresh stale : ℤ) (w : W) (b : Bool)
      → s.disable_expiration ≡ b
      → Keeps R s.connection
      → let entry : StoredEntry J = serialized json fresh stale in
        let o = exec (set P R s namespace key entry) w in
        o.result ≡ ok tt
        → (RedisCrate.get_text R s.connection (build_cache_key namespace key) o.world).0
          ≡ ok (some json)
  unfolding set
  read_back json fresh stale w true off keeps stored =
      let key' = build_cache_key namespace key in
      let kept = keeps.get-set_text key' json w in ground arith
  read_back json fresh stale w false on keeps stored =
      let key' = build_cache_key namespace key in
      let ttl = calculate_ttl_seconds P stale w in
      let kept = keeps.get-set_ex key' json ttl w in ground (arith, ttl_positive P stale w)

module _ {J : Serde} {W : Type 0} (P : Platform W) (R : RedisCrate W) (s : RedisStore R)
    (namespace key : String) where
  -- The answer to a text with these times: nothing for an entry that has expired, unless expiration
  -- is disabled.
  abbrev pub served : String → ℤ → ℤ → ℤ → Option (StoredEntry J)
  served json fresh stale now =
      if (s.disable_expiration || ltb_ℤ now stale) then some (serialized json fresh stale) else none

  result-serve :
      (cache_key json : String) (fresh stale : ℤ) (w : W)
      → Serde.metadata_from_str J json ≡ ok (fresh, stale)
      → (exec (serve P R s key cache_key (some json)) w).result
        ≡ ok (served json fresh stale (now_ms P w))
  unfolding serve serve_parsed
  result-serve cache_key json fresh stale w times = ground arith

  result-get :
      (json : String) (fresh stale : ℤ) (w : W)
      → (RedisCrate.get_text R s.connection (build_cache_key namespace key) w).0 ≡ ok (some json)
      → Serde.metadata_from_str J json ≡ ok (fresh, stale)
      → let (_, w') = RedisCrate.get_text R s.connection (build_cache_key namespace key) w in
        (exec (get {J = J} P R s namespace key) w).result
        ≡ ok (served json fresh stale (now_ms P w'))
  unfolding get
  result-get json fresh stale w found times =
      let key' = build_cache_key namespace key in
      let w' = (RedisCrate.get_text R s.connection key' w).1 in
      ground (arith, result-serve key' json fresh stale w' times)

  -- A serialized entry whose write succeeds is what the next read gives, with its times, unless it
  -- has expired by the time of the read; with expiration disabled it is given even then.
  pub get-set_redis :
      (json : String) (fresh stale : ℤ) (w : W)
      → Keeps R s.connection
      → Serde.metadata_from_str J json ≡ ok (fresh, stale)
      → let entry : StoredEntry J = serialized json fresh stale in
        let o = exec (set P R s namespace key entry) w in
        o.result ≡ ok tt
        → let (_, w') =
            RedisCrate.get_text R s.connection (build_cache_key namespace key) o.world in
          (exec (get {J = J} P R s namespace key) o.world).result
          ≡ ok (served json fresh stale (now_ms P w'))
  unfolding set
  get-set_redis json fresh stale w keeps times stored =
      let entry : StoredEntry J = serialized json fresh stale in
      result-get json fresh stale (exec (set P R s namespace key entry) w).world
        (read_back J P R s namespace key json fresh stale w s.disable_expiration refl keeps stored)
        times
