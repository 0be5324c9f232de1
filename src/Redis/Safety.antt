-- ===== src/Redis/Safety.antt =====
-- A RedisStore under any interleaving (src/stores/redis.rs).
use swr_cache.Base.{Bool, ℕ, Option, none, some, String, List, [], ◌∷◌, Result, ok, err, ◌⧺◌}
use swr_cache.Base.Int.{ℤ, leb_ℤ}
use swr_cache.Base.Async.{atomic, ◌>>=◌, ret, step}
use swr_cache.Base.Async.Safe.{Ensures, returns, steps, forks, Ensures-if, Keeps-task_of}
use swr_cache.Platform.{Serde, Platform}
use swr_cache.Utils.{build_cache_key, now_ms}
use swr_cache.Error.{CacheError, operation}
use swr_cache.Entry.{StoredEntry, typed, serialized}
use swr_cache.Redis.{
  RedisStoreConfig, connected, new, RedisCrate, RedisStore, get, set, remove, serve, serve_parsed,
  redis_store,
}
use swr_cache.Store.Safety.{Found, IsSafeStore}

-- A text that a GET gave.
abbrev pub FoundText : (String → Type 0) → Result String (Option String) → Type 0
FoundText Q (ok (some text)) = Q text
FoundText Q (ok none) = Unit
FoundText Q (err x) = Unit

-- What redis documents of its commands, in terms of an invariant: it makes up no text, and SET,
-- SETEX and DEL, whether they succeed or fail, leave only texts that were set.
pub record RedisKeeps {W : Type 0} (R : RedisCrate W) (c : RedisCrate.Connection R)
    (Inv : W → Type 0) (Texts : String → String → Type 0) : Type 0 where
  pub gets :
      (k : String) (w : W)
      → Inv w
      → FoundText (Texts k) (RedisCrate.get_text R c k w).0 × Inv (RedisCrate.get_text R c k w).1
  pub sets :
      (k text : String) (w : W) → Texts k text → Inv w → Inv (RedisCrate.set_text R c k text w).1
  pub sets_ex :
      (k text : String) (ttl : ℕ) (w : W)
      → Texts k text
      → Inv w
      → Inv (RedisCrate.set_ex R c k text ttl w).1
  pub dels : (ks : List String) (w : W) → Inv w → Inv (RedisCrate.del R c ks w).1

module _ {J : Serde} {W : Type 0} (P : Platform W) (R : RedisCrate W) (s : RedisStore R)
    (Inv : W → Type 0) (Fits : String → StoredEntry J → Type 0) (Texts : String → String → Type 0)
    (fits_text : (k json : String) (fresh stale : ℤ)
      → Fits k (serialized json fresh stale)
      → Texts k json)
    (text_fits : (k json : String) (fresh stale : ℤ)
      → Texts k json
      → Fits k (serialized json fresh stale))
    (redis : RedisKeeps R s.connection Inv Texts) where
  Ensures-serve_parsed :
      (k json : String) (times : ℤ × ℤ)
      → Texts k json
      → Ensures Inv (Found (Fits k)) (serve_parsed P R s k json times)
  unfolding serve_parsed
  Ensures-serve_parsed k json (fresh, stale) h =
      steps (λ w i. i)
        (λ w _.
          Ensures-if (leb_ℤ stale (now_ms P w))
            (λ _.
              Ensures-if s.disable_expiration (λ _. returns (text_fits k json fresh stale h))
                (λ _. forks (Keeps-task_of deletes) (returns tt)))
            (λ _. returns (text_fits k json fresh stale h)))
    where
      deletes :
          Ensures Inv
            (λ _. Unit {0})
            (step
              (λ w. (RedisCrate.del R s.connection (k ∷ []) w).1)
              (λ w. ret (RedisCrate.del R s.connection (k ∷ []) w).0))
      deletes = steps (redis.dels (k ∷ [])) (λ _ _. returns tt)

  Ensures-serve :
      (key k : String) (found : Option String)
      → FoundText (Texts k) (ok found)
      → Ensures Inv (Found (Fits k)) (serve P R s key k found)
  unfolding serve
  Ensures-serve key k none h = returns tt
  Ensures-serve key k (some json) h = parsed (Serde.metadata_from_str J json)
    where
      parsed :
          (m : Result String (ℤ × ℤ))
          → Ensures Inv (Found (Fits k)) (elim m [
            | err e ↦ ret (err (operation "redis" key ("Metadata parse failed: " ⧺ e)))
            | ok metadata ↦ serve_parsed P R s k json metadata
          ])
      parsed (ok times) = Ensures-serve_parsed k json times h
      parsed (err x) = returns tt

  Ensures-get :
      (namespace key : String)
      → Ensures Inv (Found (Fits (build_cache_key namespace key))) (get P R s namespace key)
  unfolding get
  Ensures-get namespace key =
      steps (λ w i. (redis.gets k w i).1)
        (λ w i. after (RedisCrate.get_text R s.connection k w).0 (redis.gets k w i).0)
    where
      k : String
      k = build_cache_key namespace key

      after :
          (r : Result String (Option String))
          → FoundText (Texts k) r
          → Ensures Inv (Found (Fits k)) (elim r [
            | err e ↦ ret (err (operation "redis" key ("GET failed: " ⧺ e)))
            | ok result ↦ serve P R s key k result
          ])
      after (ok found) h = Ensures-serve key k found h
      after (err x) h = returns tt

  Ensures-set :
      (namespace key : String) (e : StoredEntry J)
      → Fits (build_cache_key namespace key) e
      → Ensures Inv (λ _. Unit {0}) (set P R s namespace key e)
  unfolding set
  Ensures-set namespace key (typed value fresh stale serializer) fit = returns tt
  Ensures-set namespace key (serialized json fresh stale) fit =
      Ensures-if s.disable_expiration
        (λ _. steps (λ w i. redis.sets k json w text i) (λ _ _. returns tt))
        (λ _.
          steps (λ w i. i)
            (λ w _. steps (λ w' i. redis.sets_ex k json _ w' text i) (λ _ _. returns tt)))
    where
      k : String
      k = build_cache_key namespace key

      text : Texts k json
      text = fits_text k json fresh stale fit

  Ensures-remove :
      (namespace : String) (keys : List String)
      → Ensures Inv (λ _. Unit {0}) (remove R s namespace keys)
  unfolding remove
  Ensures-remove namespace [] = returns tt
  Ensures-remove namespace (key ∷ keys) = steps (λ w i. redis.dels _ w i) (λ _ _. returns tt)

  -- A RedisStore, over a server and a connection that make up no text: every interleaving of reads,
  -- writes and removals keeps each text under a key that it fits, and a read that parses one gives an
  -- entry that fits the key asked for.
  pub redis_store-IsSafeStore : IsSafeStore (redis_store P R s) Inv Fits
  unfolding redis_store
  redis_store-IsSafeStore = record {
    reads = Ensures-get;
    writes = Ensures-set;
    removes = Ensures-remove;
  }

module _ {W : Type 0} (R : RedisCrate W) (Inv : W → Type 0)
    (connects : (c : RedisCrate.Client R) (w : W) → Inv w → Inv (RedisCrate.connect R c w).1) where
  Ensures-opened :
      (disabled : Bool) (client : Result String (RedisCrate.Client R))
      → Ensures Inv {A = Result CacheError (RedisStore R)}
          (λ _. Unit {0})
          (elim client [
            | err e ↦ ret (err (operation "redis" "" ("Failed to create Redis client: " ⧺ e)))
            | ok c ↦ do opened ← atomic (RedisCrate.connect R c); ret (connected R disabled opened)
          ])
  Ensures-opened disabled (ok c) = steps (connects c) (λ _ _. returns tt)
  Ensures-opened disabled (err e) = returns tt

  -- A store that is opened keeps what its connecting keeps.
  pub Ensures-new : (config : RedisStoreConfig) → Ensures Inv (λ _. Unit {0}) (new R config)
  unfolding new
  Ensures-new config =
      Ensures-opened config.disable_expiration (RedisCrate.open_client R config.url)
