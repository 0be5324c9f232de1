-- ===== src/MultiNamespace.antt =====
-- src/examples/multi_namespace.rs: two caches of values of two types over one shared store.
pub mod Lines
pub mod Apart
use swr_cache.Base.{false, Option, some, String, List, [], ◌∷◌, Result, ok}
use swr_cache.Base.Int.{ℤ, pos}
use swr_cache.Base.Dict.{Dict}
use swr_cache.Base.Cell.{Cell, update}
use swr_cache.Base.Async.{Async, ret, ◌>>=◌, ◌>>◌, ◌>>?◌, atomic, modify}
use swr_cache.Platform.{Serde, Platform}
use swr_cache.Error.{CacheError}
use swr_cache.Store.{Store}
use swr_cache.Moka
use swr_cache.Moka.{MokaCrate, MokaStore}
use swr_cache.Redis
use swr_cache.Redis.{RedisCrate, RedisStore}
use swr_cache.Swr.Data.{Slot, Origin}
use swr_cache.Cache
use swr_cache.Cache.{Cache}

pub record User : Type 0 where
  pub id : String
  pub name : String
  pub email : String

pub record ApiKey : Type 0 where
  pub key : String
  pub user_id : String
  pub created_at : ℤ

-- The two types among those with derived conversions.
pub record Types (J : Serde) : Type 0 where
  pub user : Serde.TypeId J
  pub api_key : Serde.TypeId J
  pub of_user : User → Serde.Val J user
  pub of_api_key : ApiKey → Serde.Val J api_key

-- What is printed, a constructor for each `println!`.
pub data Line {J : Serde} (T : Types J) : Type 0 where
  loading_user : String → Line T
  not_called : Line T
  user_line : Option (Serde.Val J (Types.user T)) → Line T
  cached_user_line : Option (Serde.Val J (Types.user T)) → Line T
  in_api_key_cache : Option (Serde.Val J (Types.api_key T)) → Line T
  in_user_cache : Option (Serde.Val J (Types.user T)) → Line T
  same_store : Line T
  saves_memory : Line T

-- The memory that the program has: what it has printed, and the two maps of revalidations.
pub record Shared {J : Serde} (T : Types J) (W : Type 0) : Type 0 where
  pub printed : Cell W (List (Line T))
  pub users : Cell W (Dict (Slot (Serde.Val J (Types.user T))))
  pub api_keys : Cell W (Dict (Slot (Serde.Val J (Types.api_key T))))

module _ {J : Serde} {T : Types J} {W : Type 0} (shared : Shared T W) where
  abbrev pub println : Line T → Async W (Unit {0})
  println line = modify (update (Shared.printed shared) (◌∷◌ line))

  -- The closure of the first `swr`.
  unfoldable pub load_user : Origin J W (Types.user T)
  load_user id = do
    println (loading_user id)
    ret (
        some
          (Types.of_user T (record { id = id; name = "Andreas"; email = "andreas@example.com" })))

  -- The closure of the second `swr`.
  unfoldable pub load_again : Origin J W (Types.user T)
  load_again id = do
    println not_called
    ret (
        some (
          Types.of_user T
            (record { id = id; name = "Should not appear"; email = "no@example.com" })))

  module _ (P : Platform W) where
    abbrev pub UserCache : Type 0
    UserCache = Cache J W (Types.user T)

    abbrev pub ApiKeyCache : Type 0
    ApiKeyCache = Cache J W (Types.api_key T)

    -- The calls of `main` on the two caches.
    unfoldable pub use_caches : UserCache → ApiKeyCache → Async W (Result CacheError (Unit {0}))
    unfolding load_user load_again
    use_caches user_cache api_key_cache = Cache.swr P user_cache "chronark" load_user >>? λ user.
        println (user_line user)
        >> Platform.sleep P 50
        >> Cache.swr P user_cache "chronark" load_again
        >>? λ user2.
            println (cached_user_line user2)
            >> Cache.set P api_key_cache "key_123" (
                Types.of_api_key T (record {
                  key = "sk_test_123";
                  user_id = "chronark";
                  created_at = pos 1_234_567_890;
                }))
            >>? λ _. Cache.get P api_key_cache "key_123" >>? λ api_key.
                println (in_api_key_cache api_key)
                >> Cache.get P user_cache "key_123"
                >>? λ not_found.
                    println (in_user_cache not_found)
                    >> println same_store
                    >> println saves_memory
                    >> ret (ok tt)

    module _ (M : MokaCrate J W) (R : RedisCrate W) where
      -- Both caches have the store `l1`.
      unfoldable pub with_stores :
          MokaStore M → RedisStore R → Async W (Result CacheError (Unit {0}))
      unfolding use_caches
      with_stores l1 l2 = do
        let near = Moka.moka_store M P l1
        let far = Redis.redis_store P R l2
        user_cache ←
            atomic (
              Cache.new P "users" (near ∷ far ∷ []) (pos 60_000) (pos 300_000)
                (Shared.users shared))
        api_key_cache ←
            atomic (
              Cache.new P "apikeys" (near ∷ []) (pos 120_000) (pos 600_000)
                (Shared.api_keys shared))
        use_caches user_cache api_key_cache

      -- The `?` of `main` puts a CacheError in a box.
      unfoldable pub main : Async W (Result CacheError (Unit {0}))
      unfolding with_stores
      main = do
        l1 ← atomic (Moka.new M Moka.default_config)
        opened ← Redis.new R (record { url = "redis://localhost:6379"; disable_expiration = false })
        ret opened >>? with_stores l1
