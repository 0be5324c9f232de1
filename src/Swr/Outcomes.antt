-- ===== src/Swr/Outcomes.antt =====
-- What `swr` does where it asks the origin: misses, errors and expired entries, with and without
-- another load of the key running (src/swr.rs: swr, deduplicated_load_from_origin, cache_value).
use swr_cache.Base.{
  ◌≡◌, refl, ap, ◌∙◌, true, false, Option, none, some, String, List, [], ◌∷◌, ◌++◌, Result, ok, err,
  map_or, arith, ◌⊎◌,
}
use swr_cache.Base.Int.{◌≤ℤ◌}
use swr_cache.Base.Async.{Task, Async, ◌>>=◌, ret}
use swr_cache.Base.Async.Exec.{Outcome, exec, andthen, result-bind}
use swr_cache.Platform.{Serde, Platform}
use swr_cache.Utils.{now_ms}
use swr_cache.Error.{CacheError}
use swr_cache.Entry.{Entry, StoredEntry, into_typed}
use swr_cache.Swr.Data.{SwrCache, Origin, retried}
use swr_cache.Swr.Direct.{cache_value}
use swr_cache.Swr.{or_expired, cache_loaded, retry, swr}
use swr_cache.Swr.Loads.{marked, mark, unmark, called, load_unmarked, load_joined}
use swr_cache.Swr.Answers.{caching, load_then, exec-swr_expired, exec-swr_miss}

retried_found :
    {J : Serde} {t : Serde.TypeId J} {r : Result CacheError (Option (StoredEntry J))}
    {stored : StoredEntry J} {entry : Entry (Serde.Val J t)}
    → r ≡ ok (some stored)
    → into_typed t stored ≡ ok entry
    → retried t r ≡ some entry.value
unfolding retried
retried_found found typed' = ground arith

module _ {J : Serde} {W : Type 0} (P : Platform W) {t : Serde.TypeId J} (c : SwrCache J W t)
    (namespace key : String) where
  -- The write in the background of what the origin gave, if it gave something.
  abbrev pub caching_loaded : Option (Serde.Val J t) → W → List (Task W)
  caching_loaded none w = []
  caching_loaded (some v) w = caching P c namespace key v w ∷ []

  pub exec-or_expired :
      (old : Serde.Val J t) (o : Option (Serde.Val J t)) (w : W)
      → exec (or_expired P c namespace key old (ok o)) w ≡ record {
        result = ok (some (map_or o (λ v. v) old));
        world = w;
        spawned = caching_loaded o w;
      }
  unfolding or_expired cache_value
  exec-or_expired old none w = refl
  exec-or_expired old (some v) w = refl

  pub exec-cache_loaded :
      (o : Option (Serde.Val J t)) (w : W)
      → exec (cache_loaded P c namespace key (ok o)) w
        ≡ record { result = ok o; world = w; spawned = caching_loaded o w }
  unfolding cache_loaded cache_value
  exec-cache_loaded none w = refl
  exec-cache_loaded (some v) w = refl

  module _ (load : Origin J W t) (w : W) where
    abbrev read : Outcome W (Result CacheError (Option (StoredEntry J)))
    read = exec (c.store.get namespace key) w

    -- The origin's call, between mark and removal of the mark.
    abbrev origin : Outcome W (Option (Serde.Val J t))
    origin = exec (load key) (mark c namespace key read.world)

    -- The outcome where the origin was called, and `answer` is made of what it gave.
    abbrev asked : Option (Serde.Val J t) → Outcome W (Result CacheError (Option (Serde.Val J t)))
    asked answer = record {
      result = ok answer;
      world = unmark c namespace key origin.world;
      spawned =
          read.spawned
          ++ (origin.spawned ++ caching_loaded origin.result (unmark c namespace key origin.world));
    }

    abbrev after_origin :
        Outcome W (Result CacheError (Option (Serde.Val J t)))
        → Outcome W (Result CacheError (Option (Serde.Val J t)))
    after_origin p = record p { spawned = read.spawned ++ (origin.spawned ++ p.spawned) }

    module _ (free : marked c namespace key read.world ≡ false) where
      after_load :
          (k : Result String (Option (Serde.Val J t))
            → Async W (Result CacheError (Option (Serde.Val J t))))
          → load_then P c namespace key load w k ≡ (
              let o = andthen (called P c namespace key load read.world) k in
              record o { spawned = read.spawned ++ o.spawned })
      after_load k =
          ap
            (λ (l : Outcome W (Result String (Option (Serde.Val J t)))).
              let o = andthen l k in record o { spawned = read.spawned ++ o.spawned })
            (load_unmarked P c namespace key load read.world free)

      -- With nothing in the store, or an error from it, and no other load of the key running, `swr`
      -- calls the origin and answers with what it gives: never with the store's error. What it gives
      -- is written to the store in the background.
      pub swr_miss :
          (read.result ≡ ok none) ⊎ ((e : CacheError) × (read.result ≡ err e))
          → exec (swr P c namespace key load) w ≡ asked origin.result
      swr_miss missed =
          exec-swr_miss P c namespace key load w missed
          ∙ after_load (cache_loaded P c namespace key)
          ∙ ap after_origin (exec-cache_loaded origin.result (unmark c namespace key origin.world))

      -- With an expired entry in the store, and no other load of the key running, `swr` calls the
      -- origin; it answers with what the origin gives, and with the expired value if that is
      -- nothing. Only what the origin gave is written back.
      pub swr_expired :
          {stored : StoredEntry J} {entry : Entry (Serde.Val J t)}
          → read.result ≡ ok (some stored)
          → into_typed t stored ≡ ok entry
          → entry.stale_until ≤ℤ now_ms P read.world
          → exec (swr P c namespace key load) w
            ≡ asked (some (map_or origin.result (λ v. v) entry.value))
      swr_expired {stored} {entry} found typed' dead =
          exec-swr_expired P c namespace key load w found typed' dead
          ∙ after_load (or_expired P c namespace key entry.value)
          ∙ ap after_origin
              (exec-or_expired entry.value origin.result (unmark c namespace key origin.world))

    -- The second look into the store, after the wait for another load of the key.
    abbrev waited : W
    waited = (exec (Platform.sleep P 100) read.world).world

    abbrev second : Outcome W (Option (Serde.Val J t))
    second = exec (retry P c namespace key) read.world

    second-result : second.result ≡ retried t (exec (c.store.get namespace key) waited).result
    unfolding retry
    second-result =
        result-bind (Platform.sleep P 100)
          (λ _. c.store.get namespace key >>= λ found. ret (retried t found)) read.world
        ∙ result-bind (c.store.get namespace key) (λ found. ret (retried t found)) waited

    -- With an expired entry in the store while another load of the key is marked, `swr` waits, and
    -- takes what the store then has for the origin's answer, also if that has expired too: it never
    -- calls the origin, and writes the value back with new times.
    pub swr_joined :
        {stored stored' : StoredEntry J} {entry entry' : Entry (Serde.Val J t)}
        → marked c namespace key read.world ≡ true
        → read.result ≡ ok (some stored)
        → into_typed t stored ≡ ok entry
        → entry.stale_until ≤ℤ now_ms P read.world
        → (exec (c.store.get namespace key) waited).result ≡ ok (some stored')
        → into_typed t stored' ≡ ok entry'
        → exec (swr P c namespace key load) w ≡ record {
          result = ok (some entry'.value);
          world = second.world;
          spawned =
              read.spawned
              ++ (second.spawned ++ caching P c namespace key entry'.value second.world ∷ []);
        }
    swr_joined {stored} {stored'} {entry} {entry'} running found typed' dead found' typed'' =
        exec-swr_expired P c namespace key load w found typed' dead
        ∙ ap
            (λ (l : Outcome W (Result String (Option (Serde.Val J t)))).
              let o = andthen l (or_expired P c namespace key entry.value) in
              record o { spawned = read.spawned ++ o.spawned })
            (load_joined P c namespace key load read.world running
              (second-result ∙ retried_found found' typed''))
        ∙ ap
            (λ (o : Outcome W (Result CacheError (Option (Serde.Val J t)))). record o {
              spawned = read.spawned ++ (second.spawned ++ o.spawned);
            })
            (exec-or_expired entry.value (some entry'.value) second.world)
