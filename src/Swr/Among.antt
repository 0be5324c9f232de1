-- ===== src/Swr/Among.antt =====
-- A write and a read of one key while other tasks use other keys (src/swr.rs: set, get).
pub mod Clients
use swr_cache.Base.{
  ◌≡◌, refl, sym, ap, ◌∙◌, subst, true, Option, none, some, String, List, Result, ok, err, map_or,
  inl, inr, ◌⊎◌, arith, All,
}
use swr_cache.Base.Int.{ℤ, ◌≤ℤ◌, leb_ℤ, ◌+i64◌}
use swr_cache.Base.Async.{Task, Async, ret, ◌>>=◌, ◌>>◌}
use swr_cache.Base.Async.Guarantee.{TaskGuarantees}
use swr_cache.Base.Async.Interleave.{Config, Reach}
use swr_cache.Base.Async.Outline.{
  Outline, returns, steps, Outline-from, Outline-to, Outline-bind, IsOutlined, Outline-result,
}
use swr_cache.Platform.{Serde, RoundTrips, Platform}
use swr_cache.Utils.{build_cache_key, now_ms}
use swr_cache.Error.{CacheError}
use swr_cache.Entry.{Entry, StoredEntry, StorageMode, new, into_typed, is_expired, stale_until}
use swr_cache.Store.Keyed.{Aside, Aside-refl, Since-IsStable, Has, Gave, IsKeyed}
use swr_cache.Swr.Data.{SwrCache, SetOptions, GetResult, classify, entry_for}
use swr_cache.Swr.Direct.{stored_result, typed_result, write_entry, get_internal, get, set}
use swr_cache.Swr.Reads.{value-classify, values}
use swr_cache.Swr.RoundTrip.{Holds, made, fresh_time, stale_time, entry_for-Holds}

module _ {J : Serde} {W : Type 0} (P : Platform W) {t : Serde.TypeId J} (c : SwrCache J W t) where
  -- A write of a key and then a read of it, as one future.
  abbrev pub set_then_get :
      String
      → String
      → Serde.Val J t
      → Option SetOptions
      → Async W (Result CacheError (Option (Serde.Val J t)))
  set_then_get namespace key v opts = do set P c namespace key v opts; get P c namespace key

  -- How long an entry of the write lives.
  abbrev pub life : Option SetOptions → ℤ
  life opts = map_or opts (λ o. o.stale_ms) c.stale_ms

  -- The read gave the value; or it gave nothing, and the value, written at a time from `n` on, has
  -- expired since.
  abbrev pub IsBack :
      Serde.Val J t → ℤ → ℤ → Result CacheError (Option (Serde.Val J t)) → W → Type 0
  IsBack v ms n r w =
      (r ≡ ok (some v))
      ⊎ ((r ≡ ok none)
          × ((m : ℤ) × (n ≤ℤ m) × (m ≤ℤ now_ms P w) × (leb_ℤ (m +i64 ms) (now_ms P w) ≡ true)))

  -- The value can be written, whatever its times.
  abbrev pub CanWrite : Serde.Val J t → Type 0
  CanWrite v =
      (fresh stale : ℤ)
      → (e : StoredEntry J) × (entry_for t c.store.storage_mode v fresh stale ≡ ok e)

  module _ (Inv : W → Type 0) (entry : W → String → Option (StoredEntry J))
      (keyed : IsKeyed P Inv entry c.store) (r : RoundTrips J) (namespace key : String)
      (v : Serde.Val J t) where
    abbrev Rely : W → W → Type 0
    Rely = Aside P Inv entry (build_cache_key namespace key)

    Outline-typed :
        (ms n : ℤ) (o : Result CacheError (Entry (Serde.Val J t))) (fresh stale : ℤ)
        → Outline Rely
            (λ a w. IsBack v ms n (values a) w)
            (λ w. o ≡ ok (new v fresh stale))
            (typed_result P o)
    Outline-typed ms n (ok en) fresh stale =
        steps (λ w w'. en.value ≡ v) (λ w p. ground (arith, p)) (λ w p w' w'' a q. q)
          (λ w p. returns (λ w' q. inl (ap ok (value-classify en (now_ms P w) ∙ ap some q))))
    Outline-typed ms n (err x) fresh stale = returns (λ w p. absurd (ground (arith, p)))

    module _ (ms n m fresh : ℤ) (e : StoredEntry J)
        (holds : Holds t c.store.storage_mode v fresh (m +i64 ms) e) (le : n ≤ℤ m) where
      Outline-answer :
          (o : Result CacheError (Option (StoredEntry J)))
          → Outline Rely
              (λ a w. IsBack v ms n (values a) w)
              (Gave P Inv entry e m o)
              (elim o [ ok found ↦ stored_result P {t = t} found | err x ↦ ret (err x) ])
      unfolding is_expired
      Outline-answer (ok none) =
          returns (λ w p. inr (refl, (m, le, p.1, ground (arith, p.2, holds.expires))))
      Outline-answer (ok (some e')) =
          Outline-from (λ w p. ground (arith, p.2, holds.reads))
            (Outline-typed ms n (into_typed t e') fresh (m +i64 ms))
      Outline-answer (err x) = returns (λ w p. absurd (ground (arith, p.2)))

    Outline-value :
        {Q : Result CacheError (Option (Serde.Val J t)) → W → Type 0}
        (a : Result CacheError (GetResult (Serde.Val J t)))
        → Outline Rely Q
            (Q (values a))
            (elim a [ ok found ↦ ret (ok found.value) | err x ↦ ret (err x) ])
    Outline-value (ok found) = returns (λ w p. p)
    Outline-value (err x) = returns (λ w p. p)

    Outline-read :
        (ms n m fresh : ℤ) (e : StoredEntry J)
        → Holds t c.store.storage_mode v fresh (m +i64 ms) e
        → n ≤ℤ m
        → Outline Rely
            (IsBack v ms n)
            (Has P Inv entry (build_cache_key namespace key) e m)
            (get P c namespace key)
    unfolding get get_internal
    Outline-read ms n m fresh e holds le =
        Outline-bind
          (Outline-bind (keyed.reads namespace key e m) (Outline-answer ms n m fresh e holds le))
          (λ a. Outline-value {Q = IsBack v ms n} a)

    Outline-set_then_get :
        (opts : Option SetOptions) (n : ℤ)
        → CanWrite v
        → Outline Rely
            (IsBack v (life opts) n)
            (λ w. Inv w × (n ≤ℤ now_ms P w))
            (set_then_get namespace key v opts)
    unfolding set
    Outline-set_then_get opts n writes =
        steps (λ w w'. Inv w' × (now_ms P w ≤ℤ now_ms P w')) (λ w p. (p.0, omega arith))
          (λ w p. Since-IsStable P Inv entry _ _) (λ w p. written w p.1)
      where
        written :
            (w : W)
            → n ≤ℤ now_ms P w
            → Outline Rely
                (IsBack v (life opts) n)
                (λ w'. Inv w' × (now_ms P w ≤ℤ now_ms P w'))
                (write_entry c namespace key (made P c opts w v) >> get P c namespace key)
        written w le =
            let (e, done) = writes (fresh_time P c opts w) (stale_time P c opts w) in
            let holds =
              entry_for-Holds r t c.store.storage_mode v (fresh_time P c opts w)
                (stale_time P c opts w) e done in
            rw done (
              Outline-bind (keyed.writes namespace key e (now_ms P w) holds.taken) (λ a.
                Outline-from (λ w' q. q.1)
                  (Outline-read (life opts) n (now_ms P w) (fresh_time P c opts w) e holds le)))

    -- A write of a value and then a read of its key, while any other tasks use other keys, in any
    -- order of their segments: the read gives the value, or it gives nothing and the value, written
    -- between the start and the end, has expired by the end.
    pub get-set_among :
        (opts : Option SetOptions) (w : W) (ts : List (Task W))
        (end : Config W (Result CacheError (Option (Serde.Val J t))))
        (answer : Result CacheError (Option (Serde.Val J t)))
        → CanWrite v
        → Inv w
        → All (TaskGuarantees (Aside P Inv entry (build_cache_key namespace key))) ts
        → Reach (record { call = set_then_get namespace key v opts; tasks = ts; world = w }) end
        → end.call ≡ ret answer
        → IsBack v (life opts) (now_ms P w) answer end.world
    get-set_among opts w ts end answer writes i kept reach done =
        Outline-result (Aside-refl P Inv entry (build_cache_key namespace key)) start reach done
      where
        start :
            IsOutlined Rely
              (IsBack v (life opts) (now_ms P w))
              (record { call = set_then_get namespace key v opts; tasks = ts; world = w })
        start = record {
          At = λ w'. Inv w' × (now_ms P w ≤ℤ now_ms P w');
          now = (i, omega arith);
          stable = Since-IsStable P Inv entry _ _;
          call = Outline-set_then_get opts (now_ms P w) writes;
          tasks = kept;
        }
