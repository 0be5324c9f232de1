-- ===== src/Swr/Reads.antt =====
-- What a read of a SwrCache makes of what the store answers (src/swr.rs: get_internal, get).
use swr_cache.Base.{
  ◌≡◌, refl, ap, ◌∙◌, false, Option, none, some, String, [], Result, ok, err, arith,
}
use swr_cache.Base.Int.{ℤ}
use swr_cache.Base.Async.{Async, ret}
use swr_cache.Base.Async.Exec.{Outcome, exec, exec-bind_pure}
use swr_cache.Platform.{Serde, Platform}
use swr_cache.Utils.{now_ms}
use swr_cache.Error.{CacheError}
use swr_cache.Entry.{Entry, StoredEntry, into_typed}
use swr_cache.Swr.Data.{SwrCache, GetResult, classify}
use swr_cache.Swr.Direct.{stored_result, typed_result, get_internal, get}

abbrev pub aged : {V : Type 0} → Result CacheError (Entry V) → ℤ → Result CacheError (GetResult V)
aged (ok entry) now = ok (classify entry now)
aged (err e) now = err e

abbrev pub values : {V : Type 0} → Result CacheError (GetResult V) → Result CacheError (Option V)
values (ok r) = ok r.value
values (err e) = err e

-- The answer of `get_internal` to what the store answered, at the time `now`.
abbrev pub internal :
    {J : Serde} (t : Serde.TypeId J)
    → Result CacheError (Option (StoredEntry J))
    → ℤ
    → Result CacheError (GetResult (Serde.Val J t))
internal t (ok (some stored)) now = aged (into_typed t stored) now
internal t (ok none) now = ok (record { value = none; revalidate = false; is_expired = false })
internal t (err e) now = err e

-- The answer of `get` to what the store answered: the value, whatever its age.
abbrev pub value_of : {V : Type 0} → Result CacheError (Entry V) → Result CacheError (Option V)
value_of (ok entry) = ok (some entry.value)
value_of (err e) = err e

abbrev pub read_back :
    {J : Serde} (t : Serde.TypeId J)
    → Result CacheError (Option (StoredEntry J))
    → Result CacheError (Option (Serde.Val J t))
read_back t (ok (some stored)) = value_of (into_typed t stored)
read_back t (ok none) = ok none
read_back t (err e) = err e

module _ {W V : Type 0} (P : Platform W) where
  exec-typed_result :
      (r : Result CacheError (Entry V)) (w : W)
      → exec (typed_result P r) w ≡ record { result = aged r (now_ms P w); world = w; spawned = [] }
  exec-typed_result (ok entry) w = refl
  exec-typed_result (err e) w = refl

pub value-classify :
    {V : Type 0} (entry : Entry V) (now : ℤ) → (classify entry now).value ≡ some entry.value
unfolding classify
value-classify entry now = ground arith

values-aged :
    {V : Type 0} (r : Result CacheError (Entry V)) (now : ℤ) → values (aged r now) ≡ value_of r
values-aged (ok entry) now = ap ok (value-classify entry now)
values-aged (err e) now = refl

values-internal :
    {J : Serde} (t : Serde.TypeId J) (r : Result CacheError (Option (StoredEntry J))) (now : ℤ)
    → values (internal t r now) ≡ read_back t r
values-internal t (err e) now = refl
values-internal t (ok none) now = refl
values-internal t (ok (some e)) now = values-aged (into_typed t e) now

abbrev after_internal :
    {W V : Type 0} → Result CacheError (GetResult V) → Async W (Result CacheError (Option V))
after_internal r = elim r [ ok a ↦ ret (ok a.value) | err e ↦ ret (err e) ]

exec-after_internal :
    {W V : Type 0} (r : Result CacheError (GetResult V)) (w : W)
    → exec (after_internal r) w ≡ record { result = values r; world = w; spawned = [] }
exec-after_internal (ok r) w = refl
exec-after_internal (err e) w = refl

module _ {J : Serde} {W : Type 0} (P : Platform W) {t : Serde.TypeId J} where
  abbrev answered :
      Outcome W (Result CacheError (Option (StoredEntry J)))
      → Outcome W (Result CacheError (GetResult (Serde.Val J t)))
  answered o = record {
    result = internal t o.result (now_ms P o.world);
    world = o.world;
    spawned = o.spawned;
  }

  abbrev after_store :
      Result CacheError (Option (StoredEntry J))
      → Async W (Result CacheError (GetResult (Serde.Val J t)))
  after_store r = elim r [ ok a ↦ stored_result P a | err e ↦ ret (err e) ]

  exec-after_store :
      (r : Result CacheError (Option (StoredEntry J))) (w : W)
      → exec (after_store r) w
        ≡ record { result = internal t r (now_ms P w); world = w; spawned = [] }
  exec-after_store (err e) w = refl
  exec-after_store (ok none) w = refl
  exec-after_store (ok (some e)) w = exec-typed_result P (into_typed t e) w

  -- `get_internal` reads the store once, then the clock, and does nothing else.
  pub exec-get_internal :
      (c : SwrCache J W t) (namespace key : String) (w : W)
      → exec (get_internal P c namespace key) w ≡ answered (exec (c.store.get namespace key) w)
  unfolding get_internal
  exec-get_internal c namespace key w =
      exec-bind_pure (c.store.get namespace key) after_store (λ r v. internal t r (now_ms P v)) w
        exec-after_store

  -- `get` answers with the value that the store has, also where the entry has expired; its effects
  -- are those of the store's read.
  pub exec-get :
      (c : SwrCache J W t) (namespace key : String) (w : W)
      → let o = exec (c.store.get namespace key) w in
        exec (get P c namespace key) w
        ≡ record { result = read_back t o.result; world = o.world; spawned = o.spawned }
  unfolding get
  exec-get c namespace key w =
      let o = exec (c.store.get namespace key) w in
      exec-bind_pure (get_internal P c namespace key) after_internal (λ r _. values r) w
        exec-after_internal
      ∙ rw (exec-get_internal c namespace key w)
          (rw (values-internal t o.result (now_ms P o.world)))
