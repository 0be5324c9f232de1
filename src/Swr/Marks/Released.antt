-- ===== src/Swr/Marks/Released.antt =====
-- When all calls have ended, no key is marked (src/swr.rs).
use swr_cache.Base.{
  ℕ, ◌≡◌, false, Bool-cases, inl, inr, Option, String, List, [], ◌∷◌, map, Result, All,
}
use swr_cache.Base.Dict.{IsMap}
use swr_cache.Base.Cell.{IsCell}
use swr_cache.Base.Async.{Task, finished, ret, task_of}
use swr_cache.Base.Async.Interleave.{Reach}
use swr_cache.Base.Async.Guarantee.{Guarantees}
use swr_cache.Base.Async.Debt.{TaskOwes-task_of}
use swr_cache.Base.Async.Ledger.{Account, IsBalanced, Reach-IsBalanced, ended-Held}
use swr_cache.Platform.{Serde, Platform}
use swr_cache.Error.{CacheError}
use swr_cache.Store.Guarantee.{StoreGuarantees}
use swr_cache.Swr.Data.{SwrCache, Origin}
use swr_cache.Swr.Loads.{marked}
use swr_cache.Swr.{swr}
use swr_cache.Swr.Marks.{SameMarks, MarksIsMap, IsMarked}
use swr_cache.Swr.Marks.Calls.{Settles-swr}

-- A call of `swr`: namespace, key and origin.
pub record Request (J : Serde) (W : Type 0) (t : Serde.TypeId J) : Type 0 where
  pub namespace : String
  pub key : String
  pub load : Origin J W t

module _ {J : Serde} {W : Type 0} (P : Platform W) {t : Serde.TypeId J} (c : SwrCache J W t) where
  -- The calls of other clients, as tasks.
  abbrev pub clients : List (Request J W t) → List (Task W)
  clients requests =
      map (λ (q : Request J W t). task_of (swr P c q.namespace q.key q.load)) requests

  -- The origin does not touch the marks.
  abbrev pub IsApart : Request J W t → Type 0
  IsApart q = Guarantees (SameMarks c) (q.load q.key)

  module _ (cell : IsCell c.revalidating) (store : StoreGuarantees c.store (SameMarks c))
      (sleeps : (n : ℕ) → Guarantees (SameMarks c) (Platform.sleep P n))
      (namespace key : String) where
    clients-Account :
        (requests : List (Request J W t))
        → All IsApart requests
        → All
            (Account (MarksIsMap c cell namespace key) (IsMarked c cell namespace key))
            (clients requests)
    clients-Account [] h = tt
    clients-Account (q ∷ qs) h = (
      (
        false,
        TaskOwes-task_of
            (Settles-swr P c store q.namespace q.key sleeps cell namespace key q.load h.0),
      ),
      clients-Account qs h.1,
    )

    -- Any number of calls of `swr`, with any keys and origins, in any order of their segments and of
    -- those of the revalidations that they spawn: when all of them have ended, no key is marked that
    -- was not marked before. So no mark is forgotten, and no later load waits for one that is gone,
    -- also where origins give nothing, writes fail, or two loads of one key run at once.
    pub marks_released :
        (request : Request J W t) (others : List (Request J W t)) (w w' : W)
        (answer : Result CacheError (Option (Serde.Val J t))) (ts : List (Task W))
        → IsApart request
        → All IsApart others
        → IsMap (c.revalidating.read w)
        → marked c namespace key w ≡ false
        → Reach
            (record {
              call = swr P c request.namespace request.key request.load;
              tasks = clients others;
              world = w;
            })
            (record { call = ret answer; tasks = ts; world = w' })
        → All (λ t. t ≡ finished) ts
        → marked c namespace key w' ≡ false
    marks_released request others w w' answer ts apart all_apart i free reach done =
        elim (Bool-cases (marked c namespace key w')) [
          | inl held ↦ absurd (
              ended-Held (MarksIsMap c cell namespace key) (IsMarked c cell namespace key) ts w'
                (Reach-IsBalanced _ _ start reach) done held)
          | inr released ↦ released
        ]
      where
        start :
            IsBalanced (MarksIsMap c cell namespace key) (IsMarked c cell namespace key) (record {
              call = swr P c request.namespace request.key request.load;
              tasks = clients others;
              world = w;
            })
        start = record {
          own_debt = false;
          call =
              Settles-swr P c store request.namespace request.key sleeps cell namespace key
                request.load apart;
          tasks = clients-Account others all_apart;
          world = i;
          held = λ held. cc;
        }
