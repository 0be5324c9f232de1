-- ===== src/Tiered/Failures.antt =====
-- The result of a write to all tiers, where some fail (src/tiered.rs: set).
use swr_cache.Base.{◌≡◌, refl, String, List, [], ◌∷◌, ◌++◌, map, Result, ok, err, All}
use swr_cache.Base.Async.Safe.{Ensures, Ensures-bind, returns}
use swr_cache.Base.Async.Join.Each.{Hold, Each, Join-Each}
use swr_cache.Platform.{Serde, Platform, JoinsAll}
use swr_cache.Error.{CacheError}
use swr_cache.Entry.{StoredEntry}
use swr_cache.Store.{Store}
use swr_cache.Tiered.{first_error, set_tier, set}

abbrev Answer : Type 0
Answer = Result CacheError (Unit {0})

-- Answers that are in order, one for each of these.
abbrev fine : {T : Type 0} → List T → List (Answer → Type 0) → List (Answer → Type 0)
fine [] Qs = Qs
fine (_ ∷ before) Qs = (λ r. r ≡ ok tt) ∷ fine before Qs

-- Any answers, one for each of these.
abbrev any : {T : Type 0} → List T → List (Answer → Type 0)
any [] = []
any (_ ∷ after) = (λ r. Unit {0}) ∷ any after

error_first :
    {T : Type 0} (x : CacheError) (before : List T) (Qs : List (Answer → Type 0)) (rs : List Answer)
    → Hold (fine before ((λ r. r ≡ err x) ∷ Qs)) rs
    → first_error rs ≡ err x
unfolding first_error
error_first x [] Qs [] h = absurd h
error_first x [] Qs (r ∷ rs) h = rw (h.0) refl
error_first x (_ ∷ before) Qs [] h = absurd h
error_first x (_ ∷ before) Qs (r ∷ rs) h = rw (h.0) (error_first x before Qs rs h.1)

module _ {J : Serde} {W : Type 0} (Inv : W → Type 0) (namespace key : String)
    (e : StoredEntry J) where
  -- The write of the entry to this tier keeps the invariant, and its answer has the property.
  abbrev pub Writes : (Answer → Type 0) → Store J W → Type 0
  Writes Q tier = Ensures Inv Q (set_tier namespace key e tier)

  Each-any :
      (after : List (Store J W))
      → All (Writes (λ r. Unit {0})) after
      → Each Inv (any after) (map (set_tier namespace key e) after)
  Each-any [] h = tt
  Each-any (tier ∷ after) h = (h.0, Each-any after h.1)

  Each-fine :
      (before rest : List (Store J W)) (Qs : List (Answer → Type 0))
      → All (Writes (λ r. r ≡ ok tt)) before
      → Each Inv Qs (map (set_tier namespace key e) rest)
      → Each Inv (fine before Qs) (map (set_tier namespace key e) (before ++ rest))
  Each-fine [] rest Qs h h' = h'
  Each-fine (tier ∷ before) rest Qs h h' = (h.0, Each-fine before rest Qs h.1 h')

  -- A write to all tiers, in whatever order their segments fall and whatever runs beside them: where
  -- the tiers before one succeed and that one fails with an error, the write ends in this error,
  -- whatever the tiers after it answer.
  pub set_first_error :
      (P : Platform W) (joins : JoinsAll P) (before : List (Store J W)) (tier : Store J W)
      (after : List (Store J W)) (x : CacheError)
      → All (Writes (λ r. r ≡ ok tt)) before
      → Writes (λ r. r ≡ err x) tier
      → All (Writes (λ r. Unit {0})) after
      → Ensures Inv
          (λ r. r ≡ err x)
          (set P (record { tiers = before ++ tier ∷ after }) namespace key e)
  unfolding set
  set_first_error P joins before tier after x fine_before fails any_after =
      Ensures-bind
        (Join-Each (fine before ((λ r. r ≡ err x) ∷ any after))
          (joins.joined (map (set_tier namespace key e) (before ++ tier ∷ after)))
          (Each-fine before (tier ∷ after) ((λ r. r ≡ err x) ∷ any after) fine_before
            (fails, Each-any after any_after)))
        (λ rs h. returns (error_first x before (any after) rs h))
