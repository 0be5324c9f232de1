-- ===== src/Swr/Loads.antt =====
-- The deduplicated load of a SwrCache (src/swr.rs: deduplicated_load_from_origin).
use swr_cache.Base.{
  ◌≡◌, refl, ap, ◌∙◌, Bool, true, false, Option, none, some, String, ◌++◌, Result, ok,
  if◌then◌else◌,
}
use swr_cache.Base.Dict.{insert, remove, contains_key}
use swr_cache.Base.Cell.{update}
use swr_cache.Base.Async.{◌>>=◌, ret, modify}
use swr_cache.Base.Async.Exec.{Outcome, exec, andthen, exec-bind, result-bind}
use swr_cache.Platform.{Serde, Platform}
use swr_cache.Utils.{build_cache_key}
use swr_cache.Swr.Data.{SwrCache, Origin}
use swr_cache.Swr.{retry, load_marked, load_unless, deduplicated_load_from_origin}
use mathlib.Core.List.{append-nil}

module _ {J : Serde} {W : Type 0} {t : Serde.TypeId J} (c : SwrCache J W t) where
  -- Whether a load or a revalidation of the key is marked as running.
  abbrev pub marked : String → String → W → Bool
  marked namespace key w = contains_key (build_cache_key namespace key) (c.revalidating.read w)

  abbrev pub mark : String → String → W → W
  mark namespace key = update c.revalidating (insert (build_cache_key namespace key) none)

  abbrev pub unmark : String → String → W → W
  unmark namespace key = update c.revalidating (remove (build_cache_key namespace key))

module _ {J : Serde} {W : Type 0} (P : Platform W) {t : Serde.TypeId J} (c : SwrCache J W t) where
  module _ (namespace key : String) (load : Origin J W t) where
    -- One call of the origin, between mark and removal of the mark.
    abbrev pub called : W → Outcome W (Result String (Option (Serde.Val J t)))
    called w =
        let o = exec (load key) (mark c namespace key w) in
        record { result = ok o.result; world = unmark c namespace key o.world; spawned = o.spawned }

    exec-load_marked : (w : W) → exec (load_marked P c namespace key load) w ≡ called w
    unfolding load_marked
    exec-load_marked w =
        exec-bind (load key) (λ r. modify (unmark c namespace key) >>= λ _. ret (ok r))
          (mark c namespace key w)
        ∙ rw append-nil

    -- The load after the check of the mark.
    abbrev checked : Bool → W → Outcome W (Result String (Option (Serde.Val J t)))
    checked loading = exec (
        (if loading then retry P c namespace key else ret none)
        >>= load_unless P c namespace key load)

    exec-load_checked :
        (w : W)
        → exec (deduplicated_load_from_origin P c namespace key load) w
          ≡ checked (marked c namespace key w) w
    unfolding deduplicated_load_from_origin
    exec-load_checked w = refl

    -- With no other load of the key running the origin is called once, with the key itself, between
    -- the mark and its removal, and its answer is the result.
    pub load_unmarked :
        (w : W)
        → marked c namespace key w ≡ false
        → exec (deduplicated_load_from_origin P c namespace key load) w ≡ called w
    load_unmarked w free = exec-load_checked w ∙ ap (λ b. checked b w) free ∙ exec-load_marked w

    module _ (w : W) (running : marked c namespace key w ≡ true) where
      abbrev second : Outcome W (Option (Serde.Val J t))
      second = exec (retry P c namespace key) w

      load_checked_second :
          exec (deduplicated_load_from_origin P c namespace key load) w
          ≡ andthen second (load_unless P c namespace key load)
      load_checked_second =
          exec-load_checked w
          ∙ ap (λ b. checked b w) running
          ∙ exec-bind (retry P c namespace key) (load_unless P c namespace key load) w

      -- While another load of the key is marked, a value that the store has after the wait is the
      -- result, whatever its age, and the origin is not called.
      pub load_joined :
          {v : Serde.Val J t}
          → second.result ≡ some v
          → exec (deduplicated_load_from_origin P c namespace key load) w
            ≡ record { result = ok (some v); world = second.world; spawned = second.spawned }
      load_joined {v} found =
          load_checked_second
          ∙ ap (λ r. andthen (record second { result = r }) (load_unless P c namespace key load))
              found
          ∙ rw append-nil

      -- If the store has nothing after the wait, the origin is called in spite of the mark.
      pub load_again :
          second.result ≡ none
          → exec (deduplicated_load_from_origin P c namespace key load) w
            ≡ record (called second.world) {
              spawned = second.spawned ++ (called second.world).spawned;
            }
      load_again missed =
          load_checked_second
          ∙ ap (λ r. andthen (record second { result = r }) (load_unless P c namespace key load))
              missed
          ∙ ap
              (λ (o : Outcome W (Result String (Option (Serde.Val J t)))). record o {
                spawned = second.spawned ++ o.spawned;
              })
              (exec-load_marked second.world)

    checked_ok :
        (o : Option (Serde.Val J t)) (w : W)
        → (r : Option (Serde.Val J t)) × ((exec (load_unless P c namespace key load o) w).result
            ≡ ok r)
    checked_ok (some v) w = (some v, refl)
    checked_ok none w = (
      (exec (load key) (mark c namespace key w)).result,
      ap (λ (o : Outcome W (Result String (Option (Serde.Val J t)))). o.result)
          (exec-load_marked w),
    )

    -- The load never fails.
    pub load_ok :
        (w : W)
        → (r : Option (Serde.Val J t)) × ((exec
              (deduplicated_load_from_origin P c namespace key load)
              w).result
            ≡ ok r)
    unfolding deduplicated_load_from_origin
    load_ok w =
        let first = if marked c namespace key w then retry P c namespace key else ret none in
        let o = exec first w in
        let (r, e) = checked_ok o.result o.world in
        (r, result-bind first (load_unless P c namespace key load) w ∙ e)
