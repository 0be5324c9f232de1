-- ===== src/Tiered/FirstHit.antt =====
-- Which tier answers a read of a TieredStore (src/tiered.rs: get).
use swr_cache.Base.{
  ℕ, suc, ◌+◌, ◌≡◌, refl, ap, ◌∙◌, true, false, Option, none, some, String, List, [], ◌∷◌, ◌++◌,
  Result, ok, err, ltb, length, take, arith, if◌then◌else◌,
}
use swr_cache.Base.Async.{task_of, ◌>>◌, ret, spawn}
use swr_cache.Base.Async.Exec.{Outcome, exec}
use swr_cache.Platform.{Serde}
use swr_cache.Error.{CacheError}
use swr_cache.Entry.{StoredEntry}
use swr_cache.Store.{Store}
use swr_cache.Tiered.{is_empty, TieredStore, populate, hit, get_from, get}
use mathlib.Core.List.{append-nil}
use swr_cache.Tiered.Reads.{
  read, AllMiss, after, spawned_by, filling, from, get_from-read, get_from-misses, get_from-AllMiss,
}

module _ {J : Serde} {W : Type 0} (namespace key : String) where
  take-before : (before rest : List (Store J W)) → take (length before) (before ++ rest) ≡ before
  take-before [] rest = refl
  take-before (tier ∷ before) rest = ap (◌∷◌ tier) (take-before before rest)

  exec-hit :
      (before rest : List (Store J W)) (e : StoredEntry J) (w : W)
      → exec (hit (before ++ rest) (0 + length before) namespace key e) w
        ≡ record { result = ok (some e); world = w; spawned = filling namespace key before e }
  unfolding hit
  exec-hit [] rest e w = refl
  exec-hit (tier ∷ before) rest e w =
      let all = tier ∷ before ++ rest in
      let n : ℕ = 0 + suc (length before) in
      let count : n ≡ suc (length before) = omega arith in
      let far : ltb 0 n ≡ true = ground arith in
      let taken : take n all ≡ tier ∷ before = rw count (take-before (tier ∷ before) rest) in
      ap
        (λ b.
          exec
            (if b
              then spawn (populate namespace key e (take n all)) >> ret (ok (some e))
              else ret (ok (some e)))
            w)
        far
      ∙ ap
          (λ (l : List (Store J W)). record {
            result = ok (some e);
            world = w;
            spawned = task_of (populate namespace key e l) ∷ [];
          })
          taken

  not-is_empty :
      (before rest : List (Store J W)) (tier : Store J W) → is_empty (before ++ tier ∷ rest) ≡ false
  not-is_empty [] rest tier = refl
  not-is_empty (_ ∷ before) rest tier = refl

  -- A read of the tiers, with the test for none at all.
  abbrev read_tiers : List (Store J W) → W → Outcome W (Result CacheError (Option (StoredEntry J)))
  read_tiers tiers w =
      exec (if is_empty tiers then ret (ok none) else get_from tiers 0 tiers namespace key) w

  module _ (s : TieredStore J W) (w : W) where
    get-from :
        (before : List (Store J W)) (tier : Store J W) (rest : List (Store J W))
        → s.tiers ≡ before ++ tier ∷ rest
        → AllMiss namespace key before w
        → exec (get s namespace key) w
          ≡ from namespace key
              (before ++ tier ∷ rest)
              (0 + length before)
              (tier ∷ rest)
              (spawned_by namespace key before w)
              (after namespace key before w)
    unfolding get
    get-from before tier rest split miss =
        let all = before ++ tier ∷ rest in
        ap (λ tiers. read_tiers tiers w) split
        ∙ ap (λ b. exec (if b then ret (ok none) else get_from all 0 all namespace key) w)
            (not-is_empty before rest tier)
        ∙ get_from-misses namespace key all before (tier ∷ rest) 0 w miss

    -- The tiers are read in order up to the first that has an entry, which is the answer. If that is
    -- not the first tier, one task is spawned: to write the entry to the tiers before it.
    pub get_first_hit :
        (before : List (Store J W)) (tier : Store J W) (rest : List (Store J W)) (e : StoredEntry J)
        → s.tiers ≡ before ++ tier ∷ rest
        → AllMiss namespace key before w
        → (read namespace key tier (after namespace key before w)).result ≡ ok (some e)
        → let o = read namespace key tier (after namespace key before w) in
          exec (get s namespace key) w ≡ record {
            result = ok (some e);
            world = o.world;
            spawned =
                spawned_by namespace key before w ++ (o.spawned ++ filling namespace key before e);
          }
    get_first_hit before tier rest e split miss found =
        let w' = after namespace key before w in
        get-from before tier rest split miss
        ∙ ap
            (λ (o : Outcome W (Result CacheError (Option (StoredEntry J)))). record o {
              spawned = spawned_by namespace key before w ++ o.spawned;
            })
            (get_from-read namespace key (before ++ tier ∷ rest) rest tier (0 + length before) w'
                found
              ∙ ap
                  (λ (p : Outcome W (Result CacheError (Option (StoredEntry J)))). record p {
                    spawned = (read namespace key tier w').spawned ++ p.spawned;
                  })
                  (exec-hit before (tier ∷ rest) e (read namespace key tier w').world))

    -- An error from a tier, after tiers that miss, is the answer; the tiers behind it are not read,
    -- and no tier is filled.
    pub get_first_error :
        (before : List (Store J W)) (tier : Store J W) (rest : List (Store J W)) (x : CacheError)
        → s.tiers ≡ before ++ tier ∷ rest
        → AllMiss namespace key before w
        → (read namespace key tier (after namespace key before w)).result ≡ err x
        → let o = read namespace key tier (after namespace key before w) in
          exec (get s namespace key) w ≡ record {
            result = err x;
            world = o.world;
            spawned = spawned_by namespace key before w ++ o.spawned;
          }
    get_first_error before tier rest x split miss failed =
        let w' = after namespace key before w in
        get-from before tier rest split miss
        ∙ ap
            (λ (o : Outcome W (Result CacheError (Option (StoredEntry J)))). record o {
              spawned = spawned_by namespace key before w ++ o.spawned;
            })
            (get_from-read namespace key (before ++ tier ∷ rest) rest tier (0 + length before) w'
                failed
              ∙ (rw append-nil))

    -- Where every tier misses, so does the whole, and nothing is filled.
    pub get-AllMiss :
        AllMiss namespace key s.tiers w
        → exec (get s namespace key) w ≡ record {
          result = ok none;
          world = after namespace key s.tiers w;
          spawned = spawned_by namespace key s.tiers w;
        }
    unfolding get
    get-AllMiss miss = all_miss s.tiers miss
      where
        all_miss :
            (tiers : List (Store J W))
            → AllMiss namespace key tiers w
            → read_tiers tiers w ≡ record {
              result = ok none;
              world = after namespace key tiers w;
              spawned = spawned_by namespace key tiers w;
            }
        all_miss [] miss' = refl
        all_miss (tier ∷ tiers) miss' =
            get_from-AllMiss namespace key (tier ∷ tiers) (tier ∷ tiers) 0 w miss'
