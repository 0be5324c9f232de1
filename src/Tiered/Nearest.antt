-- ===== src/Tiered/Nearest.antt =====
-- A TieredStore whose first tier keeps the entries of different keys apart, whatever the others do in
-- their own memory (src/tiered.rs: set, get).
use swr_cache.Base.{
  ◌≡◌, refl, ap, sym, subst, ◌⊎◌, inl, inr, arith, true, Option, some, String, List, [], ◌∷◌, map,
  Result, ok, err, All, arith,
}
use swr_cache.Base.Int.{ℤ, ◌≤ℤ◌}
use swr_cache.Base.Async.Exec.{exec}
use swr_cache.Base.Async.Guarantee.{Guarantees, returns}
use swr_cache.Base.Async.Outline.{Outline, Outline-bind, Outline-exec}
use swr_cache.Base.Async.Outline.{returns as o_returns}
use swr_cache.Base.Async.Join.First.{Join-first}
use swr_cache.Platform.{Serde, Platform, JoinsAll}
use swr_cache.Utils.{build_cache_key, now_ms}
use swr_cache.Error.{CacheError}
use swr_cache.Entry.{StoredEntry, is_expired, convert_for_mode}
use swr_cache.Store.{Store}
use swr_cache.Store.Keyed.{Aside, Since-IsStable, Has, IsKeyed}
use swr_cache.Store.Written.{convert-converted}
use swr_cache.Tiered.{TieredStore, set_tier, get, set}
use swr_cache.Tiered.FirstHit.{get_first_hit}
use swr_cache.Tiered.Writes.{write_converted}

module _ {J : Serde} {W : Type 0} (P : Platform W) (Inv : W → Type 0)
    (entry : W → String → Option (StoredEntry J)) (namespace key : String) where
  abbrev pub Kept : W → W → Type 0
  Kept = Aside P Inv entry (build_cache_key namespace key)

  -- Writes of the key in this store leave what the first tier holds under it.
  abbrev pub LeavesAlone : Store J W → Type 0
  LeavesAlone S = (e : StoredEntry J) → Guarantees Kept (S.set namespace key e)

module _ {J : Serde} {W : Type 0} (P : Platform W) (near : Store J W) (Inv : W → Type 0)
    (entry : W → String → Option (StoredEntry J)) (keyed : IsKeyed P Inv entry near)
    (namespace key : String) where
  abbrev Rely : W → W → Type 0
  Rely = Kept P Inv entry namespace key

  abbrev Alone : Store J W → Type 0
  Alone = LeavesAlone P Inv entry namespace key

  converted_write :
      (tier : Store J W) (r : Result CacheError (StoredEntry J))
      → Alone tier
      → Guarantees Rely (write_converted namespace key tier r)
  converted_write tier (ok e) alone = alone e
  converted_write tier (err x) alone = returns

  rest_writes :
      (e : StoredEntry J) (rest : List (Store J W))
      → All Alone rest
      → All (Guarantees Rely) (map (set_tier namespace key e) rest)
  unfolding set_tier
  rest_writes e [] alone = tt
  rest_writes e (tier ∷ rest) alone = (
    converted_write tier (convert_for_mode e tier.storage_mode) alone.0,
    rest_writes e rest alone.1,
  )

  module _ (e e' : StoredEntry J) (taken : convert_for_mode e near.storage_mode ≡ ok e')
      (n : ℤ) where
    abbrev There : W → Type 0
    There = Has P Inv entry (build_cache_key namespace key) e' n

    near_write :
        Outline Rely
          (λ r w. (r ≡ ok tt) × There w)
          (λ w. Inv w × (n ≤ℤ now_ms P w))
          (set_tier namespace key e near)
    unfolding set_tier
    near_write =
        subst
          (λ r.
            Outline Rely (λ a w. (a ≡ ok tt) × There w) (λ w. Inv w × (n ≤ℤ now_ms P w))
              (write_converted namespace key near r))
          (sym taken)
          (keyed.writes namespace key e' n (convert-converted e e' near.storage_mode taken))

    Outline-set :
        (joins : JoinsAll P) (rest : List (Store J W))
        → All Alone rest
        → let s : TieredStore J W = record { tiers = near ∷ rest } in
          Outline Rely (λ r w. There w) (λ w. Inv w × (n ≤ℤ now_ms P w)) (set P s namespace key e)
    unfolding set
    Outline-set joins rest alone =
        Outline-bind
          (Join-first (joins.joined (map (set_tier namespace key e) (near ∷ rest))) refl near_write
            (Since-IsStable P Inv entry (build_cache_key namespace key) n)
            (rest_writes e rest alone))
          (λ rs. o_returns (λ w q. q.3.1))

  -- Where the first tier keeps the entries of different keys apart and the writes of the others leave
  -- what it holds alone, a read right after a write gives the entry in the first tier's form, or the
  -- first tier finds that it has expired. The other tiers may fail: then the write ends in an error,
  -- and the read gives the entry all the same.
  pub get-set_nearest :
      (joins : JoinsAll P) (rest : List (Store J W)) (w : W) (e e' : StoredEntry J)
      → All Alone rest
      → Inv w
      → convert_for_mode e near.storage_mode ≡ ok e'
      → let s : TieredStore J W = record { tiers = near ∷ rest } in
        let w' = (exec (set P s namespace key e) w).world in
        ((exec (get s namespace key) w').result ≡ ok (some e'))
        ⊎ (is_expired e' (now_ms P (exec (near.get namespace key) w').world) ≡ true)
  get-set_nearest joins rest w e e' alone inv taken =
      let s : TieredStore J W = record { tiers = near ∷ rest } in
      let w' = (exec (set P s namespace key e) w).world in
      let n = now_ms P w in
      let there = Outline-exec (Outline-set e e' taken n joins rest alone) w (inv, omega arith) in
      elim ((Outline-exec (keyed.reads namespace key e' n) w' there).2) [
        | inl found ↦
            inl
              (ap (λ o. o.result) (get_first_hit namespace key s w' [] near rest e' refl tt found))
        | inr (missed, late) ↦ inr late
      ]
