-- ===== src/Store/Keyed.antt =====
-- What a store may be relied on while other keys are in use (src/store.rs).
use swr_cache.Base.{
  ◌≡◌, refl, true, false, Option, none, some, String, List, ok, Result, str_eq, ◌⊎◌, arith,
}
use swr_cache.Base.Int.{ℤ, ◌≤ℤ◌}
use swr_cache.Base.Async.Guarantee.{Guarantees}
use swr_cache.Base.Async.Outline.{Outline, IsStable}
use swr_cache.Platform.{Serde, Platform}
use swr_cache.Utils.{build_cache_key, now_ms}
use swr_cache.Error.{CacheError}
use swr_cache.Entry.{StoredEntry, is_expired, convert_for_mode}
use swr_cache.Store.{Store}
use swr_cache.Store.Laws.{mentions}

module _ {J : Serde} {W : Type 0} (P : Platform W) (Inv : W → Type 0)
    (entry : W → String → Option (StoredEntry J)) where
  -- What stands under the key stays as it is, and the clock does not go back.
  abbrev pub Aside : String → W → W → Type 0
  Aside k w w' = Inv w → Inv w' × (entry w' k ≡ entry w k) × (now_ms P w ≤ℤ now_ms P w')

  pub Aside-refl : (k : String) (w : W) → Aside k w w
  Aside-refl k w i = (i, refl, omega arith)

  -- That the store is well formed and that it is not before a time is not undone.
  pub Since-IsStable : (k : String) (n : ℤ) → IsStable (Aside k) (λ w. Inv w × (n ≤ℤ now_ms P w))
  Since-IsStable k n w w' aside q = ((aside q.0).0, ground (arith, (aside q.0).2))

  -- The store holds this entry under the key, not before the time `n`.
  abbrev pub Has : String → StoredEntry J → ℤ → W → Type 0
  Has k e n w = Inv w × (entry w k ≡ some e) × (n ≤ℤ now_ms P w)

  -- A read of the entry gave it, or the entry has expired and the read gave nothing.
  abbrev pub Gave : StoredEntry J → ℤ → Result CacheError (Option (StoredEntry J)) → W → Type 0
  Gave e n r w =
      Inv w
      × (n ≤ℤ now_ms P w)
      × ((r ≡ ok (some e)) ⊎ ((r ≡ ok none) × (is_expired e (now_ms P w) ≡ true)))

  -- Segments of calls on other keys leave a key aside, and beside such segments a write puts its
  -- entry under its key and a read gives what stands there, or comes too late.
  pub record IsKeyed (S : Store J W) : Type 1 where
    pub writes :
        (namespace key : String) (e : StoredEntry J) (n : ℤ)
        → convert_for_mode e S.storage_mode ≡ ok e
        → let k = build_cache_key namespace key in
          Outline
            (Aside k)
            (λ r w. (r ≡ ok tt) × Has k e n w)
            (λ w. Inv w × (n ≤ℤ now_ms P w))
            (S.set namespace key e)
    pub reads :
        (namespace key : String) (e : StoredEntry J) (n : ℤ)
        → let k = build_cache_key namespace key in
          Outline (Aside k) (Gave e n) (Has k e n) (S.get namespace key)
    pub gets_aside :
        (k namespace key : String)
        → str_eq (build_cache_key namespace key) k ≡ false
        → Guarantees (Aside k) (S.get namespace key)
    pub sets_aside :
        (k namespace key : String) (e : StoredEntry J)
        → str_eq (build_cache_key namespace key) k ≡ false
        → Guarantees (Aside k) (S.set namespace key e)
    pub removes_aside :
        (k namespace : String) (keys : List String)
        → mentions namespace keys k ≡ false
        → Guarantees (Aside k) (S.remove namespace keys)
