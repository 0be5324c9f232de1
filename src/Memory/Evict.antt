-- ===== src/Memory/Evict.antt =====
-- What eviction leaves in a HashMapStore (src/stores/memory.rs, maybe_evict).
use swr_cache.Base.{
  ℕ, zero, suc, ◌+◌, ◌-◌, ◌≤◌, ◌≡◌, refl, none, some, String, [], ◌∷◌, inl, inr, arith, length,
  take, drop, ◌∙◌, Option-cases, str_eq_iff,
}
use swr_cache.Base.Int.{ℤ, ltb_ℤ, ◌<ℤ◌}
use swr_cache.Base.Dict.{
  Dict, IsMap, lookup, remove, retain, lookup-remove, lookup-retain, IsMap-remove, IsMap-retain,
  length-remove,
}
use swr_cache.Base.Dict.Sort.{
  sort_by_key, lookup-sort_by_key, IsMap-sort_by_key, length-sort_by_key,
}
use swr_cache.Platform.{Serde}
use swr_cache.Entry.{StoredEntry, stale_until}
use swr_cache.Memory.{expiries, remove_all, drop_expired, drop_oldest, evict}
use mathlib.Core.Option
use Prim.Native.Nat.{min}

module _ {J : Serde} where
  lookup-expiries :
      (k : String) (m : Dict (StoredEntry J))
      → lookup k (expiries m) ≡ Option.map stale_until (lookup k m)
  unfolding lookup
  lookup-expiries k [] = refl
  lookup-expiries k ((j, v) ∷ m) = ground (arith, lookup-expiries k m)

  IsMap-expiries : (m : Dict (StoredEntry J)) → IsMap m → IsMap (expiries m)
  IsMap-expiries [] d = tt
  IsMap-expiries ((k, v) ∷ m) d = (rw (lookup-expiries k m) (rw d.0), IsMap-expiries m d.1)

  length-expiries : (m : Dict (StoredEntry J)) → length (expiries m) ≡ length m
  length-expiries [] = refl
  length-expiries ((k, v) ∷ m) = omega (arith, length-expiries m)

  -- `s` lists exactly the keys of `m`, each once, with the times of expiry.
  abbrev Lists : Dict ℤ → Dict (StoredEntry J) → Type 0
  Lists s m = (k : String) → lookup k s ≡ Option.map stale_until (lookup k m)

  Lists-remove :
      (k : String) (a : ℤ) (s : Dict ℤ) (m : Dict (StoredEntry J))
      → lookup k s ≡ none
      → IsMap m
      → Lists ((k, a) ∷ s) m
      → Lists s (remove k m)
  unfolding lookup
  Lists-remove k a s m h dm l j = ground (arith, str_eq_iff k j, l j, lookup-remove k j m dm)

  Lists-head :
      (k : String) (a : ℤ) (s : Dict ℤ) (m : Dict (StoredEntry J))
      → Lists ((k, a) ∷ s) m
      → length (remove k m) + 1 ≡ length m
  unfolding lookup
  Lists-head k a s m l = elim (Option-cases (lookup k m)) [
    | inl e ↦ absurd (ground (arith, str_eq_iff k k, l k))
    | inr (v, e) ↦ length-remove k m e
  ]

  -- Removing the first `n` keys of the list leaves what the rest of the list says.
  removed :
      (n : ℕ) (s : Dict ℤ) (m : Dict (StoredEntry J))
      → IsMap s
      → IsMap m
      → Lists s m
      → n ≤ length s
      → IsMap (remove_all (take n s) m)
        × Lists (drop n s) (remove_all (take n s) m)
        × (length (remove_all (take n s) m) + n ≡ length m)
  unfolding remove_all
  removed zero s m ds dm l h = (dm, l, omega arith)
  removed (suc n) [] m ds dm l h = absurd (omega arith)
  removed (suc n) ((k, a) ∷ s) m ds dm l h =
      let (map', lists, size) =
        removed n s (remove k m) ds.1 (IsMap-remove k m dm) (Lists-remove k a s m ds.0 dm l)
          (omega arith) in
      (map', lists, omega (arith, size, Lists-head k a s m l))

  -- A lookup among the entries that were kept finds what was there.
  lookup-remove_all :
      (ks : Dict ℤ) (j : String) (m : Dict (StoredEntry J)) {e : StoredEntry J}
      → IsMap m
      → lookup j (remove_all ks m) ≡ some e
      → lookup j m ≡ some e
  unfolding remove_all
  lookup-remove_all [] j m dm h = h
  lookup-remove_all ((k, a) ∷ ks) j m {e} dm h =
      let below = lookup-remove_all ks j (remove k m) {e = e} (IsMap-remove k m dm) h in
      ground (arith, below, lookup-remove k j m dm)

  -- The entries of a map in the order in which they expire.
  abbrev by_expiry : Dict (StoredEntry J) → Dict ℤ
  by_expiry m = sort_by_key (expiries m)

  Lists-by_expiry : (m : Dict (StoredEntry J)) → IsMap m → Lists (by_expiry m) m
  Lists-by_expiry m dm k =
      lookup-sort_by_key k (expiries m) (IsMap-expiries m dm) ∙ lookup-expiries k m

  -- What eviction by age leaves, where there are more entries than allowed.
  abbrev Kept : ℕ → Dict (StoredEntry J) → Type 0
  Kept n m =
      IsMap (remove_all (take n (by_expiry m)) m)
      × Lists (drop n (by_expiry m)) (remove_all (take n (by_expiry m)) m)
      × (length (remove_all (take n (by_expiry m)) m) + n ≡ length m)

  kept : (n : ℕ) (m : Dict (StoredEntry J)) → IsMap m → n ≤ length m → Kept n m
  kept n m dm h =
      removed n (by_expiry m) m (IsMap-sort_by_key _ (IsMap-expiries m dm)) dm
        (Lists-by_expiry m dm) (omega (arith, length-sort_by_key (expiries m), length-expiries m))

  drop_oldest-IsMap :
      (max_items : ℕ) (m : Dict (StoredEntry J)) → IsMap m → IsMap (drop_oldest max_items m)
  unfolding drop_oldest
  drop_oldest-IsMap max_items m dm = ground (arith, kept (length m - max_items) m dm)

  length-drop_oldest :
      (max_items : ℕ) (m : Dict (StoredEntry J))
      → IsMap m
      → length (drop_oldest max_items m) ≡ min max_items (length m)
  unfolding drop_oldest
  length-drop_oldest max_items m dm = ground (arith, kept (length m - max_items) m dm)

  lookup-drop_oldest :
      (max_items : ℕ) (m : Dict (StoredEntry J)) (j : String) {e : StoredEntry J}
      → IsMap m
      → lookup j (drop_oldest max_items m) ≡ some e
      → lookup j m ≡ some e
  unfolding drop_oldest
  lookup-drop_oldest max_items m j {e} dm h =
      ground (arith, lookup-remove_all (take (length m - max_items) (by_expiry m)) j m {e = e} dm)

module _ {J : Serde} (max_items : ℕ) (now : ℤ) (m : Dict (StoredEntry J)) (dm : IsMap m) where
  -- On a map, eviction leaves a map with as many entries as have not expired, or with exactly
  -- `max_items` if these are more.
  pub evict_size :
      IsMap (evict max_items now m)
      × (length (evict max_items now m) ≡ min max_items (length (drop_expired now m)))
  unfolding evict drop_expired
  evict_size =
      let live = IsMap-retain (λ v. ltb_ℤ now (stale_until v)) m dm in
      (drop_oldest-IsMap max_items _ live, length-drop_oldest max_items _ live)

  -- What eviction leaves was there before, under the same key, and has not expired.
  pub evict_sound :
      (k : String) {e : StoredEntry J}
      → lookup k (evict max_items now m) ≡ some e
      → (lookup k m ≡ some e) × (now <ℤ stale_until e)
  unfolding evict drop_expired
  evict_sound k {e} h =
      let live = λ (v : StoredEntry J). ltb_ℤ now (stale_until v) in
      let found = lookup-drop_oldest max_items (retain live m) k (IsMap-retain live m dm) h in
      ground (arith, found, lookup-retain live k m dm)
