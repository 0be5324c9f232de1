-- ===== src/Memory/Keyed.antt =====
-- What a HashMapStore may be relied on while other keys are in use (src/stores/memory.rs).
use swr_cache.Base.{
  ◌≡◌, refl, ◌∙◌, Bool, true, false, Option, none, some, String, ok, inl, inr, arith, str_eq,
}
use swr_cache.Base.Int.{ℤ, ◌≤ℤ◌}
use swr_cache.Base.Dict.{
  Dict, IsMap, lookup, insert, remove, lookup-insert, lookup-remove, IsMap-insert, IsMap-remove,
}
use swr_cache.Base.Cell.{IsCell, update}
use swr_cache.Base.Async.Guarantee.{Guarantees, returns, steps, Guarantees-if}
use swr_cache.Base.Async.Outline.{Outline, steps as o_steps, returns as o_returns}
use swr_cache.Platform.{Serde, Platform}
use swr_cache.Utils.{build_cache_key, now_ms}
use swr_cache.Entry.{StoredEntry, is_expired}
use swr_cache.Store.Keyed.{Aside, Aside-refl, Since-IsStable, Has, Gave, IsKeyed}
use swr_cache.Memory.{
  HashMapStore, serve, get, set, maybe_evict, remove_keys, remove_all_keys, hash_map_store,
}
use text.Mathlib.TextPositions.{eq_refl as str_eq_refl}
use swr_cache.Memory.Access.{IsMap-remove_keys, lookup-remove_keys}
use swr_cache.Memory.Lawful.{KeepsClock}

module _ {J : Serde} {W : Type 0} {P : Platform W} (s : HashMapStore J P) where
  abbrev pub IsMapAt : W → Type 0
  IsMapAt w = IsMap (s.state.read w)

  -- The entry that the map holds under a key, expired or not.
  abbrev pub held : W → String → Option (StoredEntry J)
  held w k = lookup k (s.state.read w)

  module _ (cell : IsCell s.state) (clock : KeepsClock s) where
    update-Aside :
        (k : String) (f : Dict (StoredEntry J) → Dict (StoredEntry J))
        → ((m : Dict (StoredEntry J)) → IsMap m → IsMap (f m) × (lookup k (f m) ≡ lookup k m))
        → (w : W) → Aside P IsMapAt held k w (update s.state f w)
    update-Aside k f keeps w i =
        rw (cell.read-write (f (s.state.read w)) w, clock (f (s.state.read w)) w)
          ((keeps _ i).0, (keeps _ i).1, omega arith)

    remove-Aside :
        (k key : String) (w : W)
        → str_eq key k ≡ false
        → Aside P IsMapAt held k w (update s.state (remove key) w)
    remove-Aside k key w ne =
        update-Aside k (remove key)
          (λ m d. (IsMap-remove key m d, rw (lookup-remove key k m d, ne) refl)) w

    Guarantees-serve_other :
        (k key : String) (found : Option (StoredEntry J) × ℤ)
        → str_eq key k ≡ false
        → Guarantees (Aside P IsMapAt held k) (serve s key found)
    Guarantees-serve_other k key (none, now) ne = returns
    Guarantees-serve_other k key (some e, now) ne =
        Guarantees-if (is_expired e now) (steps (λ w. remove-Aside k key w ne) (λ w. returns))
          returns

    -- A read that found the entry gives it, or finds that it has expired.
    Outline-serve :
        (key : String) (e : StoredEntry J) (n now : ℤ)
        → n ≤ℤ now
        → (b : Bool) → is_expired e now ≡ b
        → Outline
            (Aside P IsMapAt held key)
            (Gave P IsMapAt held e n)
            (λ w. IsMapAt w × (now ≤ℤ now_ms P w))
            (serve s key (some e, now))
    unfolding is_expired
    Outline-serve key e n now le true h = rw h (
        o_steps (λ _ w. IsMapAt w × (now ≤ℤ now_ms P w))
          (λ w p.
            rw
              (
                cell.read-write (remove key (s.state.read w)) w,
                clock (remove key (s.state.read w)) w,
              )
              (IsMap-remove key (s.state.read w) p.0, p.1))
          (λ w p. Since-IsStable P IsMapAt held _ _)
          (λ w p. o_returns (λ v q. (q.0, ground arith, inr (refl, ground arith)))))
    Outline-serve key e n now le false h = rw h (o_returns (λ w p. (p.0, ground arith, inl refl)))

    Outline-get :
        (namespace key : String) (e : StoredEntry J) (n : ℤ)
        → let k = build_cache_key namespace key in
          Outline
            (Aside P IsMapAt held k)
            (Gave P IsMapAt held e n)
            (Has P IsMapAt held k e n)
            (get s namespace key)
    unfolding get
    Outline-get namespace key e n =
        o_steps (λ w v. IsMapAt v × (now_ms P w ≤ℤ now_ms P v)) (λ w p. (p.0, omega arith))
          (λ w p. Since-IsStable P IsMapAt held _ _)
          (λ w p. rw (p.1) (Outline-serve _ e n (now_ms P w) p.2 _ refl))

    Outline-set :
        (namespace key : String) (e : StoredEntry J) (n : ℤ)
        → s.evict_on_set ≡ none
        → let k = build_cache_key namespace key in
          Outline
            (Aside P IsMapAt held k)
            (λ r w. (r ≡ ok tt) × Has P IsMapAt held k e n w)
            (λ w. IsMapAt w × (n ≤ℤ now_ms P w))
            (set s namespace key e)
    unfolding set maybe_evict
    Outline-set namespace key e n off =
        o_steps (λ _. Has P IsMapAt held k e n)
          (λ w p.
            rw
              (
                cell.read-write (insert k e (s.state.read w)) w,
                clock (insert k e (s.state.read w)) w,
                lookup-insert k k e (s.state.read w),
                str_eq_refl k,
              )
              (IsMap-insert k e (s.state.read w) p.0, refl, p.1))
          (λ w p v v' aside q. let a = aside q.0 in (a.0, a.1 ∙ q.1, ground (arith, a.2, q.2)))
          (λ w p. rw off (o_returns (λ v q. (refl, q))))
      where
        k : String
        k = build_cache_key namespace key

    -- A HashMapStore with no eviction configured keeps the entries of different keys apart.
    pub hash_map_store-IsKeyed : s.evict_on_set ≡ none → IsKeyed P IsMapAt held (hash_map_store s)
    unfolding hash_map_store get set maybe_evict remove_all_keys
    hash_map_store-IsKeyed off = record {
      writes = λ namespace key e n _. Outline-set namespace key e n off;
      reads = Outline-get;
      gets_aside = λ k namespace key ne.
          steps (Aside-refl P IsMapAt held k) (λ w. Guarantees-serve_other k _ _ ne);
      sets_aside = λ k namespace key e ne.
          steps
            (λ w.
              update-Aside k (insert (build_cache_key namespace key) e)
                (λ m d. (
                  IsMap-insert _ e m d,
                  rw (lookup-insert (build_cache_key namespace key) k e m, ne) refl,
                ))
                w)
            (λ w. rw off returns);
      removes_aside = λ k namespace keys ne.
          steps
            (λ w.
              update-Aside k (remove_keys namespace keys)
                (λ m d. (
                  IsMap-remove_keys namespace keys m d,
                  rw (lookup-remove_keys namespace keys k m d, ne) refl,
                ))
                w)
            (λ w. returns);
    }
