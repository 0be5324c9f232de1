-- ===== src/Memory/Writes.antt =====
-- What a write to a HashMapStore does, eviction included (src/stores/memory.rs).
use swr_cache.Base.{
  [], ◌≡◌, refl, ap, ◌∙◌, ◌⊎◌, true, false, Option, none, some, String, ok, arith, if◌then◌else◌,
  str_eq, Bool-cases, inl, inr, ◌≤◌, length,
}
use swr_cache.Base.Dict.{IsMap, lookup, insert, lookup-insert, IsMap-insert}
use swr_cache.Base.Cell.{update}
use swr_cache.Base.Async.{ret}
use swr_cache.Base.Async.Exec.{Outcome, exec, exec-bind}
use swr_cache.Platform.{Serde, Floats, Platform}
use swr_cache.Utils.{build_cache_key, now_ms}
use swr_cache.Entry.{StoredEntry}
use swr_cache.Memory.{
  EvictOnSetConfig, HashMapStore, evict, should_evict, evict_by, maybe_evict, set,
}
use swr_cache.Memory.Evict.{evict_size}
use swr_cache.Memory.Access.{IsStore}

-- A configuration that evicts on every write: `frequency` is above 0.0 and at least 1.0.
abbrev pub Always : (F : Floats) → EvictOnSetConfig F → Type 0
Always F c =
    (Floats.le F c.frequency (Floats.zero_f F) ≡ false)
    × (Floats.le F (Floats.one_f F) c.frequency ≡ true)

module _ {J : Serde} {W : Type 0} {P : Platform W} (s : HashMapStore J P) where
  abbrev pub written : String → String → StoredEntry J → W → W
  written namespace key entry = update s.state (insert (build_cache_key namespace key) entry)

  -- Eviction under `c`, at the clock's time.
  abbrev pub evicted : EvictOnSetConfig (Platform.floats P) → W → W
  evicted c w = update s.state (evict c.max_items (now_ms P w)) w

  -- Eviction does nothing, or what the configuration says.
  abbrev Evicts : Option (EvictOnSetConfig (Platform.floats P)) → W → W → Type 0
  Evicts o w w' =
      (w' ≡ w) ⊎ ((c : EvictOnSetConfig (Platform.floats P)) × (o ≡ some c) × (w' ≡ evicted c w))

  evict_by_cases :
      (o : Option (EvictOnSetConfig (Platform.floats P))) (w : W)
      → Evicts o w (exec (evict_by P s.state o) w).world
  evict_by_cases none w = inl refl
  evict_by_cases (some c) w = elim (Bool-cases (le c.frequency zero_f)) [
    | inl off ↦ inl (ground arith)
    | inr on ↦ elim (Bool-cases (should_evict P c w)) [
      | inl yes' ↦ inr (c, refl, ground arith)
      | inr no' ↦ inl (ground arith)
    ]
  ]
    where
      open (Platform.floats P) use {le, zero_f}

  maybe_evict_cases : (w : W) → Evicts s.evict_on_set w (exec (maybe_evict s) w).world
  unfolding maybe_evict
  maybe_evict_cases w = evict_by_cases s.evict_on_set w

  pub world-set :
      (namespace key : String) (entry : StoredEntry J) (w : W)
      → ((exec (set s namespace key entry) w).result ≡ ok tt)
        × ((exec (set s namespace key entry) w).world
            ≡ (exec (maybe_evict s) (written namespace key entry w)).world)
  unfolding set
  world-set namespace key entry w =
      let o = exec-bind (maybe_evict s) (λ _. ret (ok tt)) (written namespace key entry w) in
      (ap (λ (p : Outcome W _). p.result) o, ap (λ (p : Outcome W _). p.world) o)

  evict_by-Always :
      (o : Option (EvictOnSetConfig (Platform.floats P))) (c : EvictOnSetConfig (Platform.floats P))
      (w : W)
      → o ≡ some c
      → Always (Platform.floats P) c
      → (exec (evict_by P s.state o) w).world ≡ evicted c w
  unfolding should_evict
  evict_by-Always none c w e always = cc
  evict_by-Always (some d) c w e always = ground arith

  pub maybe_evict_off : (w : W) → s.evict_on_set ≡ none → (exec (maybe_evict s) w).world ≡ w
  maybe_evict_off w off = elim (maybe_evict_cases w) [ inl e ↦ e | inr (c, on, _) ↦ cc ]

  pub spawned-set :
      (namespace key : String) (entry : StoredEntry J) (w : W)
      → s.evict_on_set ≡ none
      → (exec (set s namespace key entry) w).spawned ≡ []
  unfolding set maybe_evict
  spawned-set namespace key entry w off =
      ap (λ (p : Outcome W _). p.spawned)
        (exec-bind (maybe_evict s) (λ _. ret (ok tt)) (written namespace key entry w))
      ∙ rw off

  evicted-IsStore :
      {w : W} (c : EvictOnSetConfig (Platform.floats P)) → IsStore s w → IsStore s (evicted c w)
  evicted-IsStore {w} c v = record {
    cell = v.cell;
    map =
        rw (v.cell.read-write _ w) ((evict_size c.max_items (now_ms P w) (s.state.read w) v.map).0);
  }

  module _ {w : W} (v : IsStore s w) where
    open v use {cell, map}

    written-IsStore :
        (namespace key : String) (entry : StoredEntry J) → IsStore s (written namespace key entry w)
    written-IsStore namespace key entry = record {
      cell = cell;
      map = rw (cell.read-write _ w) (IsMap-insert (build_cache_key namespace key) entry _ map);
    }

    read-written :
        (namespace key : String) (entry : StoredEntry J)
        → s.state.read (written namespace key entry w)
          ≡ insert (build_cache_key namespace key) entry (s.state.read w)
    read-written namespace key entry = cell.read-write _ w

    -- With no eviction configured a write puts the entry under the composite key, changes no other
    -- key, and never fails.
    pub set_state :
        (namespace key : String) (entry : StoredEntry J) (k : String)
        → s.evict_on_set ≡ none
        → let o = exec (set s namespace key entry) w in
          (o.result ≡ ok tt)
          × IsMap (s.state.read o.world)
          × (lookup k (s.state.read o.world) ≡ (
              if str_eq (build_cache_key namespace key) k
              then some entry
              else lookup k (s.state.read w)))
    set_state namespace key entry k off =
        let key' = build_cache_key namespace key in
        let (result, world) = world-set namespace key entry w in
        let same = world ∙ maybe_evict_off (written namespace key entry w) off in
        (
          result,
          rw same ((written-IsStore namespace key entry).map),
          rw (same, read-written namespace key entry) (lookup-insert key' k entry (s.state.read w)),
        )

    -- With eviction on every write the map has at most `max_items` entries after a write.
    pub set_bounded :
        (namespace key : String) (entry : StoredEntry J) (c : EvictOnSetConfig (Platform.floats P))
        → s.evict_on_set ≡ some c
        → Always (Platform.floats P) c
        → length (s.state.read (exec (set s namespace key entry) w).world) ≤ c.max_items
    unfolding maybe_evict
    set_bounded namespace key entry c on always =
        let w' = written namespace key entry w in
        let world =
          (world-set namespace key entry w).1 ∙ evict_by-Always s.evict_on_set c w' on always in
        let size =
          (evict_size c.max_items (now_ms P w') (s.state.read w')
            ((written-IsStore namespace key entry).map)).1 in
        rw (world, cell.read-write _ w') (omega (arith, size))

    -- Whatever is configured, a write never fails and keeps the store well formed.
    pub set-IsStore :
        (namespace key : String) (entry : StoredEntry J)
        → IsStore s (exec (set s namespace key entry) w).world
    set-IsStore namespace key entry =
        let w' = written namespace key entry w in
        let stored = written-IsStore namespace key entry in
        rw ((world-set namespace key entry w).1) (elim (maybe_evict_cases w') [
          | inl e ↦ rw e stored
          | inr (c, _, e) ↦ rw e (evicted-IsStore c stored)
        ])
