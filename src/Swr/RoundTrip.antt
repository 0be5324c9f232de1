-- ===== src/Swr/RoundTrip.antt =====
-- Writes, reads and removals of a SwrCache over a lawful store (src/swr.rs: set, get, remove).
use swr_cache.Base.{
  ◌≡◌, ap, sym, ◌∙◌, false, Option, none, some, String, [], ◌∷◌, Result, ok, map_or, Result-cases,
  inl, inr, arith, if◌then◌else◌, str_eq,
}
use swr_cache.Base.Int.{ℤ, ltb_ℤ, ◌+i64◌}
use swr_cache.Base.Async.Exec.{Outcome, exec}
use swr_cache.Platform.{Serde, RoundTrips, Platform}
use swr_cache.Utils.{build_cache_key, now_ms}
use swr_cache.Error.{CacheError}
use swr_cache.Entry.{
  StorageMode, typed_mode, serialized_mode, StoredEntry, new, is_expired, stale_until,
  convert_for_mode, into_typed,
}
use swr_cache.Entry.Conversions.{downcast_self}
use swr_cache.Store.Laws.{unexpired, IsWrite, IsRemoval, IsLawful}
use text.Mathlib.TextPositions.{eq_refl as str_eq_refl}
use swr_cache.Swr.Reads.{exec-get, read_back}
use swr_cache.Swr.Data.{SwrCache, SetOptions, entry_for}
use swr_cache.Swr.Direct.{get, set, write_entry, remove_key}

-- What `entry_for` makes of a value: it reads back as the value with its times, and the store that
-- asked for the form takes it.
pub record Holds {J : Serde} (t : Serde.TypeId J) (mode : StorageMode) (v : Serde.Val J t)
    (fresh stale : ℤ) (e : StoredEntry J) : Type 0 where
  pub reads : into_typed t e ≡ ok (new v fresh stale)
  pub expires : stale_until e ≡ stale
  pub taken : convert_for_mode e mode ≡ ok e

module _ {J : Serde} (r : RoundTrips J) (t : Serde.TypeId J) where
  pub entry_for-Holds :
      (mode : StorageMode) (v : Serde.Val J t) (fresh stale : ℤ) (e : StoredEntry J)
      → entry_for t mode v fresh stale ≡ ok e
      → Holds t mode v fresh stale e
  unfolding entry_for into_typed convert_for_mode
  entry_for-Holds typed_mode v fresh stale e h = record {
    reads = ground (arith, downcast_self J t v);
    expires = ground arith;
    taken = ground arith;
  }
  entry_for-Holds serialized_mode v fresh stale e h =
      elim (Result-cases (Serde.to_string J t v fresh stale)) [
        | inl (s, written) ↦ record {
          reads = ground (arith, r.entry t v fresh stale s written);
          expires = ground arith;
          taken = ground arith;
        }
        | inr (x, failed) ↦ absurd (ground arith)
      ]

module _ {J : Serde} {W : Type 0} (P : Platform W) {t : Serde.TypeId J} (c : SwrCache J W t) where
  -- The times that a write stamps on its entry.
  abbrev pub fresh_time : Option SetOptions → W → ℤ
  fresh_time opts w = now_ms P w +i64 map_or opts (λ o. o.fresh_ms) c.fresh_ms

  abbrev pub stale_time : Option SetOptions → W → ℤ
  stale_time opts w = now_ms P w +i64 map_or opts (λ o. o.stale_ms) c.stale_ms

  -- What the write gives to the store, or serde_json's error.
  abbrev pub made : Option SetOptions → W → Serde.Val J t → Result String (StoredEntry J)
  made opts w v = entry_for t c.store.storage_mode v (fresh_time opts w) (stale_time opts w)

  pub exec-set :
      (namespace key : String) (v : Serde.Val J t) (opts : Option SetOptions) (w : W)
      {e : StoredEntry J}
      → made opts w v ≡ ok e
      → exec (set P c namespace key v opts) w ≡ exec (c.store.set namespace key e) w
  unfolding set
  exec-set namespace key v opts w made' = ap (λ m. exec (write_entry c namespace key m) w) made'

  module _ (Inv : W → Type 0) (view : W → String → Option (StoredEntry J))
      (lawful : IsLawful P c.store Inv view) (r : RoundTrips J) where
    pub result-get :
        (namespace key : String) (w : W)
        → Inv w
        → (exec (get P c namespace key) w).result
          ≡ read_back t (ok (view w (build_cache_key namespace key)))
    result-get namespace key w inv =
        ap (λ (o : Outcome W (Result CacheError (Option (Serde.Val J t)))). o.result)
          (exec-get P c namespace key w)
        ∙ rw ((lawful.reads namespace key w inv).result)

    unexpired_result :
        (v : Serde.Val J t) (fresh stale : ℤ) (w : W) (e : StoredEntry J)
        → Holds t c.store.storage_mode v fresh stale e
        → read_back t (ok (unexpired P w e))
          ≡ ok (if ltb_ℤ (now_ms P w) stale then some v else none)
    unfolding is_expired
    unexpired_result v fresh stale w e h = ground (arith, h.reads, h.expires)

    -- The store takes what the write makes.
    pub IsWrite-made :
        (namespace key : String) (v : Serde.Val J t) (opts : Option SetOptions) (w : W)
        (e : StoredEntry J)
        → Inv w
        → made opts w v ≡ ok e
        → IsWrite P c.store Inv view namespace key e w
    IsWrite-made namespace key v opts w e inv made' = lawful.writes namespace key e w inv (
        (entry_for-Holds r t c.store.storage_mode v (fresh_time opts w) (stale_time opts w) e
          made').taken)

    -- What a read makes of the entry that the write stores, at the time of the write.
    pub read_made :
        (v : Serde.Val J t) (opts : Option SetOptions) (w : W) (e : StoredEntry J)
        → made opts w v ≡ ok e
        → read_back t (ok (unexpired P w e))
          ≡ ok (if ltb_ℤ (now_ms P w) (stale_time opts w) then some v else none)
    read_made v opts w e made' =
        unexpired_result v (fresh_time opts w) (stale_time opts w) w e (
          entry_for-Holds r t c.store.storage_mode v (fresh_time opts w) (stale_time opts w) e
            made')

    -- Over a store that keeps its contract, a write that can be serialized succeeds. A read of the
    -- same key right after it gives the value if the time of expiry, as the machine adds it up, is
    -- still to come, and a miss if not; a read of any other composite key gives what it gave before.
    pub get-set :
        (namespace key : String) (v : Serde.Val J t) (opts : Option SetOptions) (w : W)
        (e : StoredEntry J)
        → Inv w
        → made opts w v ≡ ok e
        → let o = exec (set P c namespace key v opts) w in
          (o.result ≡ ok tt)
          × ((exec (get P c namespace key) o.world).result
              ≡ ok (if ltb_ℤ (now_ms P w) (stale_time opts w) then some v else none))
          × ((namespace' key' : String)
              → str_eq (build_cache_key namespace key) (build_cache_key namespace' key') ≡ false
              → (exec (get P c namespace' key') o.world).result
                ≡ (exec (get P c namespace' key') w).result)
    get-set namespace key v opts w e inv made' =
        rw (exec-set namespace key v opts w made') (write.result, at_key, elsewhere)
      where
        key'' : String
        key'' = build_cache_key namespace key

        write : IsWrite P c.store Inv view namespace key e w
        write = IsWrite-made namespace key v opts w e inv made'

        after : W
        after = (exec (c.store.set namespace key e) w).world

        at_key :
            (exec (get P c namespace key) after).result
            ≡ ok (if ltb_ℤ (now_ms P w) (stale_time opts w) then some v else none)
        at_key =
            result-get namespace key after write.quiet.inv
            ∙ rw (write.views key'', str_eq_refl key'') (read_made v opts w e made')

        elsewhere :
            (n k : String)
            → str_eq key'' (build_cache_key n k) ≡ false
            → (exec (get P c n k) after).result ≡ (exec (get P c n k) w).result
        elsewhere n k ne =
            result-get n k after write.quiet.inv
            ∙ rw (write.views (build_cache_key n k), ne) (sym (result-get n k w inv))

    -- Over a store that keeps its contract, a removal succeeds. A read of the key right after it is a
    -- miss, and a read of any other composite key gives what it gave before.
    pub get-remove_key :
        (namespace key : String) (w : W)
        → Inv w
        → let o = exec (remove_key c namespace key) w in
          (o.result ≡ ok tt)
          × ((exec (get P c namespace key) o.world).result ≡ ok none)
          × ((namespace' key' : String)
              → str_eq (build_cache_key namespace key) (build_cache_key namespace' key') ≡ false
              → (exec (get P c namespace' key') o.world).result
                ≡ (exec (get P c namespace' key') w).result)
    unfolding remove_key
    get-remove_key namespace key w inv = (removal.result, at_key, elsewhere)
      where
        key'' : String
        key'' = build_cache_key namespace key

        removal : IsRemoval P c.store Inv view namespace (key ∷ []) w
        removal = lawful.removes namespace (key ∷ []) w inv

        after : W
        after = (exec (c.store.remove namespace (key ∷ [])) w).world

        at_key : (exec (get P c namespace key) after).result ≡ ok none
        at_key =
            result-get namespace key after removal.quiet.inv
            ∙ rw (removal.views key'', str_eq_refl key'')

        elsewhere :
            (n k : String)
            → str_eq key'' (build_cache_key n k) ≡ false
            → (exec (get P c n k) after).result ≡ (exec (get P c n k) w).result
        elsewhere n k ne =
            result-get n k after removal.quiet.inv
            ∙ rw (removal.views (build_cache_key n k), ne) (sym (result-get n k w inv))
