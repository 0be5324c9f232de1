-- ===== src/Tiered/Keyed.antt =====
-- What a TieredStore of one tier may be relied on while other keys are in use (src/tiered.rs).
use swr_cache.Base.{
  ◌≡◌, refl, ap, false, Option, none, some, String, [], ◌∷◌, Result, ok, err, str_eq,
}
use swr_cache.Base.Async.{Async, ret}
use swr_cache.Base.Async.Guarantee.{Guarantees, returns, Guarantees-bind}
use swr_cache.Base.Async.Outline.{Outline, Outline-bind}
use swr_cache.Base.Async.Outline.{returns as o_returns}
use swr_cache.Base.Async.Join.{Join-Guarantees, Join-Outline}
use swr_cache.Base.Int.{ℤ, ◌≤ℤ◌}
use swr_cache.Platform.{Serde, Platform, JoinsAll}
use swr_cache.Utils.{build_cache_key, now_ms}
use swr_cache.Error.{CacheError}
use swr_cache.Entry.{StoredEntry, convert_for_mode}
use swr_cache.Store.{Store}
use swr_cache.Store.Keyed.{Aside, Has, IsKeyed}
use swr_cache.Tiered.{
  first_error, set_tier, hit, get_from, get, set, remove, tiered_mode, tiered_store,
}
use swr_cache.Tiered.Single.{single}
use swr_cache.Tiered.Writes.{write_converted}

-- What `get` does with the answer of the one tier.
abbrev first_hit :
    {J : Serde} {W : Type 0} (S : Store J W)
    → String
    → String
    → Result CacheError (Option (StoredEntry J))
    → Async W (Result CacheError (Option (StoredEntry J)))
first_hit S namespace key r = elim r [
  | ok o ↦ elim o [
    | none ↦ get_from (S ∷ []) 1 [] namespace key
    | some e ↦ hit (S ∷ []) 0 namespace key e
  ]
  | err x ↦ ret (err x)
]

module _ {J : Serde} {W : Type 0} (P : Platform W) (joins : JoinsAll P) (S : Store J W)
    (Inv : W → Type 0) (entry : W → String → Option (StoredEntry J))
    (keyed : IsKeyed P Inv entry S) where
  converted :
      (namespace key : String) (e : StoredEntry J)
      → convert_for_mode e S.storage_mode ≡ ok e
      → set_tier namespace key e S ≡ S.set namespace key e
  unfolding set_tier
  converted namespace key e taken = ap (write_converted namespace key S) taken

  Guarantees-converted :
      (k namespace key : String) (r : Result CacheError (StoredEntry J))
      → str_eq (build_cache_key namespace key) k ≡ false
      → Guarantees (Aside P Inv entry k) (write_converted namespace key S r)
  Guarantees-converted k namespace key (ok e) ne = keyed.sets_aside k namespace key e ne
  Guarantees-converted k namespace key (err x) ne = returns

  Outline-hit :
      {R : W → W → Type 0} {Q : Result CacheError (Option (StoredEntry J)) → W → Type 0}
      (namespace key : String) (r : Result CacheError (Option (StoredEntry J)))
      → Outline R Q (Q r) (first_hit S namespace key r)
  unfolding hit get_from
  Outline-hit namespace key (ok none) = o_returns (λ w p. p)
  Outline-hit namespace key (ok (some e)) = o_returns (λ w p. p)
  Outline-hit namespace key (err x) = o_returns (λ w p. p)

  Guarantees-hit_one :
      {R : W → W → Type 0} (namespace key : String) (r : Result CacheError (Option (StoredEntry J)))
      → Guarantees R (first_hit S namespace key r)
  unfolding hit get_from
  Guarantees-hit_one namespace key (ok none) = returns
  Guarantees-hit_one namespace key (ok (some e)) = returns
  Guarantees-hit_one namespace key (err x) = returns

  Outline-set_tier :
      (namespace key : String) (e : StoredEntry J) (n : ℤ)
      → convert_for_mode e S.storage_mode ≡ ok e
      → let k = build_cache_key namespace key in
        Outline
          (Aside P Inv entry k)
          (λ r w. (r ≡ ok tt) × Has P Inv entry k e n w)
          (λ w. Inv w × (n ≤ℤ now_ms P w))
          (set_tier namespace key e S)
  Outline-set_tier namespace key e n taken =
      rw (converted namespace key e taken) (keyed.writes namespace key e n taken)

  -- A TieredStore of one tier keeps the entries of different keys apart as its tier does.
  pub tiered_store-IsKeyed : IsKeyed P Inv entry (tiered_store P (single S))
  unfolding tiered_store get get_from hit set remove tiered_mode first_error
  tiered_store-IsKeyed = record {
    writes = λ namespace key e n taken.
        Outline-bind
          (Join-Outline (joins.joined (set_tier namespace key e S ∷ [])) refl
            (Outline-set_tier namespace key e n taken))
          (λ rs. o_returns (λ w q. (rw (q.1, q.2.0) refl, q.2.1)));
    reads = λ namespace key e n.
        Outline-bind (keyed.reads namespace key e n) (Outline-hit namespace key);
    gets_aside = λ k namespace key ne.
        Guarantees-bind (keyed.gets_aside k namespace key ne) (Guarantees-hit_one namespace key);
    sets_aside = λ k namespace key e ne.
        Guarantees-bind
          (Join-Guarantees (joins.joined (set_tier namespace key e S ∷ []))
            (Guarantees-converted k namespace key (convert_for_mode e S.storage_mode) ne, tt))
          (λ rs. returns);
    removes_aside = λ k namespace keys ne.
        Guarantees-bind
          (Join-Guarantees (joins.joined (S.remove namespace keys ∷ []))
            (keyed.removes_aside k namespace keys ne, tt))
          (λ rs. returns);
  }
