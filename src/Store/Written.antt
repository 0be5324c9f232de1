-- ===== src/Store/Written.antt =====
-- What a lawful store has of an entry right after its write (src/store.rs).
use swr_cache.Base.{
  ◌≡◌, ap, ◌∙◌, true, false, not, Option, some, none, String, ok, str_eq, str_eq_iff, arith,
  if◌then◌else◌,
}
use swr_cache.Base.Async.Exec.{exec}
use swr_cache.Platform.{Serde, Platform}
use swr_cache.Utils.{build_cache_key, now_ms}
use swr_cache.Entry.{StorageMode, StoredEntry, is_expired, convert_for_mode, to_serialized}
use swr_cache.Store.{Store}
use swr_cache.Store.Laws.{IsWrite, IsLawful, unexpired}

-- An entry in the form of a mode stays as it is.
pub convert-converted :
    {J : Serde} (e e' : StoredEntry J) (mode : StorageMode)
    → convert_for_mode e mode ≡ ok e'
    → convert_for_mode e' mode ≡ ok e'
unfolding convert_for_mode to_serialized
convert-converted e e' mode taken = ground arith

module _ {J : Serde} {W : Type 0} (P : Platform W) (S : Store J W) (Inv : W → Type 0)
    (view : W → String → Option (StoredEntry J)) (lawful : IsLawful P S Inv view)
    (namespace key : String) (e e' : StoredEntry J)
    (taken : convert_for_mode e S.storage_mode ≡ ok e') (w : W) (inv : Inv w) where
  pub IsWrite-converted : IsWrite P S Inv view namespace key e' w
  IsWrite-converted =
      lawful.writes namespace key e' w inv (convert-converted e e' S.storage_mode taken)

  pub view-write :
      is_expired e' (now_ms P w) ≡ false
      → view (exec (S.set namespace key e') w).world (build_cache_key namespace key) ≡ some e'
  view-write live =
      let here = build_cache_key namespace key in
      let self : str_eq here here ≡ true = ground (arith, str_eq_iff here here) in
      IsWrite-converted.views here
      ∙ ap (λ b. if b then unexpired P w e' else view w here) self
      ∙ ap (λ b. if not b then some e' else none) live
