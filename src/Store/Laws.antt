-- ===== src/Store/Laws.antt =====
-- What a client of a store may rely on (src/store.rs): the store as a map from composite keys to
-- entries, in which an entry that has expired counts as absent.
use swr_cache.Base.{
  ◌≡◌, Bool, not, Option, none, some, String, List, [], ◌∷◌, ok, true, false, if◌then◌else◌, str_eq,
}
use swr_cache.Base.Async.Exec.{Outcome, exec}
use swr_cache.Platform.{Serde, Platform}
use swr_cache.Utils.{build_cache_key, now_ms}
use swr_cache.Entry.{StoredEntry, is_expired, convert_for_mode}
use swr_cache.Store.{Store}

-- One of the keys, in the namespace, has this composite key.
abbrev pub mentions : String → List String → String → Bool
mentions namespace [] k = false
mentions namespace (key ∷ keys) k =
    if str_eq (build_cache_key namespace key) k then true else mentions namespace keys k

module _ {W : Type 0} (P : Platform W) where
  -- An operation that neither spawns tasks nor takes time, and keeps the store well formed.
  pub record IsQuiet {A : Type 0} (Inv : W → Type 0) (w : W) (o : Outcome W A) : Type 0 where
    pub inv : Inv o.world
    pub spawned : o.spawned ≡ []
    pub clock : now_ms P o.world ≡ now_ms P w

module _ {J : Serde} {W : Type 0} (P : Platform W) where
  -- The entry, unless it has expired at the clock's time.
  abbrev pub unexpired : W → StoredEntry J → Option (StoredEntry J)
  unexpired w e = if not (is_expired e (now_ms P w)) then some e else none

  module _ (S : Store J W) (Inv : W → Type 0) (view : W → String → Option (StoredEntry J)) where
    -- A read answers with what the view has, and changes no key of the view.
    pub record IsRead (namespace key : String) (w : W) : Type 0 where
      pub quiet : IsQuiet P Inv w (exec (S.get namespace key) w)
      pub result :
          (exec (S.get namespace key) w).result ≡ ok (view w (build_cache_key namespace key))
      pub views : (k : String) → view (exec (S.get namespace key) w).world k ≡ view w k

    -- A write of an entry that the store takes changes its key alone.
    pub record IsWrite (namespace key : String) (e : StoredEntry J) (w : W) : Type 0 where
      pub quiet : IsQuiet P Inv w (exec (S.set namespace key e) w)
      pub result : (exec (S.set namespace key e) w).result ≡ ok tt
      pub views :
          (k : String)
          → view (exec (S.set namespace key e) w).world k
            ≡ (if str_eq (build_cache_key namespace key) k then unexpired w e else view w k)

    -- A removal takes away the keys that it names, and no other.
    pub record IsRemoval (namespace : String) (keys : List String) (w : W) : Type 0 where
      pub quiet : IsQuiet P Inv w (exec (S.remove namespace keys) w)
      pub result : (exec (S.remove namespace keys) w).result ≡ ok tt
      pub views :
          (k : String)
          → view (exec (S.remove namespace keys) w).world k
            ≡ (if mentions namespace keys k then none else view w k)

    -- The contract of a store that neither fails nor drops entries early.
    pub record IsLawful : Type 0 where
      pub reads : (namespace key : String) (w : W) → Inv w → IsRead namespace key w
      pub writes :
          (namespace key : String) (e : StoredEntry J) (w : W)
          → Inv w
          → convert_for_mode e S.storage_mode ≡ ok e
          → IsWrite namespace key e w
      pub removes :
          (namespace : String) (keys : List String) (w : W) → Inv w → IsRemoval namespace keys w
