-- ===== src/MultiNamespace/Lines.antt =====
-- What the program may print of its two caches (src/examples/multi_namespace.rs).
use swr_cache.Base.{
  ℕ, ◌≡◌, refl, Option, some, none, String, ◌∷◌, Result, ok, err, All, str_eq, ◌⊎◌, inl, inr,
  if◌then◌else◌,
}
use swr_cache.Base.Int.{pos}
use swr_cache.Base.Cell.{Guards, update}
use swr_cache.Base.Async.{Async, ret, ◌>>?◌}
use swr_cache.Base.Async.Safe.{Ensures, returns, steps, Ensures-mono, Ensures-bind}
use swr_cache.Platform.{JoinsAll, Serde, RoundTrips, Platform}
use swr_cache.Utils.{build_cache_key}
use swr_cache.Error.{CacheError}
use swr_cache.Entry.{StoredEntry, serialized}
use swr_cache.Entry.Carries.{Carries}
use swr_cache.Store.Safety.{Found, IsSafeStore}
use swr_cache.Swr.Data.{SwrCache}
use swr_cache.Swr.Safety.Values.{RightOption, RightAnswer}
use swr_cache.Swr.Safety.Reads.{Ensures-get}
use swr_cache.Swr.Safety.Calls.{Ensures-swr}
use swr_cache.Swr.Safety.Others.{set_any, get_any}
use swr_cache.Cache
use swr_cache.MultiNamespace.{
  Types, Line, loading_user, not_called, user_line, cached_user_line, in_api_key_cache,
  in_user_cache, same_store, saves_memory, Shared, load_user, load_again, use_caches,
}

-- A result that is no error has the property.
abbrev OnSuccess : {A : Type 0} → (A → Type 0) → Result CacheError A → Type 0
OnSuccess Q (ok a) = Q a
OnSuccess Q (err x) = Unit

module _ {W : Type 0} {Inv : W → Type 0} {A : Type 0} {Q : A → Type 0} where
  Ensures-try :
      {m : Async W (Result CacheError A)} {k : A → Async W (Result CacheError (Unit {0}))}
      → Ensures Inv (OnSuccess Q) m
      → ((a : A) → Q a → Ensures Inv (λ _. Unit {0}) (k a))
      → Ensures Inv (λ _. Unit {0}) (m >>? k)
  Ensures-try {k = k} h next = Ensures-bind h after
    where
      after :
          (r : Result CacheError A)
          → OnSuccess Q r
          → Ensures Inv (λ _. Unit {0}) (elim r [ ok a ↦ k a | err e ↦ ret (err e) ])
      after (ok a) h' = next a h'
      after (err x) h' = returns tt

module _ {J : Serde} (T : Types J) where
  abbrev UserVal : Type 0
  UserVal = Serde.Val J (Types.user T)

  -- The two users that the program's closures give.
  abbrev pub IsLoaded : UserVal → Type 0
  IsLoaded v =
      (v
        ≡ Types.of_user T
            (record { id = "chronark"; name = "Andreas"; email = "andreas@example.com" }))
      ⊎ (v
          ≡ Types.of_user T
              (record { id = "chronark"; name = "Should not appear"; email = "no@example.com" }))

  -- Under the user's composite key only those; none under the other key of the namespace.
  abbrev pub RightUser : String → UserVal → Type 0
  RightUser k v =
      if str_eq k "users:chronark"
      then IsLoaded v
      else (if str_eq k "users:key_123" then ⊥ else Unit)

  abbrev pub UserFits : String → StoredEntry J → Type 0
  UserFits k = Carries (Types.user T) (RightUser k)

  abbrev pub UserTexts : String → String → Type 0
  UserTexts k text = UserFits k (serialized text (pos 0) (pos 0))

  -- A line that names a user names one of the two, and no user stands under the other key.
  abbrev pub IsGoodLine : Line T → Type 0
  IsGoodLine (loading_user id) = Unit
  IsGoodLine not_called = Unit
  IsGoodLine (user_line o) = RightOption IsLoaded o
  IsGoodLine (cached_user_line o) = RightOption IsLoaded o
  IsGoodLine (in_api_key_cache o) = Unit
  IsGoodLine (in_user_cache o) = o ≡ none
  IsGoodLine same_store = Unit
  IsGoodLine saves_memory = Unit

  api_key-fits : (e : StoredEntry J) → UserFits (build_cache_key "apikeys" "key_123") e
  unfolding build_cache_key
  api_key-fits e = record { right = λ mode e' x converted read. tt }

  answered :
      (r : Result CacheError (Option UserVal))
      → RightAnswer (RightUser (build_cache_key "users" "chronark")) r
      → OnSuccess (RightOption IsLoaded) r
  unfolding build_cache_key
  answered (ok (some v)) h = h
  answered (ok none) h = tt
  answered (err x) h = tt

  not_found :
      (r : Result CacheError (Option UserVal))
      → Found (RightUser (build_cache_key "users" "key_123")) r
      → OnSuccess (λ o. o ≡ none) r
  unfolding build_cache_key
  not_found (ok (some v)) h = elim h [ ]
  not_found (ok none) h = refl
  not_found (err x) h = tt

module _ {J : Serde} {T : Types J} {W : Type 0} (shared : Shared T W) (P : Platform W)
    (Inv : W → Type 0) (lines : Guards Inv (Shared.printed shared) (All (IsGoodLine T)))
    (users : Guards Inv (Shared.users shared) (λ _. Unit {0}))
    (api_keys : Guards Inv (Shared.api_keys shared) (λ _. Unit {0}))
    (sleeps : (n : ℕ) → Ensures Inv (λ _. Unit {0}) (Platform.sleep P n)) (joins : JoinsAll P)
    (r : RoundTrips J) where
  prints :
      (line : Line T)
      → IsGoodLine T line
      → (w : W) → Inv w
      → Inv (update (Shared.printed shared) (◌∷◌ line) w)
  prints line good w i = lines.admits _ w i (good, lines.holds w i)

  loads_user :
      Ensures Inv
        (RightOption (RightUser T (build_cache_key "users" "chronark")))
        (load_user shared "chronark")
  unfolding load_user build_cache_key
  loads_user = steps (prints (loading_user "chronark") tt) (λ _ _. returns (inl refl))

  loads_again :
      Ensures Inv
        (RightOption (RightUser T (build_cache_key "users" "chronark")))
        (load_again shared "chronark")
  unfolding load_again build_cache_key
  loads_again = steps (prints not_called tt) (λ _ _. returns (inr refl))

  module _ (c : SwrCache J W (Types.user T)) (c' : SwrCache J W (Types.api_key T))
      (store : IsSafeStore c.store Inv (UserFits T))
      (store' : IsSafeStore c'.store Inv (UserFits T))
      (marks : Guards Inv c.revalidating (λ _. Unit {0})) where
    abbrev user_cache : Cache.Cache J W (Types.user T)
    user_cache = record { namespace = "users"; swr_cache = c }

    abbrev api_key_cache : Cache.Cache J W (Types.api_key T)
    api_key_cache = record { namespace = "apikeys"; swr_cache = c' }

    loaded :
        (load : String → Async W (Option (UserVal T)))
        → Ensures Inv
            (RightOption (RightUser T (build_cache_key "users" "chronark")))
            (load "chronark")
        → Ensures Inv
            (OnSuccess (RightOption (IsLoaded T)))
            (Cache.swr P user_cache "chronark" load)
    unfolding Cache.swr
    loaded load h =
        Ensures-mono (answered T)
          (Ensures-swr P c Inv (RightUser T) store marks sleeps r "users" "chronark" load h)

    missing : Ensures Inv (OnSuccess (λ o. o ≡ none)) (Cache.get P user_cache "key_123")
    unfolding Cache.get
    missing =
        Ensures-mono (not_found T)
          (Ensures-get P c Inv (RightUser T) store marks sleeps r "users" "key_123")

    any_result : {A : Type 0} (o : Result CacheError A) → OnSuccess (λ _. Unit {0}) o
    any_result (ok a) = tt
    any_result (err x) = tt

    stores_key :
        (v : Serde.Val J (Types.api_key T))
        → Ensures Inv (OnSuccess (λ _. Unit {0})) (Cache.set P api_key_cache "key_123" v)
    unfolding Cache.set
    stores_key v =
        Ensures-mono (λ o _. any_result o)
          (set_any P c' Inv (UserFits T) store' "apikeys" "key_123" v none (api_key-fits T))

    reads_key : Ensures Inv (OnSuccess (λ _. Unit {0})) (Cache.get P api_key_cache "key_123")
    unfolding Cache.get
    reads_key =
        Ensures-mono (λ o _. any_result o)
          (get_any P c' Inv (UserFits T) store' "apikeys" "key_123")

    pub Ensures-use_caches :
        Ensures Inv (λ _. Unit {0}) (use_caches shared P user_cache api_key_cache)
    unfolding use_caches
    Ensures-use_caches = Ensures-try (loaded (load_user shared) loads_user) (λ user h.
        steps (prints (user_line user) h) (λ _ _.
          Ensures-try (Ensures-bind (sleeps 50) (λ _ _. loaded (load_again shared) loads_again))
            (λ user2 h2. steps (prints (cached_user_line user2) h2) (λ _ _.
              Ensures-try (stores_key _) (λ _ _. Ensures-try reads_key (λ api_key _.
                steps (prints (in_api_key_cache api_key) tt) (λ _ _. Ensures-try missing (λ o h3.
                  steps (prints (in_user_cache o) h3) (λ _ _.
                    steps (prints same_store tt)
                      (λ _ _. steps (prints saves_memory tt) (λ _ _. returns tt)))))))))))
