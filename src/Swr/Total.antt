-- ===== src/Swr/Total.antt =====
-- The kind of answer that `swr` gives (src/swr.rs: swr).
use swr_cache.Base.{
  ◌≡◌, refl, ap, ◌∙◌, Bool, true, false, Option, none, some, String, Result, ok, err,
}
use swr_cache.Base.Async.{Async, ◌>>=◌}
use swr_cache.Base.Async.Exec.{exec, result-bind}
use swr_cache.Platform.{Serde, Platform}
use swr_cache.Error.{CacheError}
use swr_cache.Swr.Data.{SwrCache, Origin, GetResult}
use swr_cache.Swr.Direct.{get_internal}
use swr_cache.Swr.{
  answer, answer_result, or_expired, cache_loaded, deduplicated_load_from_origin, swr,
}
use swr_cache.Swr.Loads.{load_ok}
use swr_cache.Swr.Outcomes.{exec-or_expired, exec-cache_loaded}

module _ {J : Serde} {W : Type 0} (P : Platform W) {t : Serde.TypeId J} (c : SwrCache J W t)
    (namespace key : String) (load : Origin J W t) where
  abbrev Answers : Async W (Result CacheError (Option (Serde.Val J t))) → Type 0
  Answers m = (w : W) → (r : Option (Serde.Val J t)) × ((exec m w).result ≡ ok r)

  Answers-load :
      (k : Result String (Option (Serde.Val J t))
        → Async W (Result CacheError (Option (Serde.Val J t))))
      → ((o : Option (Serde.Val J t)) → Answers (k (ok o)))
      → Answers (deduplicated_load_from_origin P c namespace key load >>= k)
  Answers-load k step w =
      let dedup = deduplicated_load_from_origin P c namespace key load in
      let after = (exec dedup w).world in
      let (o, loaded) = load_ok P c namespace key load w in
      let (r, e) = step o after in
      (r, result-bind dedup k w ∙ ap (λ l. (exec (k l) after).result) loaded ∙ e)

  Answers-cache_loaded :
      (o : Option (Serde.Val J t)) → Answers (cache_loaded P c namespace key (ok o))
  Answers-cache_loaded o w = (o, ap (λ p. p.result) (exec-cache_loaded P c namespace key o w))

  Answers-or_expired :
      (old : Serde.Val J t) (o : Option (Serde.Val J t))
      → Answers (or_expired P c namespace key old (ok o))
  Answers-or_expired old o w = (_, ap (λ p. p.result) (exec-or_expired P c namespace key old o w))

  Answers-answer :
      (v : Option (Serde.Val J t)) (revalidate is_expired : Bool)
      → Answers (answer P c namespace key load v revalidate is_expired)
  unfolding answer
  Answers-answer (some v) true false = λ w. (some v, refl)
  Answers-answer (some v) true true =
      Answers-load (or_expired P c namespace key v) (Answers-or_expired v)
  Answers-answer (some v) false false = λ w. (some v, refl)
  Answers-answer (some v) false true =
      Answers-load (cache_loaded P c namespace key) Answers-cache_loaded
  Answers-answer none revalidate is_expired =
      Answers-load (cache_loaded P c namespace key) Answers-cache_loaded

  Answers-answer_result :
      (r : Result CacheError (GetResult (Serde.Val J t)))
      → Answers (answer_result P c namespace key load r)
  Answers-answer_result (ok r) = Answers-answer r.value r.revalidate r.is_expired
  Answers-answer_result (err e) = Answers-answer none false false

  -- Whatever the store answers, its errors included, whatever is marked, and whatever the origin
  -- gives, `swr` answers with a value or with nothing, and never with an error.
  pub swr_total :
      (w : W) → (r : Option (Serde.Val J t)) × ((exec (swr P c namespace key load) w).result ≡ ok r)
  unfolding swr
  swr_total w =
      let internal = get_internal P c namespace key in
      let (r, e) = Answers-answer_result (exec internal w).result (exec internal w).world in
      (r, result-bind internal (answer_result P c namespace key load) w ∙ e)
