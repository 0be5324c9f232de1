-- ===== src/Base/Dict.antt =====
-- std's `HashMap` with string keys, as an association list. The order of the list stands for the
-- order in which `iter` meets the entries, which std leaves open: the lemmas hold for every order.
pub mod Sort
pub mod Fit
use swr_cache.Base.Tests.{if◌then◌else◌, length}
use swr_cache.Base.Outcomes.{map_or}
use Prim.Native.Nat.{ℕ, ◌+◌}
use Prim.Native.String.{String}
use mathlib.Core.Path.{◌≡◌, refl}
use mathlib.Core.Logic.{◌≢◌}
use mathlib.Core.Bool.{Bool, true, false}
use mathlib.Core.Option.{Option, none, some}
use mathlib.Core.List.{List, [], ◌∷◌, ◌++◌}
use native.Mathlib.Omega.{arith}
use text.Mathlib.Text.{◌==◌}
use text.Mathlib.TextEquality.{eq_iff}

abbrev pub Dict {ℓ} : Type ℓ → Type ℓ
Dict V = List (String × V)

-- `o.filter(p)`
abbrev pub filter_some {ℓ} : {V : Type ℓ} → (V → Bool) → Option V → Option V
filter_some p none = none
filter_some p (some v) = if p v then some v else none

abbrev pub or_else {ℓ} : {V : Type ℓ} → Option V → Option V → Option V
or_else none o = o
or_else (some v) o = some v

module _ {ℓ} {V : Type ℓ} where
  -- `m.get(k)`
  unfoldable pub lookup : String → Dict V → Option V
  lookup key [] = none
  lookup key ((i, x) ∷ rest) = if i == key then some x else lookup key rest

  -- `m.insert(k, v)`
  unfoldable pub insert : String → V → Dict V → Dict V
  insert key x [] = (key, x) ∷ []
  insert key x ((i, y) ∷ rest) = if i == key then (key, x) ∷ rest else (i, y) ∷ insert key x rest

  -- `m.remove(k)`
  unfoldable pub remove : String → Dict V → Dict V
  remove k [] = []
  remove k ((j, v) ∷ m) = if j == k then m else (j, v) ∷ remove k m

  -- `m.retain(|_, v| p(v))`
  unfoldable pub retain : (V → Bool) → Dict V → Dict V
  retain p [] = []
  retain p ((j, v) ∷ m) = let rest = retain p m in if p v then (j, v) ∷ rest else rest

  -- `m.contains_key(k)`
  unfoldable pub contains_key : String → Dict V → Bool
  unfolding lookup
  contains_key k m = map_or (lookup k m) (λ _. true) false

  -- A key stands once in a map.
  abbrev pub IsMap : Dict V → Type ℓ
  IsMap [] = Unit
  IsMap ((k, v) ∷ m) = (lookup k m ≡ none) × IsMap m

  pub lookup-insert :
      (key other : String) (x : V) (m : Dict V)
      → lookup other (insert key x m) ≡ (if key == other then some x else lookup other m)
  unfolding insert lookup
  lookup-insert key other x [] = refl
  lookup-insert key other x ((i, y) ∷ rest) =
      let elsewhere = lookup-insert key other x rest in
      ground (elsewhere, arith, eq_iff i other, eq_iff i key, eq_iff key other)

  pub lookup-remove :
      (k j : String) (m : Dict V)
      → IsMap m
      → lookup j (remove k m) ≡ (if k == j then none else lookup j m)
  unfolding lookup remove
  lookup-remove k j [] d = ground arith
  lookup-remove k j ((i, w) ∷ m) d =
      ground (arith, eq_iff k j, eq_iff i k, eq_iff i j, lookup-remove k j m d.1)

  pub lookup-retain :
      (p : V → Bool) (k : String) (m : Dict V)
      → IsMap m
      → lookup k (retain p m) ≡ filter_some p (lookup k m)
  unfolding lookup retain
  lookup-retain p k [] d = refl
  lookup-retain p k ((i, w) ∷ m) d = ground (arith, eq_iff i k, lookup-retain p k m d.1)

  pub IsMap-insert : (k : String) (v : V) (m : Dict V) → IsMap m → IsMap (insert k v m)
  unfolding lookup insert
  IsMap-insert k v [] d = (refl, tt)
  IsMap-insert k v ((i, w) ∷ m) d =
      ground (arith, eq_iff i k, eq_iff k i, lookup-insert k i v m, IsMap-insert k v m d.1)

  pub IsMap-remove : (k : String) (m : Dict V) → IsMap m → IsMap (remove k m)
  unfolding remove
  IsMap-remove k [] d = tt
  IsMap-remove k ((i, w) ∷ m) d = ground (arith, lookup-remove k i m d.1, IsMap-remove k m d.1)

  pub IsMap-retain : (p : V → Bool) (m : Dict V) → IsMap m → IsMap (retain p m)
  unfolding retain
  IsMap-retain p [] d = tt
  IsMap-retain p ((i, w) ∷ m) d = ground (arith, lookup-retain p i m d.1, IsMap-retain p m d.1)

  pub length-remove :
      (k : String) (m : Dict V) {v : V} → lookup k m ≡ some v → length (remove k m) + 1 ≡ length m
  unfolding lookup remove
  length-remove k [] h = cc
  length-remove k ((i, w) ∷ m) {v} h = ground (arith, length-remove k m {v = v})

  pub lookup-append :
      (k : String) (m n : Dict V) → lookup k (m ++ n) ≡ or_else (lookup k m) (lookup k n)
  unfolding lookup
  lookup-append k [] n = refl
  lookup-append k ((i, w) ∷ m) n = ground (arith, lookup-append k m n)
