-- ===== src/Base/Dict/Sort.antt =====
-- std's stable `sort_by_key` on pairs of a key and an i64, and what it does to the map of the pairs.
use swr_cache.Base.Tests.{if◌then◌else◌, length, take, drop}
use swr_cache.Base.Int.{ℤ, leb_ℤ, ◌≤ℤ◌}
use swr_cache.Base.Dict.{Dict, lookup, IsMap}
use Prim.Native.Nat.{ℕ, zero, suc, ◌+◌}
use Prim.Native.String.{String}
use mathlib.Core.Path.{◌≡◌, refl}
use mathlib.Core.Option.{none, some}
use mathlib.Core.List.{[], ◌∷◌}
use native.Mathlib.Omega.{arith}
use text.Mathlib.Text.{◌==◌}
use text.Mathlib.TextEquality.{eq_iff}

-- An entry before the first that is not below it.
place : String → ℤ → Dict ℤ → Dict ℤ
place k a [] = (k, a) ∷ []
place k a ((j, b) ∷ m) = if leb_ℤ a b then (k, a) ∷ (j, b) ∷ m else (j, b) ∷ place k a m

unfoldable pub sort_by_key : Dict ℤ → Dict ℤ
unfolding place
sort_by_key [] = []
sort_by_key ((k, a) ∷ m) = place k a (sort_by_key m)

abbrev pub AllAbove : ℤ → Dict ℤ → Type 0
AllAbove a [] = Unit
AllAbove a ((_, b) ∷ m) = (a ≤ℤ b) × AllAbove a m

abbrev pub IsSorted : Dict ℤ → Type 0
IsSorted [] = Unit
IsSorted ((_, a) ∷ m) = AllAbove a m × IsSorted m

lookup-place :
    (k j : String) (a : ℤ) (m : Dict ℤ)
    → lookup k m ≡ none
    → lookup j (place k a m) ≡ (if k == j then some a else lookup j m)
unfolding lookup place
lookup-place k j a [] h = refl
lookup-place k j a ((i, b) ∷ m) h =
    ground (arith, eq_iff i k, eq_iff i j, eq_iff k j, lookup-place k j a m)

pub lookup-sort_by_key : (j : String) (m : Dict ℤ) → IsMap m → lookup j (sort_by_key m) ≡ lookup j m
unfolding lookup sort_by_key
lookup-sort_by_key j [] d = refl
lookup-sort_by_key j ((k, a) ∷ m) d = ground (
  arith,
  lookup-sort_by_key k m d.1,
  lookup-sort_by_key j m d.1,
  lookup-place k j a (sort_by_key m),
)

IsMap-place : (k : String) (a : ℤ) (m : Dict ℤ) → lookup k m ≡ none → IsMap m → IsMap (place k a m)
unfolding lookup place
IsMap-place k a [] h d = (refl, tt)
IsMap-place k a ((i, b) ∷ m) h d =
    ground (arith, eq_iff i k, eq_iff k i, lookup-place k i a m, IsMap-place k a m)

pub IsMap-sort_by_key : (m : Dict ℤ) → IsMap m → IsMap (sort_by_key m)
unfolding sort_by_key
IsMap-sort_by_key [] d = tt
IsMap-sort_by_key ((k, a) ∷ m) d =
    ground
      (arith, lookup-sort_by_key k m d.1, IsMap-sort_by_key m d.1, IsMap-place k a (sort_by_key m))

length-place : (k : String) (a : ℤ) (m : Dict ℤ) → length (place k a m) ≡ length m + 1
unfolding place
length-place k a [] = omega arith
length-place k a ((i, b) ∷ m) = ground (arith, length-place k a m)

pub length-sort_by_key : (m : Dict ℤ) → length (sort_by_key m) ≡ length m
unfolding sort_by_key
length-sort_by_key [] = refl
length-sort_by_key ((k, a) ∷ m) =
    omega (arith, length-place k a (sort_by_key m), length-sort_by_key m)

AllAbove-trans : (a b : ℤ) (m : Dict ℤ) → a ≤ℤ b → AllAbove b m → AllAbove a m
AllAbove-trans a b [] h above = tt
AllAbove-trans a b ((_, c) ∷ m) h above = (omega (arith, above.0), AllAbove-trans a b m h above.1)

AllAbove-place :
    (b : ℤ) (k : String) (a : ℤ) (m : Dict ℤ) → b ≤ℤ a → AllAbove b m → AllAbove b (place k a m)
unfolding place
AllAbove-place b k a [] h above = (h, tt)
AllAbove-place b k a ((i, c) ∷ m) h above = ground (arith, AllAbove-place b k a m h above.1)

IsSorted-place : (k : String) (a : ℤ) (m : Dict ℤ) → IsSorted m → IsSorted (place k a m)
unfolding place
IsSorted-place k a [] s = (tt, tt)
IsSorted-place k a ((i, c) ∷ m) s =
    ground (arith, AllAbove-trans a c m, AllAbove-place c k a m, IsSorted-place k a m)

pub IsSorted-sort_by_key : (m : Dict ℤ) → IsSorted (sort_by_key m)
unfolding sort_by_key
IsSorted-sort_by_key [] = tt
IsSorted-sort_by_key ((k, a) ∷ m) = IsSorted-place k a (sort_by_key m) (IsSorted-sort_by_key m)

lookup-AllAbove :
    (a : ℤ) (k : String) (m : Dict ℤ) {b : ℤ} → AllAbove a m → lookup k m ≡ some b → a ≤ℤ b
unfolding lookup
lookup-AllAbove a k [] above h = cc
lookup-AllAbove a k ((i, c) ∷ m) {b} above h = ground (arith, lookup-AllAbove a k m {b = b})

AllAbove-drop : (a : ℤ) (n : ℕ) (m : Dict ℤ) → AllAbove a m → AllAbove a (drop n m)
AllAbove-drop a zero m above = above
AllAbove-drop a (suc n) [] above = above
AllAbove-drop a (suc n) ((_, b) ∷ m) above = AllAbove-drop a n m above.1

-- In a sorted list what stands among the first `n` is not above what stands after them.
pub lookup-take-le-drop :
    (n : ℕ) (m : Dict ℤ) (k j : String) {a b : ℤ}
    → IsSorted m
    → lookup k (take n m) ≡ some a
    → lookup j (drop n m) ≡ some b
    → a ≤ℤ b
unfolding lookup
lookup-take-le-drop zero m k j s hk hj = absurd (ground arith)
lookup-take-le-drop (suc n) [] k j s hk hj = absurd (ground arith)
lookup-take-le-drop (suc n) ((i, c) ∷ m) k j {a} {b} s hk hj = ground (
  arith,
  lookup-take-le-drop n m k j {a = a} {b = b},
  lookup-AllAbove c j (drop n m) {b = b} (AllAbove-drop c n m s.0),
)
