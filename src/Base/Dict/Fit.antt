-- ===== src/Base/Dict/Fit.antt =====
-- Maps in which each entry fits its key.
use swr_cache.Base.Tests.{if◌then◌else◌}
use swr_cache.Base.Dict.{
  Dict, IsMap, lookup, insert, remove, lookup-insert, lookup-remove, IsMap-insert, IsMap-remove,
}
use mathlib.Core.Path.{◌≡◌, refl, sym, ◌∙◌}
use mathlib.Core.Bool.{Bool, true, false}
use mathlib.Core.Option.{Option, some}
use Prim.Native.String.{String}
use native.Mathlib.Omega.{arith}
use text.Mathlib.Text.{◌==◌}
use text.Mathlib.TextEquality.{eq_iff}

some_eq : {A : Type 0} {a b : A} → Option.some a ≡ some b → a ≡ b
some_eq h = cc

module _ {V : Type 0} (Fits : String → V → Type 0) where
  -- A key stands once in the map, and each entry fits its key.
  pub record IsFit (m : Dict V) : Type 0 where
    pub map : IsMap m
    pub fits : (k : String) (e : V) → lookup k m ≡ some e → Fits k e

  pub IsFit-insert : (k : String) (e : V) (m : Dict V) → Fits k e → IsFit m → IsFit (insert k e m)
  IsFit-insert k e m h v = record {
    map = IsMap-insert k e m v.map;
    fits = λ j e' found. inserted j e' ((k == j)) refl (sym (lookup-insert k j e m) ∙ found);
  }
    where
      inserted :
          (j : String) (e' : V) (b : Bool)
          → (k == j) ≡ b
          → (if b then some e else lookup j m) ≡ some e'
          → Fits j e'
      inserted j e' true same found = rw (← (eq_iff k j).0 same, ← some_eq found) h
      inserted j e' false _ found = v.fits j e' found

  pub IsFit-remove : (k : String) (m : Dict V) → IsFit m → IsFit (remove k m)
  IsFit-remove k m v = record {
    map = IsMap-remove k m v.map;
    fits = λ j e found. v.fits j e (ground (arith, lookup-remove k j m v.map));
  }
