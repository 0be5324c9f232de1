-- ===== src/Utils/Keys.antt =====
-- Composite keys that are equal (src/utils.rs, build_cache_key).
use swr_cache.Base.{String, ◌⧺◌, ◌≡◌, ◌≢◌, refl, ap, sym, ◌∙◌}
use swr_cache.Utils.{build_cache_key}
use Prim.Native.Char.{Char}
use Prim.Native.String.append
use text.Mathlib.TextLemmas.{append_assoc, head-eq_of_cons-eq, tail-eq_of_cons-eq}
use mathlib.Core.Path.{ap₂}

abbrev pub colon : Char
colon = ":"

abbrev pub NoColon : String → Type 0
NoColon String.[] = Unit
NoColon (String.◌∷◌ c s) = (c ≢ colon) × NoColon s

colon_front : (k : String) → ":" ⧺ k ≡ String.◌∷◌ colon k
colon_front k = append.cons colon String.[] k ∙ ap (String.◌∷◌ colon) (append.nil k)

split_front :
    (n m k j : String)
    → NoColon n
    → NoColon m
    → n ⧺ String.◌∷◌ colon k ≡ m ⧺ String.◌∷◌ colon j
    → (n ≡ m) × (k ≡ j)
split_front String.[] String.[] k j hn hm e =
    (refl, tail-eq_of_cons-eq (sym (append.nil _) ∙ e ∙ append.nil _))
split_front String.[] (String.◌∷◌ c m) k j hn hm e =
    absurd (hm.0 (sym (head-eq_of_cons-eq (sym (append.nil _) ∙ e ∙ append.cons c m _))))
split_front (String.◌∷◌ c n) String.[] k j hn hm e =
    absurd (hn.0 (head-eq_of_cons-eq (sym (append.cons c n _) ∙ e ∙ append.nil _)))
split_front (String.◌∷◌ c n) (String.◌∷◌ d m) k j hn hm e =
    let fronts = sym (append.cons c n _) ∙ e ∙ append.cons d m _ in
    let (same, rest) = split_front n m k j hn.1 hm.1 (tail-eq_of_cons-eq fronts) in
    (ap₂ String.◌∷◌ (head-eq_of_cons-eq fronts) same, rest)

-- Keys of namespaces without a colon clash only if namespace and key are the same.
pub build_cache_key_injective :
    (n m k j : String)
    → NoColon n
    → NoColon m
    → build_cache_key n k ≡ build_cache_key m j
    → (n ≡ m) × (k ≡ j)
unfolding build_cache_key
build_cache_key_injective n m k j hn hm e =
    split_front n m k j hn hm (rw (← colon_front k, ← colon_front j) e)

-- A colon may belong to the namespace or to the key: such pairs share one entry.
pub build_cache_key_clash :
    (a b c : String) → build_cache_key (a ⧺ ":" ⧺ b) c ≡ build_cache_key a (b ⧺ ":" ⧺ c)
unfolding build_cache_key
build_cache_key_clash a b c = simp append_assoc
