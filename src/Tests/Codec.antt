-- ===== src/Tests/Codec.antt =====
-- A conversion of entries to text for the tests: each number in unary, ended by a dot.
use swr_cache.Base.{
  ℕ, zero, suc, ◌≡◌, refl, ap, sym, ◌∙◌, Bool, true, false, String, Result, ok, err, leb,
  if◌then◌else◌,
}
use swr_cache.Base.Int.{ℤ, pos, negsuc}
use swr_cache.Platform.{Serde, RoundTrips}
use mathlib.Core.Bool.{Bool-discrete}
use Prim.Native.Char.{Char, char}

abbrev pub code : Char → ℕ
code (char n p) = n

abbrev dot : Char
dot = "."

abbrev digit : Char
digit = "1"

abbrev minus : Char
minus = "-"

abbrev encode : ℕ → String → String
encode zero s = String.◌∷◌ dot s
encode (suc n) s = String.◌∷◌ digit (encode n s)

abbrev one_more : ℕ × String → ℕ × String
one_more (n, s) = (suc n, s)

abbrev decode : String → ℕ × String
decode String.[] = (0, String.[])
decode (String.◌∷◌ c s) = if leb (code c) 46 then (0, s) else one_more (decode s)

decode-encode : (n : ℕ) (s : String) → decode (encode n s) ≡ (n, s)
decode-encode zero s = refl
decode-encode (suc n) s = ap one_more (decode-encode n s)

-- A sign, then the number.
abbrev encode_ℤ : ℤ → String → String
encode_ℤ (pos n) s = String.◌∷◌ digit (encode n s)
encode_ℤ (negsuc n) s = String.◌∷◌ minus (encode n s)

abbrev signed : Bool → ℕ × String → ℤ × String
signed b (n, s) = (if b then negsuc n else pos n, s)

abbrev decode_ℤ : String → ℤ × String
decode_ℤ String.[] = (pos 0, String.[])
decode_ℤ (String.◌∷◌ c s) = signed (leb (code c) 46) (decode s)

decode_ℤ-encode_ℤ : (a : ℤ) (s : String) → decode_ℤ (encode_ℤ a s) ≡ (a, s)
decode_ℤ-encode_ℤ (pos n) s = ap (signed false) (decode-encode n s)
decode_ℤ-encode_ℤ (negsuc n) s = ap (signed true) (decode-encode n s)

-- The three fields, one after the other.
abbrev pub to_text : ℕ → ℤ → ℤ → String
to_text v fresh stale = encode v (encode_ℤ fresh (encode_ℤ stale String.[]))

abbrev from_text : String → ℕ × ℤ × ℤ
from_text s =
    let v = decode s in
    let fresh = decode_ℤ v.1 in let stale = decode_ℤ fresh.1 in (v.0, fresh.0, stale.0)

from_text-to_text :
    (v : ℕ) (fresh stale : ℤ) → from_text (to_text v fresh stale) ≡ (v, fresh, stale)
from_text-to_text v fresh stale = rw (
  decode-encode v (encode_ℤ fresh (encode_ℤ stale String.[])),
  decode_ℤ-encode_ℤ fresh (encode_ℤ stale String.[]),
  decode_ℤ-encode_ℤ stale String.[],
)

-- Two types of values, both of them numbers.
abbrev pub serde : Serde
serde = record {
  TypeId = Bool;
  same_type = Bool-discrete;
  Val = λ _. ℕ;
  to_string = λ _ v fresh stale. ok (to_text v fresh stale);
  from_str = λ _ s. ok (from_text s);
  metadata_from_str = λ s. let p = from_text s in ok (p.1, p.2);
}

abbrev text_of : Result String String → String
text_of (ok s) = s
text_of (err s) = s

abbrev text_ok : String → Result String String
text_ok s = ok s

written :
    (v : ℕ) (fresh stale : ℤ) (s : String)
    → text_ok (to_text v fresh stale) ≡ ok s
    → from_text s ≡ (v, fresh, stale)
written v fresh stale s h =
    ap (λ r. from_text (text_of r)) (sym h) ∙ from_text-to_text v fresh stale

pub serde-RoundTrips : RoundTrips serde
serde-RoundTrips = record {
  entry = λ t v fresh stale s h. ap ok (written v fresh stale s h);
  metadata =
      λ t v fresh stale s h. ap (λ (p : ℕ × ℤ × ℤ). ok (p.1, p.2)) (written v fresh stale s h);
}
