-- ===== src/Range/Parse/Read.antt =====
-- backend/api_common.py, `_parse_range`: the ranges it accepts.
use Prim.Native.Char.{Char, code}
use Prim.Native.Nat.{◌^◌}
use Prim.Native.String.{◌++◌}
use native.Mathlib.Nat.{pow-suc, add-mul, mul_assoc, mul-le-mul_right, mul_comm}
use text.Mathlib.TextLemmas.{cons-append}
use ghpulse.Prelude.{
  ℕ, zero, suc, ◌+◌, ◌-◌, ◌*◌, ◌≤◌, ◌<◌, String, Bool, true, false, ◌&&◌, ◌≡◌, refl, ◌∙◌, ap, some,
  str_eq, eq_iff, leb, ok, err, ◌>>=◌, raise_if, if◌then◌else◌, arith, Bool-cases, inl, inr,
}
use ghpulse.Prelude.Int.{pos, leb_ℤ}
use ghpulse.Snapshot.{Time}
use ghpulse.Snapshot.Require.{text_length}
use ghpulse.Range.Parse.{
  bad_range, RangeUnit, days, hours, is_digit, scan, match_range, length_of, greatest, span_of,
  parse_range,
}

-- A text of digits, and the number it stands for, place by place.
unfoldable pub all_digits : String → Bool
all_digits String.[] = true
all_digits (String.◌∷◌ c s) = is_digit (code c) && all_digits s

unfoldable pub value_of : String → ℕ
value_of String.[] = 0
value_of (String.◌∷◌ c s) = (code c - 48) * 10 ^ text_length s + value_of s

abbrev pub letter : RangeUnit → String
letter days = "d"
letter hours = "h"

pub shift : (n d p v : ℕ) → (n * 10 + d) * p + v ≡ n * (p * 10) + (d * p + v)
shift n d p v = omega (arith, add-mul (n * 10) d p, mul_assoc n 10 p, mul_comm 10 p)

scan-digits :
    (n : ℕ) (s : String) (u : RangeUnit)
    → all_digits s ≡ true
    → scan n (s ++ letter u)
      ≡ some (record { number = n * 10 ^ text_length s + value_of s; unit = u })
unfolding scan all_digits value_of text_length is_digit
scan-digits n String.[] days h =
    ap (λ (m : ℕ). some (record { number = m; unit = days })) (omega arith)
scan-digits n String.[] hours h =
    ap (λ (m : ℕ). some (record { number = m; unit = hours })) (omega arith)
scan-digits n (String.◌∷◌ c s) u h =
    let digit : is_digit (code c) ≡ true = ground arith in
    rw (cons-append, digit)
      (scan-digits (n * 10 + (code c - 48)) s u (ground arith)
        ∙ ap (λ (m : ℕ). some (record { number = m; unit = u }))
            (shift n (code c - 48) (10 ^ text_length s) (value_of s)
              ∙ rw (pow-suc 10 (text_length s)) refl))

-- A positive numeral: digits, the first of which is not zero.
unfoldable pub is_numeral : String → Bool
is_numeral String.[] = false
is_numeral (String.◌∷◌ c s) = (leb b'1' (code c) && leb (code c) b'9') && all_digits s

abbrev first_code : String → ℕ
first_code String.[] = 0
first_code (String.◌∷◌ c s) = code c

numeral-ne-all :
    (c : Char) (s : String)
    → (leb b'1' (code c) && leb (code c) b'9') ≡ true
    → str_eq (String.◌∷◌ c s) "all" ≡ false
numeral-ne-all c s h = elim (Bool-cases (str_eq (String.◌∷◌ c s) "all")) [
  | inl e ↦
      let head : code c ≡ 97 = ap first_code ((eq_iff (String.◌∷◌ c s) "all").0 e) in
      absurd (ground arith)
  | inr e ↦ e
]

match_range-numeral :
    (s : String) (u : RangeUnit)
    → is_numeral s ≡ true
    → match_range (s ++ letter u) ≡ some (record { number = value_of s; unit = u })
unfolding match_range is_numeral value_of
match_range-numeral String.[] u h = cc h
match_range-numeral (String.◌∷◌ c s) u h =
    let head : (leb b'1' (code c) && leb (code c) b'9') ≡ true = ground arith in
    rw (cons-append, head) (scan-digits (code c - 48) s u (ground arith))

pow_pos : (k : ℕ) → 0 < 10 ^ k
pow_pos zero = omega arith
pow_pos (suc k) = omega (arith, pow-suc 10 k, pow_pos k)

value_of-pos : (s : String) → is_numeral s ≡ true → 0 < value_of s
unfolding is_numeral value_of
value_of-pos String.[] h = cc h
value_of-pos (String.◌∷◌ c s) h =
    let head : 1 ≤ code c - 48 = ground arith in
    let big = pow_pos (text_length s) in
    let at_least : 1 * 10 ^ text_length s ≤ (code c - 48) * 10 ^ text_length s =
      mul-le-mul_right (10 ^ text_length s) head in
    omega arith

span_pos : (n : ℕ) (u : RangeUnit) → 0 < n → leb_ℤ (pos (n * length_of u)) (pos 0) ≡ false
span_pos n days h = ground arith
span_pos n hours h = ground arith

not_all : (s : String) (u : RangeUnit) → is_numeral s ≡ true → str_eq (s ++ letter u) "all" ≡ false
unfolding is_numeral
not_all String.[] u h = cc h
not_all (String.◌∷◌ c s) u h = rw cons-append (numeral-ne-all c (s ++ letter u) (ground arith))

-- x
pub parse_range-numeral :
    (now : Time) (s : String) (u : RangeUnit)
    → is_numeral s ≡ true
    → parse_range now (s ++ letter u) ≡ (
        if leb (value_of s) (greatest u)
        then ok (pos (value_of s * length_of u))
        else err bad_range)
unfolding parse_range span_of raise_if ◌>>=◌
parse_range-numeral now s u h =
    rw (not_all s u h, match_range-numeral s u h)
      (elim (Bool-cases (leb (value_of s) (greatest u))) [
        | inl e ↦ rw (e, span_pos (value_of s) u (value_of-pos s h)) refl
        | inr e ↦ rw e refl
      ])
