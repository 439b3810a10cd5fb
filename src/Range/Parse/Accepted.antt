-- ===== src/Range/Parse/Accepted.antt =====
-- backend/api_common.py, `_parse_range`: nothing else is accepted.
use Prim.Native.Char.{Char, code}
use Prim.Native.Nat.{◌^◌}
use Prim.Native.String.{◌++◌}
use native.Mathlib.Nat.{pow-suc}
use text.Mathlib.TextLemmas.{nil-append, cons-append}
use text.Mathlib.TextEquality.{Char-path}
use ghpulse.Prelude.{
  ℕ, ◌+◌, ◌-◌, ◌*◌, ◌≤◌, String, Bool, true, false, ◌&&◌, ◌≡◌, ◌↔◌, refl, ◌∙◌, Option, none, some,
  str_eq, eq_iff, leb, ◌==◌, ==_iff, ok, ◌>>=◌, >>=-eq-ok, raise_if, arith, Bool-cases, inl, inr,
}
use ghpulse.Prelude.Int.{ℤ, pos, leb_ℤ}
use ghpulse.Snapshot.{Time}
use ghpulse.Snapshot.Require.{text_length}
use ghpulse.Range.Parse.{
  HttpError, bad_range, RangeUnit, days, hours, Count, is_digit, scan, match_range, length_of,
  greatest, span_of, matched, parse_range, ending,
}
use ghpulse.Range.Parse.Read.{all_digits, is_numeral, value_of, letter, shift, parse_range-numeral}

-- What a scan has read.
abbrev Scanned : ℕ → String → Count → Type 0
Scanned n t c =
    (s : String) × (t ≡ s ++ letter c.unit)
    × (all_digits s ≡ true)
    × (c.number ≡ n * 10 ^ text_length s + value_of s)

last_char :
    (c d : Char) (s : String)
    → (str_eq s "" && code c == code d) ≡ true
    → String.◌∷◌ c s ≡ String.◌∷◌ d ""
last_char c d s h =
    let empty : s ≡ "" = (eq_iff s "").0 (ground arith) in
    let same_char : c ≡ d = Char-path c d ((==_iff (code c) (code d)).0 (ground arith)) in
    rw (empty, same_char) refl

ended :
    (n : ℕ) (t : String) (u : RangeUnit) (r : Count)
    → t ≡ letter u
    → ◌≡◌ {A = Option Count} (some (record { number = n; unit = u })) (some r)
    → Scanned n t r
unfolding all_digits value_of text_length
ended n t u r at_end h =
    let is : record { number = n; unit = u } ≡ r = cc h in
    rw (← is) ("", rw nil-append at_end, refl, omega arith)

ending-Scanned :
    (n : ℕ) (c : Char) (s : String) (r : Count)
    → ending (code c) s n ≡ some r
    → Scanned n (String.◌∷◌ c s) r
unfolding all_digits value_of text_length
ending-Scanned n c s r h = elim (Bool-cases (str_eq s "" && code c == b'd')) [
  | inl e ↦ ended n (String.◌∷◌ c s) days r (last_char c "d" s e) (rw e at h)
  | inr e ↦ elim (Bool-cases (str_eq s "" && code c == b'h')) [
    | inl f ↦ ended n (String.◌∷◌ c s) hours r (last_char c "h" s f) (rw (e, f) at h)
    | inr f ↦ cc (rw (e, f) at h)
  ]
]

scan-Scanned : (n : ℕ) (t : String) (r : Count) → scan n t ≡ some r → Scanned n t r
unfolding scan all_digits value_of text_length
scan-Scanned n String.[] r h = cc h
scan-Scanned n (String.◌∷◌ c t) r h = elim (Bool-cases (is_digit (code c))) [
  | inl e ↦
      let (s, split, all, reads) = scan-Scanned (n * 10 + (code c - 48)) t r (rw e at h) in
      (
        String.◌∷◌ c s,
        rw (split, cons-append) refl,
        rw e all,
        reads
            ∙ shift n (code c - 48) (10 ^ text_length s) (value_of s)
            ∙ rw (pow-suc 10 (text_length s)) refl,
      )
  | inr e ↦ ending-Scanned n c t r (rw e at h)
]

match_range-some :
    (t : String) (r : Count)
    → match_range t ≡ some r
    → (s : String) × (t ≡ s ++ letter r.unit) × (is_numeral s ≡ true) × (r.number ≡ value_of s)
unfolding match_range is_numeral value_of
match_range-some String.[] r h = cc h
match_range-some (String.◌∷◌ c t) r h = elim (Bool-cases (leb b'1' (code c) && leb (code c) b'9')) [
  | inl e ↦
      let (s, split, all, reads) = scan-Scanned (code c - 48) t r (rw e at h) in
      (String.◌∷◌ c s, rw (split, cons-append) refl, rw e all, reads)
  | inr e ↦ cc (rw e at h)
]

abbrev pub IsRange : String → ℤ → Type 0
IsRange v delta =
    (s : String) × (u : RangeUnit) × (v ≡ s ++ letter u)
    × (is_numeral s ≡ true)
    × (value_of s ≤ greatest u)
    × (delta ≡ pos (value_of s * length_of u))

matched-ok : (o : Option Count) (c : Count) → matched o ≡ ok c → o ≡ some c
matched-ok none c h = cc h
matched-ok (some a) c h = cc h

span_of-ok :
    (c : Count) (delta : ℤ)
    → span_of c ≡ ok delta
    → (c.number ≤ greatest c.unit) × (delta ≡ pos (c.number * length_of c.unit))
unfolding span_of
span_of-ok c delta h = elim (Bool-cases (leb c.number (greatest c.unit))) [
  | inl e ↦ let same = (rw e at h) in (ground arith, cc same)
  | inr e ↦ cc (rw e at h)
]

guarded : (c : Bool) (e : HttpError) (a b : ℤ) → (raise_if c e >>= λ _. ok a) ≡ ok b → b ≡ a
unfolding raise_if ◌>>=◌
guarded true e a b h = cc h
guarded false e a b h = cc h

parse_range-IsRange :
    (now : Time) (v : String) (delta : ℤ)
    → str_eq v "all" ≡ false
    → parse_range now v ≡ ok delta
    → IsRange v delta
unfolding parse_range
parse_range-IsRange now v delta other accepted =
    let (c, found, rest) = >>=-eq-ok (matched (match_range v)) _ (rw other at accepted) in
    let (span, spanned, last) = >>=-eq-ok (span_of c) _ rest in
    let (s, split, numeral, reads) = match_range-some v c (matched-ok (match_range v) c found) in
    let (fits, is) = span_of-ok c span spanned in
    let same = guarded (leb_ℤ span (pos 0)) bad_range span delta last in
    (s, c.unit, split, numeral, rw (← reads) fits, rw (← reads) (same ∙ is))

-- A range other than all is accepted with a span exactly if it is a numeral of digits that does
-- not begin with zero, followed by d or h, its number of days or hours is at most the greatest of
-- a time span, and the span is that number of them.
pub parse_range_iff :
    (now : Time) (v : String) (delta : ℤ)
    → str_eq v "all" ≡ false
    → (parse_range now v ≡ ok delta) ↔ IsRange v delta
parse_range_iff now v delta other = (
  parse_range-IsRange now v delta other,
  λ r.
      let (s, u, split, numeral, fits, is) = r in
      let small : leb (value_of s) (greatest u) ≡ true = ground arith in
      rw (split, is) (parse_range-numeral now s u numeral ∙ rw small refl),
)
