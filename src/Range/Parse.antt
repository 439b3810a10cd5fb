-- ===== src/Range/Parse.antt =====
-- backend/api_common.py, `_parse_range`: the pattern `[1-9][0-9]*[dh]`, read from the left. `int` of
-- more than 4300 digits raises as well; such a number is past both limits, so no test of its own.
pub mod Read
pub mod Accepted
use Prim.Native.Char.{code}
use ghpulse.Prelude.{
  ℕ, ◌+◌, ◌-◌, ◌*◌, ◌≤◌, String, Bool, true, false, ◌&&◌, Option, none, some, str_eq, leb, ◌==◌,
  Result, ok, err, ◌>>=◌, ◌>>◌, raise_if, if◌then◌else◌,
}
use ghpulse.Prelude.Int.{ℤ, pos, leb_ℤ}
use ghpulse.Snapshot.{Time}

-- The exceptions that end a request: two client errors, and a time before the year 1.
pub data HttpError : Type 0 where
  bad_range repository_not_found out_of_range : HttpError

pub data RangeUnit : Type 0 where
  days hours : RangeUnit

pub record Count : Type 0 where
  pub number : ℕ
  pub unit : RangeUnit

unfoldable pub is_digit : ℕ → Bool
is_digit c = leb b'0' c && leb c b'9'

-- The last character.
abbrev pub ending : ℕ → String → ℕ → Option Count
ending c rest n =
    if str_eq rest "" && c == b'd'
    then some (record { number = n; unit = days })
    else if str_eq rest "" && c == b'h'
    then some (record { number = n; unit = hours })
    else none

-- `[0-9]*[dh]`, after digits that read as a number.
unfoldable pub scan : ℕ → String → Option Count
scan n String.[] = none
scan n (String.◌∷◌ c s) =
    let more = scan (n * 10 + (code c - 48)) s in
    if is_digit (code c) then more else ending (code c) s n

-- `_RANGE_RE.fullmatch`, and the number that `int` reads.
unfoldable pub match_range : String → Option Count
match_range String.[] = none
match_range (String.◌∷◌ c s) =
    if leb b'1' (code c) && leb (code c) b'9' then scan (code c - 48) s else none

-- In microseconds.
abbrev pub length_of : RangeUnit → ℕ
length_of days = 86400000000
length_of hours = 3600000000

-- The greatest number of days, and of hours, that a `timedelta` takes.
abbrev pub greatest : RangeUnit → ℕ
greatest days = 999999999
greatest hours = 23999999999

-- `timedelta(days=n)` or `timedelta(hours=n)`, whose `OverflowError` becomes the client error.
unfoldable pub span_of : Count → Result HttpError ℤ
span_of c =
    if leb c.number (greatest c.unit) then ok (pos (c.number * length_of c.unit)) else err bad_range

abbrev pub matched : Option Count → Result HttpError Count
matched none = err bad_range
matched (some c) = ok c

-- `now` is the clock that the range `all` reads; a span counts microseconds.
unfoldable pub parse_range : (now : Time) → String → Result HttpError ℤ
parse_range now value = if str_eq value "all" then ok now else (do
  c ← matched (match_range value)
  delta ← span_of c
  raise_if (leb_ℤ delta (pos 0)) bad_range
  ok delta)
