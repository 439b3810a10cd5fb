-- ===== src/Snapshot/Require.antt =====
-- backend/ingest.py: `_require_dict`, `_require_string`, `_require_bool`, `_parse_timestamp`.
pub mod Inverse
use Prim.Native.Char.{code}
use ghpulse.Prelude.{
  ℕ, suc, String, Bool, true, ◌&&◌, Option, none, some, List, [], ◌∷◌, contains, str_eq, ◌==◌,
  if◌then◌else◌, Result, ok, err, ◌>>=◌,
}
use ghpulse.Snapshot.{
  Value, null, bool, str, arr, obj, Items, Fields, keys, find, Time, IsoTime, malformed, naive,
  aware, TextRules, Error, not_an_object, not_a_string, not_a_boolean, not_a_list, missing_key,
  bad_timestamp, missing_timezone,
}

abbrev pub Check : Type 0 → Type 0
Check = Result Error

-- `d[k]`, which raises `KeyError`
unfoldable pub get_field : String → Fields → Check Value
get_field k fs = elim (find k fs) [ none ↦ err missing_key | some v ↦ ok v ]

unfoldable pub require_dict : Value → Check Fields
require_dict (obj fs) = ok fs
require_dict _ = err not_an_object

unfoldable pub require_list : Value → Check Items
require_list (arr xs) = ok xs
require_list _ = err not_a_list

unfoldable pub require_string : Value → Check String
require_string (str s) = if str_eq s "" then err not_a_string else ok s
require_string _ = err not_a_string

unfoldable pub require_bool : Value → Check Bool
require_bool (bool b) = ok b
require_bool _ = err not_a_boolean

subset : List String → List String → Bool
subset [] ys = true
subset (x ∷ xs) ys = contains x ys && subset xs ys

-- `set(d) != expected`
unfoldable pub has_exactly : Fields → List String → Bool
unfolding subset keys
has_exactly fs expected = subset (keys fs) expected && subset expected (keys fs)

-- `value.replace("Z", "+00:00")`
unfoldable pub replace_z : String → String
replace_z String.[] = ""
replace_z (String.◌∷◌ c s) =
    let rest = replace_z s in
    if code c == b'Z'
    then String.◌∷◌ "+"
        (String.◌∷◌ "0" (String.◌∷◌ "0" (String.◌∷◌ ":" (String.◌∷◌ "0" (String.◌∷◌ "0" rest)))))
    else String.◌∷◌ c rest

-- `len(s)`
unfoldable pub text_length : String → ℕ
text_length String.[] = 0
text_length (String.◌∷◌ c s) = suc (text_length s)

aware_time : IsoTime → Check Time
aware_time malformed = err bad_timestamp
aware_time naive = err missing_timezone
aware_time (aware t) = ok t

module _ (rules : TextRules) where
  unfoldable pub parse_timestamp : Value → Check Time
  unfolding aware_time
  parse_timestamp (str s) =
      if str_eq s "" then err bad_timestamp else aware_time (rules.from_isoformat (replace_z s))
  parse_timestamp _ = err bad_timestamp

  -- with `nullable=True`
  unfoldable pub parse_nullable : Value → Check (Option Time)
  parse_nullable null = ok none
  parse_nullable v = do t ← parse_timestamp v; ok (some t)
