-- ===== src/Auth.antt =====
-- backend/auth.py: the password fields of a user's config. The key derivation and the conversions of
-- texts are parameters; a text that Python cannot convert raises.
pub mod RoundTrip
pub mod Tests
use Prim.Native.String.{◌++◌}
use ghpulse.Prelude.{
  ℕ, String, Bool, true, false, not, ◌&&◌, ◌||◌, ◌==◌, Option, none, some, List, str_eq, Result, ok,
  err, ◌>>=◌, if◌then◌else◌,
}
use ghpulse.Prelude.Int.{ℤ, pos, negsuc}
use ghpulse.Snapshot.{
  Value, null, bool, int, float, str, arr, obj, Fields, end, field, Items, nil, cons, find,
}
use ghpulse.Session.{Failure, type_error, value_error, compare_digest}
use ghpulse.Session.Users.{set_field}

-- Python's library, as far as the module calls it.
pub record PasswordRules : Type 0 where
  -- `bytes.fromhex(text)` and `text.encode("utf-8")`, with none for `ValueError`
  pub from_hex : String → Option (List ℕ)
  pub encode : String → Option (List ℕ)
  -- `hashlib.pbkdf2_hmac("sha256", password, salt, iterations).hex()`
  pub pbkdf2_hmac_hex : (password salt : List ℕ) (iterations : ℕ) → String
  -- whether a literal with a point is zero
  pub is_zero : String → Bool

abbrev pub web_password_hash_key : String
web_password_hash_key = "web_password_hash"

abbrev pub web_password_salt_key : String
web_password_salt_key = "web_password_salt"

abbrev pub pbkdf2_iterations : ℕ
pbkdf2_iterations = 200000

abbrev or_value_error {ℓ} : {A : Type ℓ} → Option A → Result Failure A
or_value_error none = err value_error
or_value_error (some a) = ok a

-- A JSON value as text, where Python's functions take no other.
abbrev pub as_text : Value → Result Failure String
as_text (str s) = ok s
as_text _ = err type_error

module _ (rules : PasswordRules) where
  -- `bool(value)`
  unfoldable pub is_truthy : Value → Bool
  is_truthy null = false
  is_truthy (bool b) = b
  is_truthy (int (pos n)) = not (n == 0)
  is_truthy (int (negsuc n)) = true
  is_truthy (float literal) = not (rules.is_zero literal)
  is_truthy (str s) = not (str_eq s "")
  is_truthy (arr nil) = false
  is_truthy (arr (cons v vs)) = true
  is_truthy (obj end) = false
  is_truthy (obj (field k v fs)) = true

  -- `config.get(key)`, as a condition
  abbrev pub is_given : Option Value → Bool
  is_given none = false
  is_given (some v) = is_truthy v

  unfoldable pub has_web_password : Fields → Bool
  has_web_password config =
      is_given (find web_password_hash_key config) && is_given (find web_password_salt_key config)

  unfoldable pub pbkdf2 : String → String → Result Failure String
  pbkdf2 password salt_hex = do
    salt ← or_value_error (rules.from_hex salt_hex)
    encoded ← or_value_error (rules.encode password)
    ok (rules.pbkdf2_hmac_hex encoded salt pbkdf2_iterations)

  -- `salt_hex` is what `secrets.token_hex` returned.
  unfoldable pub set_web_password : (salt_hex : String) → Fields → String → Result Failure Fields
  set_web_password salt_hex config password = do
    digest_hex ← pbkdf2 password salt_hex
    ok (
        set_field web_password_hash_key (str digest_hex)
          (set_field web_password_salt_key (str salt_hex) config))

  -- The two stored values, both truthy, against a password.
  unfoldable pub verify_stored : (stored_hash stored_salt : Value) → String → Result Failure Bool
  verify_stored stored_hash stored_salt password = do
    salt ← as_text stored_salt
    candidate ← pbkdf2 password salt
    hash ← as_text stored_hash
    compare_digest candidate hash

  abbrev verify_found : Option Value → Option Value → String → Result Failure Bool
  verify_found none salt password = ok false
  verify_found (some hash) none password = ok false
  verify_found (some hash) (some salt) password =
      if is_truthy hash && is_truthy salt then verify_stored hash salt password else ok false

  unfoldable pub verify_web_password : Fields → String → Result Failure Bool
  verify_web_password config password =
      verify_found (find web_password_hash_key config) (find web_password_salt_key config) password
