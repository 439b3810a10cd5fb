-- ===== src/Session.antt =====
-- backend/session.py: session tokens, the secrets of the users table and the gates of the routes.
-- A call that may raise returns a `Result`; the connection to the auth database does not fail here.
pub mod Token
pub mod Users
pub mod Gate
pub mod Tests
use Prim.Native.Char.{code}
use ghpulse.Prelude.{
  ℕ, String, Bool, true, false, ◌&&◌, Option, str_eq, ltb, if◌then◌else◌, Result, ok, err,
}
use ghpulse.Prelude.Int.{ℤ}
use ghpulse.Snapshot.{Value}

-- `TypeError` and `ValueError`
pub data Failure : Type 0 where
  type_error value_error : Failure

-- Python's library and its hash functions, as far as the code calls them.
pub record Platform : Type 0 where
  -- `int(text)`, with none for `ValueError`
  pub read_int : String → Option ℤ
  -- `str(n)`
  pub show_int : ℤ → String
  -- `hmac.new(secret, payload, sha256).hexdigest()`
  pub hmac_hex : String → String → String
  -- `text.strip()`
  pub strip : String → String
  -- `urlparse(url).netloc`
  pub netloc : String → Result Failure String
  -- `str(value)` of a JSON value that is neither a text nor null
  pub str_value : Value → String
  -- `config ->> key` of such a value
  pub json_text : Value → String

unfoldable pub is_ascii : String → Bool
is_ascii String.[] = true
is_ascii (String.◌∷◌ c s) = ltb (code c) 128 && is_ascii s

-- `hmac.compare_digest` of two texts, which raises unless both are ASCII.
unfoldable pub compare_digest : String → String → Result Failure Bool
compare_digest a b = if is_ascii a && is_ascii b then ok (str_eq a b) else err type_error
