-- ===== src/Session/Token.antt =====
-- backend/session.py: `parse_session_token`, `make_session_token` and `verify_session_token`.
pub mod RoundTrip
pub mod Accepted
use Prim.Native.Char.{Char, code}
use Prim.Native.String.{◌++◌}
use ghpulse.Prelude.{
  ℕ, String, Bool, true, false, ◌||◌, Option, none, some, List, [], ◌∷◌, str_eq, ◌==◌,
  if◌then◌else◌, Result, ok, ◌>>=◌,
}
use ghpulse.Prelude.Int.{ℤ, pos, ◌+ℤ◌, ◌-ℤ◌, ltb_ℤ}
use ghpulse.Session.{Failure, Platform, compare_digest}

-- `SESSION_COOKIE_MAX_AGE`, in seconds
abbrev pub session_cookie_max_age : ℕ
session_cookie_max_age = 604800

pub record Token : Type 0 where
  pub user_id : ℤ
  pub issued_at : ℤ
  pub nonce : String
  pub sig : String

unfoldable pub push : Char → List String → List String
push c [] = String.◌∷◌ c "" ∷ []
push c (s ∷ rest) = String.◌∷◌ c s ∷ rest

-- `token.split(".")`
unfoldable pub split_dots : String → List String
unfolding push
split_dots String.[] = "" ∷ []
split_dots (String.◌∷◌ c s) =
    let rest = split_dots s in if code c == b'.' then "" ∷ rest else push c rest

module _ (platform : Platform) where
  unfoldable pub parse_parts : List String → Option Token
  parse_parts (raw_uid ∷ raw_ts ∷ nonce ∷ sig ∷ []) = elim (platform.read_int raw_uid) [
    | none ↦ none
    | some user_id ↦ elim (platform.read_int raw_ts) [
      | none ↦ none
      | some issued_at ↦
          if str_eq nonce "" || str_eq sig ""
          then none
          else some (record { user_id = user_id; issued_at = issued_at; nonce = nonce; sig = sig })
    ]
  ]
  parse_parts _ = none

  unfoldable pub parse_session_token : String → Option Token
  parse_session_token token = parse_parts (split_dots token)

  -- `f"{user_id}.{issued_at}.{nonce}"`
  unfoldable pub payload : ℤ → ℤ → String → String
  payload user_id issued_at nonce =
      platform.show_int user_id ++ ("." ++ (platform.show_int issued_at ++ ("." ++ nonce)))

  -- The clock's second and the random nonce are arguments.
  unfoldable pub make_session_token : (now : ℤ) (nonce : String) → ℤ → String → String
  make_session_token now nonce user_id secret =
      let text = payload user_id now nonce in text ++ ("." ++ platform.hmac_hex secret text)

  -- What follows the parse.
  unfoldable pub verify_parsed : (now : ℤ) → String → Token → Result Failure (Option ℤ)
  verify_parsed now secret parsed =
      let expected =
        platform.hmac_hex secret (payload parsed.user_id parsed.issued_at parsed.nonce) in
      if ltb_ℤ (now +ℤ pos 60) parsed.issued_at
      then ok none
      else if ltb_ℤ (pos session_cookie_max_age) (now -ℤ parsed.issued_at)
      then ok none
      else compare_digest expected parsed.sig >>= λ same_digest.
          ok (if same_digest then some parsed.user_id else none)

  unfoldable pub verify_session_token : (now : ℤ) → String → String → Result Failure (Option ℤ)
  verify_session_token now token secret = elim (parse_session_token token) [
    | none ↦ ok none
    | some parsed ↦ verify_parsed now secret parsed
  ]
