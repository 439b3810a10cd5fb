-- ===== src/Login/Post.antt =====
-- backend/login.py: the routes. A handler has no `await`, so a request is one step of the event loop;
-- its moments, the random nonce and the fresh secret are part of the request. The pages are not
-- modelled.
pub mod Outcome
pub mod Session
pub mod Bounded
mod Tests
use ghpulse.Prelude.{
  ℕ, String, Bool, true, false, not, ◌||◌, ◌&&◌, Option, none, some, List, str_eq, is_none, Result,
  ok, err, if◌then◌else◌,
}
use ghpulse.Prelude.Int.{ℤ, pos, leb_ℤ, ltb_ℤ}
use ghpulse.Snapshot.{str, Fields, end, field}
use ghpulse.Session.{Failure, Platform}
use ghpulse.Session.Token.{make_session_token}
use ghpulse.Session.Users.{
  Users, load_user_config, ensure_user_session_secret, make_guest_session_token,
}
use ghpulse.Auth.{
  PasswordRules, has_web_password, verify_web_password, web_password_hash_key,
  web_password_salt_key,
}
use ghpulse.Login.{Failures, check_login_rate_limit, record_login_failure}

pub record Attempt : Type 0 where
  pub client : Option String
  pub user_id : String
  pub password : String
  -- the clock as the limit reads it, at its check and at the record of a failure
  pub checked_at : ℕ
  pub failed_at : ℕ
  -- the clock in seconds, and what `secrets` returned
  pub issued_at : ℤ
  pub nonce : String
  pub fresh : String

pub record Desk : Type 0 where
  pub failures : Failures
  pub users : Users

-- A redirect sets the cookie to a token, or deletes it.
pub data Response : Type 0 where
  too_many_attempts invalid_credentials signed_out : Response
  signed_in : (token : String) → Response

-- `user_exists`
unfoldable pub user_exists : Users → ℤ → Bool
user_exists users user_id = not (is_none (users user_id))

-- 64 and 32 zeros.
abbrev pub dummy_hash : String
dummy_hash = "0000000000000000000000000000000000000000000000000000000000000000"

abbrev pub dummy_salt : String
dummy_salt = "00000000000000000000000000000000"

abbrev pub dummy_password_config : Fields
dummy_password_config =
    field web_password_hash_key (str dummy_hash) (field web_password_salt_key (str dummy_salt) end)

unfoldable pub client_ip : Option String → String
client_ip none = "unknown"
client_ip (some host) = host

abbrev or_zero : Option ℤ → ℤ
or_zero none = pos 0
or_zero (some n) = n

module _ (platform : Platform) (rules : PasswordRules) where
  -- `int(user_id.strip())`, and 0 for `ValueError`
  unfoldable pub form_user : String → ℤ
  form_user text = or_zero (platform.read_int (platform.strip text))

  unfoldable pub login_config : Users → ℤ → Option Fields
  login_config users uid = if leb_ℤ uid (pos 0) then none else load_user_config users uid

  -- `config and auth.has_web_password(config)`, where an empty dict has no password either
  unfoldable pub has_password : Option Fields → Bool
  has_password none = false
  has_password (some config) = has_web_password rules config

  unfoldable pub password_config : Option Fields → Fields
  password_config none = dummy_password_config
  password_config (some config) =
      if has_web_password rules config then config else dummy_password_config

  abbrev pub reject : Attempt → Desk → Response × Desk
  reject a desk = (
    invalid_credentials,
    record desk { failures = record_login_failure a.failed_at (client_ip a.client) desk.failures },
  )

  -- The session of a user whose secret is found or made.
  abbrev pub open_session : Attempt → ℤ → Desk → Option String → Response × Desk
  open_session a uid desk none = reject a desk
  open_session a uid desk (some secret) =
      if str_eq secret ""
      then reject a desk
      else (signed_in (make_session_token platform a.issued_at a.nonce uid secret), desk)

  unfoldable pub grant : Attempt → ℤ → Desk → Response × Desk
  grant a uid desk =
      let (users, secret) = ensure_user_session_secret platform a.fresh desk.users uid in
      open_session a uid (record desk { users = users }) secret

  -- What follows the check of the password.
  abbrev pub decide : Attempt → ℤ → Desk → Result Failure Bool → Result Failure Response × Desk
  decide a uid desk (err e) = (err e, desk)
  decide a uid desk (ok valid) =
      let (response, desk') =
        (if leb_ℤ uid (pos 0) || (not (has_password (login_config desk.users uid)) || not valid)
          then reject a desk
          else grant a uid desk) in
      (ok response, desk')

  unfoldable pub authenticate : Attempt → Desk → Result Failure Response × Desk
  authenticate a desk =
      let uid = form_user a.user_id in
      decide a uid desk
        (verify_web_password rules (password_config (login_config desk.users uid)) a.password)

  unfoldable pub login_post : Attempt → Desk → Result Failure Response × Desk
  login_post a desk =
      let (limited, failures) =
        check_login_rate_limit a.checked_at (client_ip a.client) desk.failures in
      let desk' : Desk = record desk { failures = failures } in
      if limited then (ok too_many_attempts, desk') else authenticate a desk'

  unfoldable pub login_guest : (guest_secret : String) (now : ℤ) (nonce : String) → Response
  login_guest guest_secret now nonce =
      signed_in (make_guest_session_token platform guest_secret now nonce)

abbrev pub logout : Response
logout = signed_out
