-- ===== src/Login/Post/Session.antt =====
-- backend/login.py and backend/session.py: the session that a login opens.
use ghpulse.Prelude.{
  String, true, false, ◌≡◌, ap, Option, none, some, str_eq, ok, if◌then◌else◌, arith,
}
use ghpulse.Prelude.Int.{ℤ, pos, negsuc, leb_ℤ}
use ghpulse.Prelude.Equality.{same, int_eq}
use ghpulse.Snapshot.{find}
use ghpulse.Session.{Platform}
use ghpulse.Session.Token.RoundTrip.{IsDocumented, has_dot, is_fresh}
use ghpulse.Session.Users.{
  Config, Users, secret_key, guest_user_id, coalesced, resolve_session_user_id,
  ensure_user_session_secret,
}
use ghpulse.Session.Users.Login.{is_text_or_null, ensure_user_session_secret-Resolves}
use ghpulse.Auth.{PasswordRules}
use ghpulse.Login.Post.{Attempt, Desk, signed_in, form_user, login_post}
use ghpulse.Login.Post.Outcome.{IsSignedIn, login_post-Answers}

positive_user : (uid : ℤ) → leb_ℤ uid (pos 0) ≡ false → same uid guest_user_id ≡ false
positive_user (pos n) h = ground arith
positive_user (negsuc n) h = ground arith

module _ (platform : Platform) (documented : IsDocumented platform)
    (strip_empty : platform.strip "" ≡ "") (rules : PasswordRules) (a : Attempt) (desk : Desk)
    (row : Config) (known : desk.users (form_user platform rules a.user_id) ≡ some row)
    (text : is_text_or_null (find secret_key (coalesced row)) ≡ true)
    (fresh_stripped : platform.strip a.fresh ≡ a.fresh) (fresh_given : str_eq a.fresh "" ≡ false)
    (nonce_given : str_eq a.nonce "" ≡ false) (nonce_dotless : has_dot a.nonce ≡ false) where
  abbrev uid : ℤ
  uid = form_user platform rules a.user_id

  signed-Resolves :
      (guest_secret : String) (now : ℤ) (token : String) (desk' : Desk)
      → IsSignedIn platform rules a desk token desk'
      → resolve_session_user_id platform guest_secret desk'.users now token
        ≡ ok (if is_fresh a.issued_at now then some uid else none)
  signed-Resolves guest_secret now token desk' s =
      let (secret, found, resolved) =
        ensure_user_session_secret-Resolves platform documented strip_empty guest_secret a.fresh
          desk.users uid a.issued_at now a.nonce nonce_given nonce_dotless
          (positive_user uid s.positive) row known text fresh_stripped fresh_given in
      let ensured = ensure_user_session_secret platform a.fresh desk.users uid in
      let users : ensured.0 ≡ desk'.users = ap (λ (p : Users × Option String). p.0) s.ensured in
      let secrets : ensured.1 ≡ some s.secret = ap (λ (p : Users × Option String). p.1) s.ensured in
      let one : secret ≡ s.secret = cc (found, secrets) in rw (s.signed, ← one, ← users) resolved

  -- For a user of the table whose stored secret is absent, null or a text, a fresh secret without
  -- outer blanks and a nonce without a dot, both not empty: the cookie of a login that succeeds
  -- resolves, against the table after the login, to the user of the form if the token is fresh,
  -- and to nobody otherwise.
  pub login_post-Resolves :
      (guest_secret : String) (now : ℤ) (token : String) (desk' : Desk)
      → login_post platform rules a desk ≡ (ok (signed_in token), desk')
      → resolve_session_user_id platform guest_secret desk'.users now token
        ≡ ok (if is_fresh a.issued_at now then some uid else none)
  login_post-Resolves guest_secret now token desk' done =
      signed-Resolves guest_secret now token desk'
        (rw done at (login_post-Answers platform rules a desk fresh_given))
