-- ===== src/Login/Post/Tests.antt =====
-- backend/login.py: the user 7, whose password has four letters, at the form.
use ghpulse.Prelude.{String, ◌≡◌, ◌≤◌, refl, some, none, [], ◌∷◌, ok, ◌>>=◌, if◌then◌else◌, arith}
use ghpulse.Prelude.Int.{pos}
use ghpulse.Prelude.Equality.{same, int_eq}
use ghpulse.Snapshot.{str, end, field, find}
use ghpulse.Snapshot.Require.{text_length}
use ghpulse.Session.{is_ascii, compare_digest}
use ghpulse.Session.Tests.{unary, unary-IsDocumented, ones, read_unary}
use ghpulse.Session.Token.{make_session_token}
use ghpulse.Session.Token.RoundTrip.{has_dot, is_fresh}
use ghpulse.Session.Users.{
  config, Users, load_user_config, set_field, ensure_user_session_secret, resolve_session_user_id,
}
use ghpulse.Auth.{
  is_truthy, has_web_password, pbkdf2, verify_stored, verify_web_password, web_password_hash_key,
  web_password_salt_key,
}
use ghpulse.Auth.Tests.{length_rules}
use ghpulse.Login.{no_failures, recent, check_login_rate_limit, login_max_failures}
use ghpulse.Login.Post.{
  Attempt, Desk, signed_in, client_ip, form_user, login_config, has_password, password_config,
  grant, authenticate, login_post,
}
use ghpulse.Login.Post.Outcome.{Answers, login_post-Answers}
use ghpulse.Login.Post.Session.{login_post-Resolves}
use ghpulse.Login.Post.Bounded.{rejections, rejections_bounded}

abbrev users : Users
users id =
    if same id (pos 7)
    then some (
        config
          (field web_password_hash_key (str "d1111") (field web_password_salt_key (str "ab") end)))
    else none

abbrev right : Attempt
right = record {
  client = some "h";
  user_id = "+1111111";
  password = "word";
  checked_at = 10;
  failed_at = 11;
  issued_at = pos 3;
  nonce = "nonce";
  fresh = "key";
}

abbrev wrong : Attempt
wrong = record right { password = "sword" }

abbrev desk : Desk
desk = record { failures = no_failures; users = users }

login_post-Answers_example :
    Answers unary length_rules wrong desk (login_post unary length_rules wrong desk)
login_post-Answers_example = login_post-Answers unary length_rules wrong desk refl

abbrev token : String
token = make_session_token unary (pos 3) "nonce" (pos 7) "key"

right_signs_in :
    login_post unary length_rules right desk
    ≡ (ok (signed_in token), (login_post unary length_rules right desk).1)
unfolding login_post check_login_rate_limit recent client_ip authenticate form_user read_unary
    login_config load_user_config password_config has_password has_web_password is_truthy
    verify_web_password verify_stored pbkdf2 compare_digest is_ascii grant
    ensure_user_session_secret set_field find text_length ones ◌>>=◌
right_signs_in = refl

form_seven : users (form_user unary length_rules "+1111111") ≡ users (pos 7)
unfolding form_user read_unary text_length
form_seven = refl

login_post-Resolves_example :
    resolve_session_user_id unary "guest"
      (login_post unary length_rules right desk).1.users
      (pos 5)
      token
    ≡ ok (if is_fresh (pos 3) (pos 5) then some (form_user unary length_rules "+1111111") else none)
login_post-Resolves_example =
    login_post-Resolves unary unary-IsDocumented refl length_rules right desk
      (config
        (field web_password_hash_key (str "d1111") (field web_password_salt_key (str "ab") end)))
      form_seven (unfold find in refl) refl refl refl (unfold has_dot in refl) "guest" (pos 5) token
      (login_post unary length_rules right desk).1 right_signs_in

rejections_bounded_example :
    rejections unary length_rules "h" desk (wrong ∷ []) ≤ login_max_failures
rejections_bounded_example =
    rejections_bounded unary length_rules "h" desk 10 (wrong ∷ []) (omega arith, omega arith, tt)
      (omega arith)
