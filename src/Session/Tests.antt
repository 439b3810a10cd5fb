-- ===== src/Session/Tests.antt =====
-- backend/session.py: a stand-in for Python's library, in which numbers are written in unary, and the
-- theorems at one session of the user 7.
use Prim.Native.Char.{Char, code}
use text.Mathlib.TextLemmas.{cons-ne-nil}
use ghpulse.Prelude.{
  ℕ, zero, suc, String, true, false, ◌≡◌, refl, ap, ◌+◌, Option, none, some, ◌==◌, if◌then◌else◌,
  ok, ◌>>=◌, str_eq, eq_iff, Bool-cases, inl, inr,
}
use ghpulse.Prelude.Int.{ℤ, pos, negsuc, ◌+ℤ◌, ◌-ℤ◌}
use ghpulse.Prelude.Equality.{same, int_eq}
use ghpulse.Snapshot.{str, end, field, find}
use ghpulse.Snapshot.Require.{text_length}
use ghpulse.Session.{Platform, is_ascii, compare_digest}
use ghpulse.Session.Token.{
  Token, push, split_dots, parse_parts, parse_session_token, payload, make_session_token,
  verify_parsed, verify_session_token,
}
use ghpulse.Session.Token.RoundTrip.{has_dot, IsDocumented, is_fresh, verify_session_token-make}
use ghpulse.Session.Token.Accepted.{IsSigned, verify_session_token-IsSigned}
use ghpulse.Session.Users.{config, Users, ensure_user_session_secret, resolve_session_user_id}
use ghpulse.Session.Users.Login.{ensure_user_session_secret-Resolves}
use ghpulse.Session.Gate.{
  Request, Identity, passed, Process, check_origin, guest_denied, identified, cookie_user,
  session_denied, auth_middleware,
}
use ghpulse.Session.Gate.Admitted.{IsAdmitted, auth_middleware-IsAdmitted}

unfoldable pub ones : ℕ → String
ones zero = ""
ones (suc n) = String.◌∷◌ "1" (ones n)

unfoldable pub show_unary : ℤ → String
show_unary (pos n) = String.◌∷◌ "+" (ones n)
show_unary (negsuc n) = String.◌∷◌ "-" (ones n)

unfoldable pub read_unary : String → Option ℤ
unfolding text_length
read_unary String.[] = none
read_unary (String.◌∷◌ c s) =
    if code c == b'+'
    then some (pos (text_length s))
    else if code c == b'-'
    then some (negsuc (text_length s))
    else none

abbrev pub unary : Platform
unary = record {
  read_int = read_unary;
  show_int = show_unary;
  hmac_hex = λ secret text. String.◌∷◌ "d" (ones (text_length secret + text_length text));
  strip = λ s. s;
  netloc = λ url. ok url;
  str_value = λ v. "value";
  json_text = λ v. "value";
}

text_length-ones : (n : ℕ) → text_length (ones n) ≡ n
unfolding ones text_length
text_length-ones zero = refl
text_length-ones (suc n) = ap suc (text_length-ones n)

has_dot-ones : (n : ℕ) → has_dot (ones n) ≡ false
unfolding ones has_dot
has_dot-ones zero = refl
has_dot-ones (suc n) = has_dot-ones n

pub is_ascii-ones : (n : ℕ) → is_ascii (ones n) ≡ true
unfolding ones is_ascii
is_ascii-ones zero = refl
is_ascii-ones (suc n) = is_ascii-ones n

read-show_unary : (n : ℤ) → read_unary (show_unary n) ≡ some n
unfolding read_unary show_unary
read-show_unary (pos n) = ap (λ (m : ℕ). some (pos m)) (text_length-ones n)
read-show_unary (negsuc n) = ap (λ (m : ℕ). some (negsuc m)) (text_length-ones n)

show_unary-dotless : (n : ℤ) → has_dot (show_unary n) ≡ false
unfolding has_dot show_unary
show_unary-dotless (pos n) = has_dot-ones n
show_unary-dotless (negsuc n) = has_dot-ones n

pub given : (c : Char) (s : String) → str_eq (String.◌∷◌ c s) "" ≡ false
given c s = elim (Bool-cases (str_eq (String.◌∷◌ c s) "")) [
  | inl e ↦ absurd (cons-ne-nil c s ((eq_iff _ _).0 e))
  | inr e ↦ e
]

pub unary-IsDocumented : IsDocumented unary
unfolding has_dot is_ascii
unary-IsDocumented = record {
  read-show = read-show_unary;
  show_dotless = show_unary-dotless;
  hmac_dotless = λ secret text. has_dot-ones (text_length secret + text_length text);
  hmac_ascii = λ secret text. is_ascii-ones (text_length secret + text_length text);
  hmac_given = λ secret text. given _ (ones (text_length secret + text_length text));
}

abbrev token : String
token = make_session_token unary (pos 3) "nonce" (pos 7) "key"

verify_session_token-make_example :
    verify_session_token unary (pos 5) token "key" ≡ ok (some (pos 7))
unfolding ◌+ℤ◌ ◌-ℤ◌
verify_session_token-make_example =
    verify_session_token-make unary unary-IsDocumented (pos 3) (pos 5) "nonce" "key" (pos 7)
      (unfold has_dot in refl) refl

token_accepted : verify_session_token unary (pos 5) token "key" ≡ ok (some (pos 7))
unfolding ◌+ℤ◌ ◌-ℤ◌
token_accepted =
    verify_session_token-make unary unary-IsDocumented (pos 3) (pos 5) "nonce" "key" (pos 7)
      (unfold has_dot in refl) refl

verify_session_token-IsSigned_example : (t : Token) × IsSigned unary (pos 5) token "key" (pos 7) t
verify_session_token-IsSigned_example =
    verify_session_token-IsSigned unary (pos 5) token "key" (pos 7) token_accepted

-- The user 7 has a row without a secret.
abbrev users : Users
users id = if same id (pos 7) then some (config (field "owner_key" (str "x") end)) else none

ensure_user_session_secret-Resolves_example :
    let (users', found) = ensure_user_session_secret unary "key" users (pos 7) in
    (secret : String) × (found ≡ some secret)
    × (resolve_session_user_id unary "guest" users'
          (pos 5)
          (make_session_token unary (pos 3) "nonce" (pos 7) secret)
        ≡ ok (if is_fresh (pos 3) (pos 5) then some (pos 7) else none))
ensure_user_session_secret-Resolves_example =
    ensure_user_session_secret-Resolves unary unary-IsDocumented refl "guest" "key" users (pos 7)
      (pos 3) (pos 5) "nonce" refl (unfold has_dot in refl) refl
      (config (field "owner_key" (str "x") end)) refl (unfold find in refl) refl refl

-- A guest who asks for the dashboard.
abbrev guest_request : Request
guest_request = record {
  method = "GET";
  path = "/api/dashboard";
  origin = "";
  referer = "";
  host = "h";
  x_admin_token = "";
  cookie = make_session_token unary (pos 3) "nonce" (pos 0) "guest";
}

abbrev process : Process
process = record { admin_token = "root"; guest_secret = "guest"; now = pos 5; users = users }

abbrev guest : Identity
guest = record { user_id = pos 0; is_guest = true }

guest_passes : auth_middleware unary process guest_request ≡ ok (passed (some guest))
unfolding auth_middleware session_denied check_origin cookie_user resolve_session_user_id
    verify_session_token verify_parsed parse_session_token parse_parts split_dots push
    make_session_token payload compare_digest is_ascii identified guest_denied ◌>>=◌ ◌+ℤ◌ ◌-ℤ◌ ones
    show_unary read_unary text_length
guest_passes = refl

auth_middleware-IsAdmitted_example : IsAdmitted unary process guest_request (some guest)
auth_middleware-IsAdmitted_example =
    auth_middleware-IsAdmitted unary process guest_request (some guest) guest_passes
