-- ===== src/Session/Gate.antt =====
-- backend/session.py: `auth_middleware` and the gates it applies to a request.
pub mod Admitted
use ghpulse.Prelude.{
  String, Bool, true, false, ◌||◌, not, Option, none, some, List, [], ◌∷◌, contains, str_eq,
  if◌then◌else◌, Result, ok, err, ◌>>=◌,
}
use ghpulse.Prelude.Int.{ℤ}
use ghpulse.Prelude.Equality.{same, int_eq}
use text.Mathlib.Text.{starts_with}
use ghpulse.Session.{Failure, Platform, compare_digest}
use ghpulse.Session.Users.{Users, guest_user_id, resolve_session_user_id}

-- What the gates read of a request: a missing header or cookie is the empty text.
pub record Request : Type 0 where
  pub method : String
  pub path : String
  pub origin : String
  pub referer : String
  pub host : String
  pub x_admin_token : String
  pub cookie : String

pub data Denial : Type 0 where
  unauthorized redirect_to_login forbidden_origin forbidden_guest : Denial

-- `request.state`, once a session is known.
pub record Identity : Type 0 where
  pub user_id : ℤ
  pub is_guest : Bool

-- `call_next` runs with the identity set, or a response is returned in its place.
pub data Verdict : Type 0 where
  passed : Option Identity → Verdict
  denied : Denial → Verdict

abbrev pub public_paths : List String
public_paths = "/health" ∷ "/login" ∷ "/logout" ∷ "/login/guest" ∷ []

abbrev pub safe_methods : List String
safe_methods = "GET" ∷ "HEAD" ∷ "OPTIONS" ∷ []

-- The process: its environment, its guest secret, its clock and the users table.
pub record Process : Type 0 where
  pub admin_token : String
  pub guest_secret : String
  pub now : ℤ
  pub users : Users

module _ (platform : Platform) where
  abbrev same_host : String → String → Result Failure Bool
  same_host url host = platform.netloc url >>= λ found. ok (str_eq found host)

  unfoldable pub check_origin : Request → Result Failure Bool
  check_origin request =
      if contains request.method safe_methods
      then ok true
      else if str_eq request.host ""
      then ok true
      else if not (str_eq request.origin "")
      then same_host request.origin request.host
      else if not (str_eq request.referer "")
      then same_host request.referer request.host
      else ok false

  abbrev pub origin_verdict : Option Identity → Bool → Verdict
  origin_verdict identity true = passed identity
  origin_verdict identity false = denied forbidden_origin

  abbrev pub token_verdict : Request → Bool → Result Failure Verdict
  token_verdict request false = ok (denied unauthorized)
  token_verdict request true =
      check_origin request >>= λ same_origin. ok (origin_verdict none same_origin)

  unfoldable pub admin_denied : Process → Request → Result Failure Verdict
  admin_denied process request =
      if str_eq process.admin_token ""
      then ok (denied unauthorized)
      else compare_digest request.x_admin_token process.admin_token >>= token_verdict request

  unfoldable pub unauthenticated : String → Denial
  unauthenticated path = if starts_with path "/api/" then unauthorized else redirect_to_login

  unfoldable pub guest_denied : Identity → String → Verdict
  guest_denied identity path =
      if starts_with path "/api/export" then denied forbidden_guest else passed (some identity)

  -- What follows the lookup of the cookie's user.
  unfoldable pub identified : String → Option ℤ → Verdict
  unfolding guest_denied unauthenticated
  identified path none = denied (unauthenticated path)
  identified path (some user_id) =
      let identity : Identity = record {
        user_id = user_id;
        is_guest = same user_id guest_user_id;
      } in
      if identity.is_guest then guest_denied identity path else passed (some identity)

  unfoldable pub cookie_user : Process → String → Result Failure (Option ℤ)
  cookie_user process cookie =
      if str_eq cookie ""
      then ok none
      else resolve_session_user_id platform process.guest_secret process.users process.now cookie

  abbrev pub session_verdict : Process → Request → Bool → Result Failure Verdict
  session_verdict process request false = ok (denied forbidden_origin)
  session_verdict process request true =
      cookie_user process request.cookie >>= λ user. ok (identified request.path user)

  unfoldable pub session_denied : Process → Request → Result Failure Verdict
  session_denied process request = check_origin request >>= session_verdict process request

  unfoldable pub auth_middleware : Process → Request → Result Failure Verdict
  auth_middleware process request =
      if contains request.path public_paths
      then ok (passed none)
      else if starts_with request.path "/admin/"
      then admin_denied process request
      else session_denied process request
