-- ===== src/Source.antt =====
-- backend/github_source.py: the public boundary that is checked again after every call of the vendored
-- module. What that module's two functions return is an argument, as is which number literals with
-- a point equal 1. An error names the `raise`.
pub mod Boundary
pub mod Acquisition
mod Tests
use ghpulse.Prelude.{
  String, Bool, true, false, not, Option, none, some, str_eq, is_none, if◌then◌else◌, Result, ok,
  err, ◌>>=◌, ◌>>◌, raise_if,
}
use ghpulse.Prelude.Int.{ℤ, pos}
use ghpulse.Prelude.Equality.{same, int_eq}
use ghpulse.Snapshot.{Value, null, bool, int, float, str, arr, obj, Items, nil, cons, Fields, find}
use ghpulse.Ingest.Run.{Fetched, fetched, raised}

pub data BoundaryError : Type 0 where
  wrong_type unsupported_schema_version malformed_account repositories_not_a_list : BoundaryError
  repository_not_public malformed_owner repository_not_external : BoundaryError
  collection_not_a_list record_not_public : BoundaryError

abbrev pub Checked : Type 0
Checked = Result BoundaryError (Unit {0})

-- `d.get(k) is False`
abbrev is_false : Option Value → Bool
is_false (some (bool b)) = not b
is_false _ = false

-- `x == 1`, where `True` equals 1
unfoldable pub equals_one : (String → Bool) → Option Value → Bool
equals_one float_is_one (some (int n)) = same n (pos 1)
equals_one float_is_one (some (bool b)) = b
equals_one float_is_one (some (float s)) = float_is_one s
equals_one float_is_one _ = false

unfoldable pub check_record : Value → Checked
check_record (obj record') = raise_if (not (is_false (find "is_private" record'))) record_not_public
check_record _ = err record_not_public

unfoldable pub check_records : Items → Checked
unfolding check_record
check_records nil = ok tt
check_records (cons r rest) = do check_record r; check_records rest

unfoldable pub check_collection : Option Value → Checked
unfolding check_records
check_collection (some (arr records)) = check_records records
check_collection _ = err collection_not_a_list

login_text : Option Value → Result BoundaryError String
login_text (some (str s)) = ok s
login_text _ = err malformed_account

unfoldable pub account_login_of : Option Value → Result BoundaryError String
unfolding login_text
account_login_of (some (obj account)) = login_text (find "login" account)
account_login_of _ = err malformed_account

unfoldable pub repositories_of : Option Value → Result BoundaryError Items
repositories_of (some (arr repositories)) = ok repositories
repositories_of _ = err repositories_not_a_list

module _ (casefold : String → String) where
  unfoldable pub check_owner_login : String → Option Value → Checked
  check_owner_login account_login (some (str s)) =
      raise_if (str_eq (casefold s) account_login) repository_not_external
  check_owner_login account_login _ = err malformed_owner

  unfoldable pub check_owner : String → Option Value → Checked
  unfolding check_owner_login
  check_owner account_login (some (obj owner)) =
      check_owner_login account_login (find "login" owner)
  check_owner account_login _ = err malformed_owner

  unfoldable pub check_repository : String → Value → Checked
  unfolding check_owner
  check_repository account_login (obj repository) = do
    raise_if (not (is_false (find "isPrivate" repository))) repository_not_public
    check_owner account_login (find "owner" repository)
  check_repository account_login _ = err repository_not_public

  unfoldable pub check_repositories : String → Items → Checked
  check_repositories account_login nil = ok tt
  check_repositories account_login (cons repository rest) = do
    check_repository account_login repository
    check_repositories account_login rest

module _ (casefold : String → String) (float_is_one : String → Bool) where
  -- `_validate_public_boundary`, past the test of the snapshot's own type.
  unfoldable pub check_body : Fields → Checked
  check_body body = do
    raise_if (not (equals_one float_is_one (find "schema_version" body))) unsupported_schema_version
    login ← account_login_of (find "account" body)
    repositories ← repositories_of (find "repositories" body)
    check_repositories casefold (casefold login) repositories
    check_collection (find "issues" body)
    check_collection (find "pull_requests" body)

  unfoldable pub validate_public_boundary : Value → Result BoundaryError Value
  unfolding check_body
  validate_public_boundary (obj body) = do check_body body; ok (obj body)
  validate_public_boundary _ = err wrong_type

abbrev after_check : Result BoundaryError Value → Fetched
after_check (ok v) = fetched v
after_check (err e) = raised

-- A call of the vendored module, its snapshot or none if it raises, and the check of the result.
abbrev from_vendor : (Value → Result BoundaryError Value) → Option Value → Fetched
from_vendor check none = raised
from_vendor check (some snapshot) = after_check (check snapshot)

-- The vendored module's two functions, and the stripped `GHPULSE_TEST_SOURCE_SNAPSHOT`.
pub record Vendor : Type 0 where
  pub fetch_authored_snapshot : String → String → Option Value
  pub load_snapshot : String → Option Value
  pub fixture : String

unfoldable pub load_snapshot_file : (String → String) → (String → Bool) → Vendor → String → Fetched
load_snapshot_file casefold float_is_one vendor path =
    from_vendor (validate_public_boundary casefold float_is_one) (vendor.load_snapshot path)

unfoldable pub fetch_snapshot :
    (String → String) → (String → Bool) → Vendor → String → String → Fetched
unfolding load_snapshot_file
fetch_snapshot casefold float_is_one vendor token login =
    if not (str_eq vendor.fixture "")
    then load_snapshot_file casefold float_is_one vendor vendor.fixture
    else from_vendor (validate_public_boundary casefold float_is_one)
        (vendor.fetch_authored_snapshot token login)
