-- ===== src/Snapshot.antt =====
-- The decoded JSON that crosses the source boundary of backend/ingest.py, and the values that
-- validation makes of it. A message's text is not modelled: an error names the `raise`.
pub mod Require
pub mod Validate
pub mod Sound
use ghpulse.Prelude.{String, Bool, Option, none, some, List, [], ◌∷◌, str_eq, if◌then◌else◌}
use ghpulse.Prelude.Int.{ℤ}

-- The values of `json.loads`; `float` keeps the literal.
mutual
  pub data Value : Type 0 where
    null : Value
    bool : Bool → Value
    int : ℤ → Value
    float : String → Value
    str : String → Value
    arr : Items → Value
    obj : Fields → Value

  pub data Fields : Type 0 where
    end : Fields
    field : String → Value → Fields → Fields

  pub data Items : Type 0 where
    nil : Items
    cons : Value → Items → Items

-- `set(d)`, as a list
unfoldable pub keys : Fields → List String
keys end = []
keys (field k v fs) = k ∷ keys fs

unfoldable pub find : String → Fields → Option Value
find k end = none
find k (field j v fs) = if str_eq j k then some v else find k fs

-- Microseconds since the Unix epoch: an aware `datetime`, moved to UTC.
abbrev pub Time : Type 0
Time = ℤ

-- What `datetime.fromisoformat` makes of a text: it raises, or the time has no offset, or it has one.
pub data IsoTime : Type 0 where
  malformed naive : IsoTime
  aware : Time → IsoTime

-- The Unicode tables and the ISO 8601 parser of Python's library, as far as the code calls them.
pub record TextRules : Type 0 where
  pub casefold : String → String
  -- `not s.strip()`
  pub is_blank : String → Bool
  pub from_isoformat : String → IsoTime

pub data Error : Type 0 where
  not_an_object not_a_string not_a_boolean not_a_list missing_key invalid_fields : Error
  unsupported_schema bad_timestamp missing_timezone : Error
  duplicate_node_id : String → Error
  private_repository owned_repository absent_repository private_item owned_item : Error
  ownership_mismatch url_mismatch bad_number bad_reason bad_state inconsistent_state : Error
  missing_configuration acquisition_failed account_mismatch : Error
  check_violation foreign_key_violation out_of_range database_error : Error

pub record Repository : Type 0 where
  pub node_id : String
  pub name_with_owner : String
  pub owner_login : String
  pub url : String

-- The fields that both kinds of item have.
pub record Item : Type 0 where
  pub node_id : String
  pub repository_id : String
  pub number : ℤ
  pub url : String
  pub created_at : Time
  pub updated_at : Time
  pub closed_at : Option Time
  pub state : String

pub record Issue : Type 0 where
  pub item : Item
  pub open item use *
  pub state_reason : Option String

pub record PullRequest : Type 0 where
  pub item : Item
  pub open item use *
  pub merged_at : Option Time
  pub merged : Bool

-- The tuple that `_validate_snapshot` returns.
pub record Snapshot : Type 0 where
  pub source_at : Time
  pub login : String
  pub repositories : List Repository
  pub issues : List Issue
  pub pull_requests : List PullRequest
