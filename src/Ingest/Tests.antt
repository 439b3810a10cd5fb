-- ===== src/Ingest/Tests.antt =====
-- backend/ingest.py: a snapshot of one repository, one issue and one pull request, validated and
-- committed over tables that hold a repository that is gone and an older row of the issue.
use ghpulse.Prelude.{◌≡◌, refl, Bool, true, false, none, some, [], ◌∷◌, ok, ◌>>=◌, raise_if}
use ghpulse.Prelude.Int.{pos}
use ghpulse.Prelude.Dict.{lookup, insert}
use ghpulse.Snapshot.{
  Value, bool, int, str, arr, obj, nil, cons, Fields, end, field, aware, TextRules, Snapshot, find,
}
use ghpulse.Snapshot.Require.{
  get_field, require_dict, require_list, require_string, require_bool, has_exactly, replace_z,
  text_length, parse_timestamp, parse_nullable,
}
use ghpulse.Snapshot.Validate.{
  validate_snapshot, validate_repositories, validate_repository, validate_issues, validate_issue,
  validate_pull_requests, validate_pull_request, validate_common, validate_reason,
  validate_given_reason, index_by_id, require_number, require_repository,
}
use ghpulse.Snapshot.Sound.{StripsSpaces, IsSound}
use ghpulse.Snapshot.Sound.Whole.{validate_snapshot-IsSound}
use ghpulse.Store.{RepositoryRow, IssueRow, Database, Counts}
use ghpulse.Store.Table.{upsert_rows, upsert_row, delete_unseen, unseen, cascade}
use ghpulse.Store.Schema.{
  is_spaces, fits_integer, issue_checks, pull_request_checks, reason_shape_check,
  reason_state_check,
}
use ghpulse.Ingest.Rows.{
  issue_is_distinct, repository_is_distinct, pull_request_is_distinct, admit_issue,
  admit_pull_request, refresh,
}
use ghpulse.Ingest.Commit.{Statement, commit_snapshot, sync_success}
use ghpulse.Ingest.Replace.{IsReplaced, repositories_of, issues_of, pull_requests_of}
use ghpulse.Ingest.Replace.Repeat.{IsUnchanged, commit_snapshot-repeated}
use ghpulse.Ingest.Replace.Whole.{commit_snapshot-IsReplaced}

-- A stand-in for Python's text library: times are told by their length.
abbrev pub plain : TextRules
plain = record {
  casefold = λ s. s;
  is_blank = is_spaces;
  from_isoformat = λ s. aware (pos (text_length s));
}

pub plain-StripsSpaces : StripsSpaces plain
plain-StripsSpaces = record { spaces_blank = λ s h. h }

abbrev item_fields : Fields → Fields
item_fields rest = field "repository_id" (str "R1") (
    field "repository" (str "o/r") (
      field "owner" (str "o") (
        field "repository_url" (str "u") (
          field "is_private" (bool false) (
            field "number" (int (pos 7)) (
              field "url" (str "u7") (
                field "created_at" (str "Z")
                  (field "updated_at" (str "ZZ") (field "closed_at" (str "ZZZ") rest)))))))))

abbrev pub raw : Value
raw = obj (
    field "schema_version" (int (pos 1)) (
      field "generated_at" (str "now") (
        field "account" (obj (field "login" (str "me") end)) (
          field "repositories"
            (arr (
              cons
                (obj (
                  field "id" (str "R1") (
                    field "nameWithOwner" (str "o/r") (
                      field "url" (str "u") (
                        field "isPrivate" (bool false)
                          (field "owner" (obj (field "login" (str "o") end)) end))))))
                nil))
            (field "issues"
              (arr (
                cons
                  (obj (
                    field "node_id" (str "I1") (
                      item_fields (
                        field "state" (str "CLOSED")
                          (field "state_reason" (str "COMPLETED") end)))))
                  nil))
              (field "pull_requests"
                (arr (
                  cons
                    (obj (
                      field "node_id" (str "P1") (
                        item_fields (
                          field "state" (str "MERGED")
                            (field "merged" (bool true) (field "merged_at" (str "ZZZ") end))))))
                    nil))
                end))))))

abbrev pub accepted : Snapshot
accepted = record {
  source_at = pos 3;
  login = "me";
  repositories =
      record { node_id = "R1"; name_with_owner = "o/r"; owner_login = "o"; url = "u" } ∷ [];
  issues =
      record {
        item = record {
          node_id = "I1";
          repository_id = "R1";
          number = pos 7;
          url = "u7";
          created_at = pos 6;
          updated_at = pos 12;
          closed_at = some (pos 18);
          state = "CLOSED";
        };
        state_reason = some "COMPLETED";
      }
      ∷ [];
  pull_requests =
      record {
        item = record {
          node_id = "P1";
          repository_id = "R1";
          number = pos 7;
          url = "u7";
          created_at = pos 6;
          updated_at = pos 12;
          closed_at = some (pos 18);
          state = "MERGED";
        };
        merged_at = some (pos 18);
        merged = true;
      }
      ∷ [];
}

pub raw-accepted : validate_snapshot plain raw ≡ ok accepted
unfolding validate_snapshot validate_repositories validate_repository validate_issues validate_issue
    validate_pull_requests validate_pull_request validate_common validate_reason
    validate_given_reason index_by_id require_number require_repository get_field require_dict
    require_list require_string require_bool has_exactly replace_z text_length parse_timestamp
    parse_nullable find lookup insert is_spaces ◌>>=◌ raise_if
raw-accepted = refl

accepted-IsSound : IsSound plain accepted
accepted-IsSound = validate_snapshot-IsSound plain plain-StripsSpaces raw accepted raw-accepted

validate_snapshot-IsSound_example : IsSound plain accepted
validate_snapshot-IsSound_example =
    validate_snapshot-IsSound plain plain-StripsSpaces raw accepted raw-accepted

abbrev gone_repository : RepositoryRow
gone_repository = record {
  name_with_owner = "x/y";
  owner_login = "x";
  url = "v";
  is_private = false;
  is_external = true;
  first_seen_at = pos 1;
  last_seen_at = pos 1;
}

abbrev gone_issue : IssueRow
gone_issue = record {
  repository_id = "R0";
  number = pos 1;
  url = "w";
  is_private = false;
  created_at = pos 1;
  updated_at = pos 1;
  closed_at = none;
  state = "OPEN";
  state_reason = none;
}

abbrev pub before : Database
before = record {
  repositories = ("R0", gone_repository) ∷ [];
  issues = ("I0", gone_issue) ∷ ("I1", gone_issue) ∷ [];
  pull_requests = [];
  sync_state = none;
  ingest_runs = [];
  next_run_id = 1;
}

abbrev pub all_healthy : Statement → Bool
all_healthy s = true

abbrev counted : Counts
counted = record {
  repositories_fetched = 1;
  issues_fetched = 1;
  pull_requests_fetched = 1;
  repositories_upserted = 1;
  issues_upserted = 1;
  pull_requests_upserted = 1;
  repositories_deleted = 1;
  issues_deleted = 1;
  pull_requests_deleted = 0;
  data_changed = true;
}

abbrev after : Database
after = record {
  repositories = repositories_of (pos 50) accepted;
  issues = issues_of accepted;
  pull_requests = pull_requests_of accepted;
  sync_state = some (sync_success (pos 50) (pos 3));
  ingest_runs = [];
  next_run_id = 1;
}

committed : commit_snapshot all_healthy 1 (pos 50) (pos 51) accepted before ≡ ok (counted, after)
unfolding commit_snapshot upsert_rows upsert_row delete_unseen unseen cascade refresh
    issue_is_distinct repository_is_distinct pull_request_is_distinct admit_issue admit_pull_request
    fits_integer issue_checks pull_request_checks reason_shape_check reason_state_check text_length
    is_spaces lookup insert ◌>>=◌ raise_if
committed = refl

commit_snapshot-IsReplaced_example : IsReplaced (pos 50) accepted before after
commit_snapshot-IsReplaced_example =
    commit_snapshot-IsReplaced all_healthy 1 (pos 50) (pos 51) plain accepted accepted-IsSound
      before counted after committed

abbrev unchanged : Counts
unchanged = record {
  repositories_fetched = 1;
  issues_fetched = 1;
  pull_requests_fetched = 1;
  repositories_upserted = 0;
  issues_upserted = 0;
  pull_requests_upserted = 0;
  repositories_deleted = 0;
  issues_deleted = 0;
  pull_requests_deleted = 0;
  data_changed = false;
}

-- The first sighting at 50, the last at 60.
abbrev repeated : Database
repeated = record {
  repositories =
      (
        "R1",
        record {
          name_with_owner = "o/r";
          owner_login = "o";
          url = "u";
          is_private = false;
          is_external = true;
          first_seen_at = pos 50;
          last_seen_at = pos 60;
        },
      )
      ∷ [];
  issues = issues_of accepted;
  pull_requests = pull_requests_of accepted;
  sync_state = some (sync_success (pos 60) (pos 3));
  ingest_runs = [];
  next_run_id = 1;
}

committed_again :
    commit_snapshot all_healthy 2 (pos 60) (pos 61) accepted after ≡ ok (unchanged, repeated)
unfolding commit_snapshot upsert_rows upsert_row delete_unseen unseen cascade refresh
    issue_is_distinct repository_is_distinct pull_request_is_distinct admit_issue admit_pull_request
    fits_integer issue_checks pull_request_checks reason_shape_check reason_state_check text_length
    is_spaces lookup insert ◌>>=◌ raise_if
committed_again = refl

commit_snapshot-repeated_example : IsUnchanged unchanged
commit_snapshot-repeated_example =
    commit_snapshot-repeated all_healthy plain accepted accepted-IsSound 1 2 (pos 50) (pos 60)
      (pos 51) (pos 61) before after after repeated counted unchanged committed refl refl refl
      committed_again
