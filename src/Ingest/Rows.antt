-- ===== src/Ingest/Rows.antt =====
-- backend/ingest.py: `_upsert_repositories`, `_upsert_issues`, `_upsert_pull_requests`, the `UPDATE`
-- of `last_seen_at`. A proposed row passes the checks of its table before it is written; a row
-- that is not written has passed them before.
pub mod Laws
use ghpulse.Prelude.{
  String, Bool, true, false, not, ◌||◌, List, [], ◌∷◌, contains, is_none, if◌then◌else◌, Result, ok,
  ◌>>=◌, ◌>>◌, raise_if,
}
use ghpulse.Prelude.Dict.{Dict, lookup}
use ghpulse.Prelude.Equality.{Eq, same, bool_eq, int_eq, string_eq, option_eq}
use ghpulse.Snapshot.{
  Time, Error, check_violation, foreign_key_violation, out_of_range, Repository, Issue, PullRequest,
}
use ghpulse.Store.{RepositoryRow, IssueRow, PullRequestRow}
use ghpulse.Store.Table.{Upsert}
use ghpulse.Store.Schema.{fits_integer, issue_checks, pull_request_checks}

abbrev pub repository_row : Time → Repository → RepositoryRow
repository_row observed_at r = record {
  name_with_owner = r.name_with_owner;
  owner_login = r.owner_login;
  url = r.url;
  is_private = false;
  is_external = true;
  first_seen_at = observed_at;
  last_seen_at = observed_at;
}

unfoldable pub repository_is_distinct : RepositoryRow → RepositoryRow → Bool
repository_is_distinct old new =
    not (same old.name_with_owner new.name_with_owner)
    || (not (same old.owner_login new.owner_login)
        || (not (same old.url new.url)
            || (not (same old.is_private new.is_private)
                || not (same old.is_external new.is_external))))

-- The insertion time is kept.
abbrev pub merge_repository : RepositoryRow → RepositoryRow → RepositoryRow
merge_repository old new = record new { first_seen_at = old.first_seen_at }

abbrev pub repository_upsert : Time → Upsert Repository RepositoryRow
repository_upsert observed_at = record {
  node_id = λ r. r.node_id;
  new_row = repository_row observed_at;
  is_distinct = repository_is_distinct;
  merge = merge_repository;
  admit = λ r. ok tt;
}

abbrev pub issue_row : Issue → IssueRow
issue_row i = record {
  repository_id = i.item.repository_id;
  number = i.item.number;
  url = i.item.url;
  is_private = false;
  created_at = i.item.created_at;
  updated_at = i.item.updated_at;
  closed_at = i.item.closed_at;
  state = i.item.state;
  state_reason = i.state_reason;
}

unfoldable pub issue_is_distinct : IssueRow → IssueRow → Bool
issue_is_distinct old new =
    not (same old.repository_id new.repository_id)
    || (not (same old.number new.number)
        || (not (same old.url new.url)
            || (not (same old.is_private new.is_private)
                || (not (same old.created_at new.created_at)
                    || (not (same old.updated_at new.updated_at)
                        || (not (same old.closed_at new.closed_at)
                            || (not (same old.state new.state)
                                || not (same old.state_reason new.state_reason))))))))

-- The row is written only if it passes its checks and its repository is in the table.
unfoldable pub admit_issue : Dict RepositoryRow → Issue → Result Error (Unit {0})
admit_issue repositories i = do
  raise_if (not (fits_integer i.item.number)) out_of_range
  raise_if (not (issue_checks (issue_row i))) check_violation
  raise_if (is_none (lookup i.item.repository_id repositories)) foreign_key_violation

abbrev pub issue_upsert : Dict RepositoryRow → Upsert Issue IssueRow
issue_upsert repositories = record {
  node_id = λ i. i.item.node_id;
  new_row = issue_row;
  is_distinct = issue_is_distinct;
  merge = λ old new. new;
  admit = admit_issue repositories;
}

abbrev pub pull_request_row : PullRequest → PullRequestRow
pull_request_row p = record {
  repository_id = p.item.repository_id;
  number = p.item.number;
  url = p.item.url;
  is_private = false;
  created_at = p.item.created_at;
  updated_at = p.item.updated_at;
  closed_at = p.item.closed_at;
  merged_at = p.merged_at;
  state = p.item.state;
  merged = p.merged;
}

unfoldable pub pull_request_is_distinct : PullRequestRow → PullRequestRow → Bool
pull_request_is_distinct old new =
    not (same old.repository_id new.repository_id)
    || (not (same old.number new.number)
        || (not (same old.url new.url)
            || (not (same old.is_private new.is_private)
                || (not (same old.created_at new.created_at)
                    || (not (same old.updated_at new.updated_at)
                        || (not (same old.closed_at new.closed_at)
                            || (not (same old.merged_at new.merged_at)
                                || (not (same old.state new.state)
                                    || not (same old.merged new.merged)))))))))

unfoldable pub admit_pull_request : Dict RepositoryRow → PullRequest → Result Error (Unit {0})
admit_pull_request repositories p = do
  raise_if (not (fits_integer p.item.number)) out_of_range
  raise_if (not (pull_request_checks (pull_request_row p))) check_violation
  raise_if (is_none (lookup p.item.repository_id repositories)) foreign_key_violation

abbrev pub pull_request_upsert : Dict RepositoryRow → Upsert PullRequest PullRequestRow
pull_request_upsert repositories = record {
  node_id = λ p. p.item.node_id;
  new_row = pull_request_row;
  is_distinct = pull_request_is_distinct;
  merge = λ old new. new;
  admit = admit_pull_request repositories;
}

-- `UPDATE repositories SET last_seen_at = … WHERE node_id = ANY(seen)`
unfoldable pub refresh : Time → List String → Dict RepositoryRow → Dict RepositoryRow
refresh observed_at seen [] = []
refresh observed_at seen ((k, r) ∷ t) =
    (k, if contains k seen then record r { last_seen_at = observed_at } else r)
    ∷ refresh observed_at seen t
