-- ===== src/Ingest/Commit.antt =====
-- backend/ingest.py, `_commit_snapshot`: one transaction. An exception rolls it back, so it leaves
-- the tables of before; `healthy` says which statements the database answers.
use ghpulse.Prelude.{
  ℕ, String, Bool, false, not, ◌||◌, none, some, List, [], ◌∷◌, length, ◌==◌, if◌then◌else◌, Result,
  ok, ◌>>=◌, ◌>>◌, raise_if,
}
use ghpulse.Snapshot.{Time, Error, database_error, Snapshot}
use ghpulse.Store.{Counts, RunRow, success, SyncRow, Database}
use ghpulse.Store.Table.{upsert_rows, delete_unseen, unseen, cascade}
use ghpulse.Store.Table.Laws.{names}
use ghpulse.Ingest.Rows.{repository_upsert, issue_upsert, pull_request_upsert, refresh}

pub data Statement : Type 0 where
  upserting_repositories upserting_issues upserting_pull_requests : Statement
  refreshing deleting_issues deleting_pull_requests deleting_repositories : Statement
  syncing recording committing : Statement
  opening_run recording_failure : Statement

abbrev pub repository_ids : Snapshot → List String
repository_ids s = names (λ r. r.node_id) s.repositories

abbrev pub issue_ids : Snapshot → List String
issue_ids s = names (λ i. i.item.node_id) s.issues

abbrev pub pull_request_ids : Snapshot → List String
pull_request_ids s = names (λ p. p.item.node_id) s.pull_requests

-- `any((…))` over counts
abbrev any_positive : List ℕ → Bool
any_positive [] = false
any_positive (n ∷ ns) = not (n == 0) || any_positive ns

-- `INSERT INTO sync_state … ON CONFLICT (id) DO UPDATE`: every column is in the `SET`.
abbrev pub sync_success : Time → Time → SyncRow
sync_success committed_at source_at = record {
  last_committed_at = some committed_at;
  last_source_snapshot_at = some source_at;
  last_attempt_at = some committed_at;
  last_attempt_status = some success;
  last_attempt_error = none;
  updated_at = committed_at;
}

abbrev pub finished : Time → Time → Time → Counts → RunRow → RunRow
finished finished_at committed_at source_at counts r = record r {
  finished_at = some finished_at;
  committed_at = some committed_at;
  source_snapshot_at = some source_at;
  counts = counts;
  error = none;
}

-- `UPDATE ingest_runs SET … WHERE id = …`
unfoldable pub update_run : ℕ → (RunRow → RunRow) → List RunRow → List RunRow
update_run id f [] = []
update_run id f (r ∷ rs) = (if r.id == id then f r else r) ∷ update_run id f rs

module _ (healthy : Statement → Bool) where
  abbrev execute : Statement → Result Error (Unit {0})
  execute s = raise_if (not (healthy s)) database_error

  unfoldable pub commit_snapshot :
      ℕ → Time → Time → Snapshot → Database → Result Error (Counts × Database)
  unfolding update_run
  commit_snapshot run_id committed_at finished_at s db = do
    execute upserting_repositories
    repositories ← upsert_rows (repository_upsert committed_at) s.repositories db.repositories
    execute upserting_issues
    issues ← upsert_rows (issue_upsert repositories.1) s.issues db.issues
    execute upserting_pull_requests
    pulls ← upsert_rows (pull_request_upsert repositories.1) s.pull_requests db.pull_requests
    execute refreshing
    let refreshed = refresh committed_at (repository_ids s) repositories.1
    execute deleting_issues
    let issues' = delete_unseen (issue_ids s) issues.1
    execute deleting_pull_requests
    let pulls' = delete_unseen (pull_request_ids s) pulls.1
    execute deleting_repositories
    let repositories' = delete_unseen (repository_ids s) refreshed
    let gone = unseen (repository_ids s) refreshed
    let data_changed =
        any_positive
          (repositories.0 ∷ issues.0 ∷ pulls.0 ∷ repositories'.0 ∷ issues'.0 ∷ pulls'.0 ∷ [])
    let counts : Counts = record {
      repositories_fetched = length s.repositories;
      issues_fetched = length s.issues;
      pull_requests_fetched = length s.pull_requests;
      repositories_upserted = repositories.0;
      issues_upserted = issues.0;
      pull_requests_upserted = pulls.0;
      repositories_deleted = repositories'.0;
      issues_deleted = issues'.0;
      pull_requests_deleted = pulls'.0;
      data_changed = data_changed;
    }
    execute syncing
    execute recording
    execute committing
    ok (
      counts,
      record db {
        repositories = repositories'.1;
        issues = cascade (λ r. r.repository_id) gone issues'.1;
        pull_requests = cascade (λ r. r.repository_id) gone pulls'.1;
        sync_state = some (sync_success committed_at s.source_at);
        ingest_runs =
            update_run run_id (finished finished_at committed_at s.source_at counts) db.ingest_runs;
      },
    )
