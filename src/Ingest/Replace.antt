-- ===== src/Ingest/Replace.antt =====
-- backend/ingest.py, `_commit_snapshot`: the tables after a commit are those of the snapshot.
pub mod Cascade
pub mod Repeat
pub mod Whole
use ghpulse.Prelude.{
  ℕ, String, ◌≡◌, refl, sym, ◌∙◌, Bool, true, false, Option, none, some, List, [], ◌∷◌, ◌++◌, arith,
  str_eq, eq_iff, contains, IsDistinct, All, if◌then◌else◌, Bool-cases, Option-cases, inl, inr, ap,
  Result, ok, Ensures, Ensures-bind, Ensures-guard, Ensures-then, Ensures-ok,
}
use ghpulse.Prelude.Dict.{Dict, lookup}
use ghpulse.Snapshot.{Time, Error, TextRules, Snapshot, Repository, Issue, PullRequest}
use ghpulse.Snapshot.Sound.{IsSound}
use ghpulse.Store.{RepositoryRow, IssueRow, PullRequestRow, Database, SyncRow, Counts}
use ghpulse.Store.Table.{Upsert, upsert_rows, delete_unseen, unseen, cascade}
use ghpulse.Store.Table.Laws.{
  names, as_table, after_upsert, stored, lookup-delete_unseen, lookup-upsert_rows,
}
use ghpulse.Ingest.Rows.{
  repository_upsert, issue_upsert, pull_request_upsert, refresh, repository_row, issue_row,
  pull_request_row,
}
use ghpulse.Ingest.Rows.Laws.{
  issue_same, pull_request_same, kept, kept_if, refreshed, touched, lookup-refresh,
}
use ghpulse.Ingest.Commit.{
  Statement, repository_ids, issue_ids, pull_request_ids, sync_success, commit_snapshot,
}

abbrev pub repositories_of : Time → Snapshot → Dict RepositoryRow
repositories_of at s = as_table (λ r. r.node_id) (repository_row at) s.repositories

abbrev pub issues_of : Snapshot → Dict IssueRow
issues_of s = as_table (λ i. i.item.node_id) issue_row s.issues

abbrev pub pull_requests_of : Snapshot → Dict PullRequestRow
pull_requests_of s = as_table (λ p. p.item.node_id) pull_request_row s.pull_requests

-- The tables hold the snapshot and nothing else; a repository that was there keeps the time of its
-- first sighting.
pub record IsReplaced (at : Time) (s : Snapshot) (before after : Database) : Type 0 where
  pub repositories :
      (k : String)
      → lookup k after.repositories
        ≡ kept_if (lookup k (repositories_of at s)) (lookup k before.repositories)
  pub issues : (k : String) → lookup k after.issues ≡ lookup k (issues_of s)
  pub pull_requests : (k : String) → lookup k after.pull_requests ≡ lookup k (pull_requests_of s)
  pub sync : after.sync_state ≡ some (sync_success at s.source_at)
