-- ===== src/Store.antt =====
-- backend/schema.sql: the tables that ingestion writes and the dashboard reads. A table is the list
-- of its rows, keyed by the primary key.
pub mod Table
pub mod Schema
use ghpulse.Prelude.{ℕ, String, Bool, Option, none, List, []}
use ghpulse.Prelude.Int.{ℤ}
use ghpulse.Prelude.Dict.{Dict}
use ghpulse.Snapshot.{Time, Error}

pub record RepositoryRow : Type 0 where
  pub name_with_owner : String
  pub owner_login : String
  pub url : String
  pub is_private : Bool
  pub is_external : Bool
  pub first_seen_at : Time
  pub last_seen_at : Time

pub record IssueRow : Type 0 where
  pub repository_id : String
  pub number : ℤ
  pub url : String
  pub is_private : Bool
  pub created_at : Time
  pub updated_at : Time
  pub closed_at : Option Time
  pub state : String
  pub state_reason : Option String

pub record PullRequestRow : Type 0 where
  pub repository_id : String
  pub number : ℤ
  pub url : String
  pub is_private : Bool
  pub created_at : Time
  pub updated_at : Time
  pub closed_at : Option Time
  pub merged_at : Option Time
  pub state : String
  pub merged : Bool

-- The counts of one run, as `ingest_runs` stores them.
pub record Counts : Type 0 where
  pub repositories_fetched : ℕ
  pub issues_fetched : ℕ
  pub pull_requests_fetched : ℕ
  pub repositories_upserted : ℕ
  pub issues_upserted : ℕ
  pub pull_requests_upserted : ℕ
  pub repositories_deleted : ℕ
  pub issues_deleted : ℕ
  pub pull_requests_deleted : ℕ
  pub data_changed : Bool

pub record RunRow : Type 0 where
  pub id : ℕ
  pub trigger : String
  pub started_at : Time
  pub finished_at : Option Time
  pub committed_at : Option Time
  pub source_snapshot_at : Option Time
  pub counts : Counts
  pub error : Option Error

pub data Status : Type 0 where
  success failure : Status

pub record SyncRow : Type 0 where
  pub last_committed_at : Option Time
  pub last_source_snapshot_at : Option Time
  pub last_attempt_at : Option Time
  pub last_attempt_status : Option Status
  pub last_attempt_error : Option Error
  pub updated_at : Time

-- `sync_state` has at most the row with `id = 1`.
pub record Database : Type 0 where
  pub repositories : Dict RepositoryRow
  pub issues : Dict IssueRow
  pub pull_requests : Dict PullRequestRow
  pub sync_state : Option SyncRow
  pub ingest_runs : List RunRow
  pub next_run_id : ℕ
