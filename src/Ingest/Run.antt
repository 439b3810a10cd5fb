-- ===== src/Ingest/Run.antt =====
-- backend/ingest.py, `run_ingest`: the process-local lock and progress, the audit row, acquisition,
-- validation, the commit, and the two hooks after it. What the process does not decide, the
-- clock, the environment variables, GitHub's answer and which statements the database answers, is
-- an `Environment`. The response cache and the broadcaster of events are part of the world.
pub mod Endings
pub mod Failure
pub mod Recorded
pub mod Tests
use ghpulse.Prelude.{
  ℕ, zero, suc, ◌+◌, String, Bool, true, false, not, ◌||◌, ◌&&◌, Option, none, some, List, [], ◌∷◌,
  ◌++◌, length, str_eq, is_none, if◌then◌else◌, Result, ok, err, ◌>>=◌, ◌>>◌, raise_if,
}
use ghpulse.Cache.{TtlCache, invalidate}
use ghpulse.Snapshot.{
  Value, Time, TextRules, Error, missing_configuration, acquisition_failed, account_mismatch,
  database_error, Snapshot,
}
use ghpulse.Snapshot.Validate.{validate_snapshot}
use ghpulse.Store.{Counts, RunRow, Status, failure, SyncRow, Database}
use ghpulse.Ingest.Commit.{Statement, opening_run, recording_failure, commit_snapshot, update_run}

pub data Phase : Type 0 where
  idle acquiring validated committing_phase : Phase

-- The dict `_PROGRESS`.
pub record Progress : Type 0 where
  pub phase : Phase
  pub done : ℕ
  pub total : ℕ
  pub run_id : Option ℕ
  pub started_at : Option Time
  pub last_error : Option Error

-- `_reset_progress(error)`
abbrev pub reset_progress : Option Error → Progress
reset_progress error = record {
  phase = idle;
  done = 0;
  total = 0;
  run_id = none;
  started_at = none;
  last_error = error;
}

-- `_set_progress(phase="acquiring", …)`
abbrev pub acquiring_progress : Time → Progress
acquiring_progress started = record {
  phase = acquiring;
  done = 0;
  total = 0;
  run_id = none;
  started_at = some started;
  last_error = none;
}

abbrev pub item_count : Snapshot → ℕ
item_count s = length s.repositories + length s.issues + length s.pull_requests

-- `_set_progress(phase="validated", …)`, and the first of `_commit_snapshot`
abbrev pub enter_phase : Phase → Snapshot → Progress → Progress
enter_phase phase s p = record p { phase = phase; total = item_count s; done = 0 }

abbrev pub is_idle : Phase → Bool
is_idle idle = true
is_idle _ = false

-- The `finally`: `if progress_snapshot()["phase"] != "idle": _reset_progress()`.
unfoldable pub settle_progress : Progress → Progress
settle_progress p = if is_idle p.phase then p else reset_progress none

pub data Event : Type 0 where
  ingest_done : ℕ → Counts → String → Event
  ingest_failed : String → Event

pub record World : Type 0 where
  pub tables : Database
  pub progress : Progress
  pub locked : Bool
  pub responses : TtlCache String
  -- what was broadcast, the latest first
  pub events : List Event

-- What the source adapter does: it returns, or raises.
pub data Fetched : Type 0 where
  fetched : Value → Fetched
  raised : Fetched

pub record Environment : Type 0 where
  pub rules : TextRules
  pub variable : String → Option String
  pub fetch : String → String → Fetched
  pub healthy : Statement → Bool
  pub started : Time
  pub committed : Time
  pub finished : Time
  pub failed : Time
  -- whether `broadcast_threadsafe` returns; its exception is logged and dropped
  pub broadcasts : Bool

pub data Outcome : Type 0 where
  skipped : Outcome
  completed : ℕ → Counts → Outcome

abbrev is_set : Option String → Bool
is_set none = false
is_set (some s) = not (str_eq s "")

-- `os.environ.get(a) or os.environ.get(b)`
abbrev first_set : Option String → Option String → Option String
first_set a b = if is_set a then a else b

require_set : Option String → Result Error String
require_set none = err missing_configuration
require_set (some s) = if str_eq s "" then err missing_configuration else ok s

unfoldable pub configured_credentials : (String → Option String) → Result Error (String × String)
unfolding require_set
configured_credentials variable = do
  token ← require_set (first_set (variable "GH_TOKEN") (variable "GITHUB_TOKEN"))
  login ← require_set (first_set (variable "GH_USER") (variable "GITHUB_USER"))
  ok (token, login)

abbrev no_counts : Counts
no_counts = record {
  repositories_fetched = 0;
  issues_fetched = 0;
  pull_requests_fetched = 0;
  repositories_upserted = 0;
  issues_upserted = 0;
  pull_requests_upserted = 0;
  repositories_deleted = 0;
  issues_deleted = 0;
  pull_requests_deleted = 0;
  data_changed = false;
}

-- `INSERT INTO ingest_runs … RETURNING id`
unfoldable pub open_run : Time → String → Database → ℕ × Database
open_run started_at trigger db = (
  db.next_run_id,
  record db {
    ingest_runs =
        record {
          id = db.next_run_id;
          trigger = trigger;
          started_at = started_at;
          finished_at = none;
          committed_at = none;
          source_snapshot_at = none;
          counts = no_counts;
          error = none;
        }
        ∷ db.ingest_runs;
    next_run_id = db.next_run_id + 1;
  },
)

-- The upsert of `sync_state` on a failure: the two marks of the last commit stay.
abbrev pub sync_failure : Time → Error → Option SyncRow → SyncRow
sync_failure at error none = record {
  last_committed_at = none;
  last_source_snapshot_at = none;
  last_attempt_at = some at;
  last_attempt_status = some failure;
  last_attempt_error = some error;
  updated_at = at;
}
sync_failure at error (some r) = record r {
  last_attempt_at = some at;
  last_attempt_status = some failure;
  last_attempt_error = some error;
  updated_at = at;
}

unfoldable pub record_failed_attempt : Time → Error → Database → Database
record_failed_attempt at error db = record db {
  sync_state = some (sync_failure at error db.sync_state);
}

unfoldable pub finish_failed_run : ℕ → Time → Error → Database → Database
unfolding record_failed_attempt update_run
finish_failed_run run_id at error db = record (record_failed_attempt at error db) {
  ingest_runs =
      update_run run_id (λ r. record r { finished_at = some at; error = some error })
        db.ingest_runs;
}

unfoldable pub from_source : Fetched → Result Error Value
from_source (fetched v) = ok v
from_source raised = err acquisition_failed

-- Acquisition, validation and the test of the account.
unfoldable pub acquire : Environment → Result Error Snapshot
unfolding from_source
acquire env = do
  credentials ← configured_credentials env.variable
  snapshot ← from_source (env.fetch credentials.0 credentials.1)
  s ← validate_snapshot env.rules snapshot
  raise_if (not (str_eq (env.rules.casefold s.login) (env.rules.casefold credentials.1)))
      account_mismatch
  ok s

-- `_post_commit`
unfoldable pub post_commit : Environment → ℕ → Counts → String → World → World
post_commit env run_id counts trigger w = record w {
  responses = invalidate w.responses;
  events = if env.broadcasts then ingest_done run_id counts trigger ∷ w.events else w.events;
}

-- `_post_failure`
unfoldable pub post_failure : Environment → String → World → World
post_failure env trigger w = record w {
  events = if env.broadcasts then ingest_failed trigger ∷ w.events else w.events;
}

abbrev recorded_failure : Option ℕ → Time → Error → Database → Database
recorded_failure none at error db = record_failed_attempt at error db
recorded_failure (some run_id) at error db = finish_failed_run run_id at error db

-- The `except` clause: what the failure recorders write is lost where the database fails too.
unfoldable pub fail_run : Environment → String → Option ℕ → Error → World → World
fail_run env trigger run_id error w =
    let recorded =
      if env.healthy recording_failure
      then recorded_failure run_id env.failed error w.tables
      else w.tables in
    record (post_failure env trigger (record w { tables = recorded })) {
      progress = reset_progress (some error);
    }

-- The run after its commit has returned or raised. `_commit_snapshot` counts what it has upserted as
-- done; where it raises, the count does not outlast the failure.
unfoldable pub run_committed :
    Environment
    → String
    → ℕ
    → Snapshot
    → World
    → Result Error (Counts × Database)
    → Result Error Outcome × World
run_committed env trigger run_id s w (err e) = (err e, fail_run env trigger (some run_id) e w)
run_committed env trigger run_id s w (ok r) = (
  ok (completed run_id r.0),
  post_commit env run_id r.0 trigger
      (record w { tables = r.1; progress = record w.progress { done = item_count s } }),
)

-- The run after its acquisition and validation.
unfoldable pub run_acquired :
    Environment → String → ℕ → World → Result Error Snapshot → Result Error Outcome × World
unfolding run_committed
run_acquired env trigger run_id w (err e) = (err e, fail_run env trigger (some run_id) e w)
run_acquired env trigger run_id w (ok s) =
    let validated_world = record w { progress = enter_phase validated s w.progress } in
    let committing_world = record w {
      progress = enter_phase committing_phase s validated_world.progress;
    } in
    run_committed env trigger run_id s committing_world
      (commit_snapshot env.healthy run_id env.committed env.finished s w.tables)

-- The run after its row is open.
unfoldable pub run_opened : Environment → String → ℕ → World → Result Error Outcome × World
unfolding run_acquired
run_opened env trigger run_id w =
    run_acquired env trigger run_id
      (record w { progress = record w.progress { run_id = some run_id } }) (acquire env)

-- The `try` and its `except`.
unfoldable pub run_guarded : Environment → String → World → Result Error Outcome × World
unfolding run_opened
run_guarded env trigger w =
    if env.healthy opening_run
    then (let (run_id, opened) = open_run env.started trigger w.tables in
        run_opened env trigger run_id (record w { tables = opened }))
    else (err database_error, fail_run env trigger none database_error w)

-- The run under the lock.
unfoldable pub run_locked : Environment → String → World → Result Error Outcome × World
unfolding run_guarded
run_locked env trigger w =
    let (r, w') =
      run_guarded env trigger (record w { progress = acquiring_progress env.started }) in
    (r, record w' { progress = settle_progress w'.progress })

-- `_run_lock_nonblocking` around the run: the lock is released on every way out.
unfoldable pub run_ingest : Environment → String → World → Result Error Outcome × World
run_ingest env trigger w =
    if w.locked
    then (ok skipped, w)
    else (let (r, w') = run_locked env trigger (record w { locked = true }) in
        (r, record w' { locked = false }))
