-- ===== src/Health.antt =====
-- backend/app.py: the payload of `/health`. A time stands for its `isoformat`; the driver returns times
-- with a zone. An error that is recorded has a text that is not empty, as it begins with its type's
-- name. `float` of the setting, and the rounded percentage in tenths, are parameters.
pub mod Hidden
pub mod AfterRun
mod Tests
use ghpulse.Prelude.{
  ℕ, String, Bool, true, false, not, ◌||◌, Option, none, some, List, [], ◌∷◌, ltb, ◌==◌, is_none,
  if◌then◌else◌, Result, ok, err, ◌>>=◌,
}
use ghpulse.Prelude.Int.{ℤ, pos, negsuc, ◌-ℤ◌, ltb_ℤ, leb_ℤ}
use ghpulse.Snapshot.{Time, Error}
use ghpulse.Store.{RunRow, Status, success, failure, SyncRow, Database}
use ghpulse.Ingest.Run.{Phase, idle, acquiring, validated, committing_phase, Progress}

abbrev pub sync_failure_message : String
sync_failure_message = "sync failed"

abbrev pub sync_failure_code : String
sync_failure_code = "SYNC_FAILED"

-- What `float` reads: a number of seconds, in microseconds, or a float that is none.
pub data Float : Type 0 where
  finite : ℤ → Float
  plus_infinity minus_infinity not_a_number : Float

pub record Settings : Type 0 where
  pub version : String
  -- `GHPULSE_STALE_AFTER_SECONDS`, and `float`, none where it raises
  pub stale_after : Option String
  pub read_float : String → Option Float
  -- `round(100.0 * done / total, 1)`
  pub round_percent : ℕ → ℕ → ℕ

-- The moments of the two calls of `datetime.now`.
pub record Clock : Type 0 where
  pub compared_at : Time
  pub reported_at : Time

pub data HealthError : Type 0 where
  overflow no_database : HealthError

abbrev pub default_stale_after : ℤ
default_stale_after = pos 7200000000

-- `max(0.0, x)`
abbrev at_least_zero : Float → Float
at_least_zero (finite (pos n)) = finite (pos n)
at_least_zero (finite (negsuc n)) = finite (pos 0)
at_least_zero plus_infinity = plus_infinity
at_least_zero minus_infinity = finite (pos 0)
at_least_zero not_a_number = finite (pos 0)

abbrev limit_or_default : Option Float → Float
limit_or_default none = finite default_stale_after
limit_or_default (some x) = at_least_zero x

abbrev configured_limit : (String → Option Float) → Option String → Float
configured_limit read_float none = finite default_stale_after
configured_limit read_float (some raw) = limit_or_default (read_float raw)

unfoldable pub stale_after_seconds : Settings → Float
stale_after_seconds s = configured_limit s.read_float s.stale_after

-- The greatest `timedelta`, in microseconds.
abbrev pub max_timedelta : ℕ
max_timedelta = 86399999999999999999

-- `timedelta(seconds=x)`
unfoldable pub timedelta : Float → Result HealthError ℤ
timedelta (finite n) = if leb_ℤ n (pos max_timedelta) then ok n else err overflow
timedelta _ = err overflow

-- The `stale` of a payload, from the last success.
unfoldable pub staleness : Settings → Clock → Option Time → Result HealthError Bool
staleness s c none = ok true
staleness s c (some t) = do
  limit ← timedelta (stale_after_seconds s)
  ok (ltb_ℤ limit (c.compared_at -ℤ t))

pub record Detail : Type 0 where
  pub phase : Phase
  pub done : ℕ
  pub total : ℕ
  pub pct : Option ℕ
  pub run_id : Option ℕ
  pub started_at : Option Time

unfoldable pub is_idle : Phase → Bool
is_idle idle = true
is_idle _ = false

-- `_ingest_progress`, less the error: whether a run is on, and its detail.
unfoldable pub ingest_progress : Settings → Progress → Option Detail
ingest_progress s p =
    if is_idle p.phase
    then none
    else some (record {
      phase = p.phase;
      done = p.done;
      total = p.total;
      pct = if p.total == 0 then none else some (s.round_percent p.done p.total);
      run_id = p.run_id;
      started_at = p.started_at;
    })

abbrev pub later_run : RunRow → Option RunRow → RunRow
later_run r none = r
later_run r (some l) = if ltb r.id l.id then l else r

-- `SELECT … FROM ingest_runs ORDER BY id DESC LIMIT 1`
unfoldable pub latest_run : List RunRow → Option RunRow
latest_run [] = none
latest_run (r ∷ rs) = some (later_run r (latest_run rs))

pub record LastIngest : Type 0 where
  pub id : ℕ
  pub started_at : Time
  pub finished_at : Option Time
  pub trigger : String
  pub committed_at : Option Time
  pub source_snapshot_at : Option Time
  pub error : Option String
  pub error_code : Option String

pub record LastAttempt : Type 0 where
  pub at : Option Time
  pub status : Option Status
  pub error : Option String
  pub code : Option String

pub record Payload : Type 0 where
  pub version : String
  pub ingest_running : Bool
  pub progress : Option Detail
  pub last_success : Option Time
  pub last_error : Option String
  pub last_error_code : Option String
  pub stale : Bool
  pub sync_status : Option Status
  pub last_attempt : LastAttempt
  pub last_ingest : Option LastIngest
  pub now : Time

abbrev pub when_set : Bool → String → Option String
when_set true text = some text
when_set false text = none

abbrev pub sync_committed : Option SyncRow → Option Time
sync_committed none = none
sync_committed (some r) = r.last_committed_at

abbrev pub run_committed : Option RunRow → Option Time
run_committed none = none
run_committed (some r) = r.committed_at

abbrev pub or_else : Option Time → Option Time → Option Time
or_else none u = u
or_else (some t) u = some t

unfoldable pub last_success_of : Option SyncRow → Option RunRow → Option Time
last_success_of sync latest = or_else (sync_committed sync) (run_committed latest)

abbrev pub status_of : Option SyncRow → Option Status
status_of none = none
status_of (some r) = r.last_attempt_status

abbrev attempt_time : Option SyncRow → Option Time
attempt_time none = none
attempt_time (some r) = r.last_attempt_at

abbrev sync_has_error : Option SyncRow → Bool
sync_has_error none = false
sync_has_error (some r) = not (is_none r.last_attempt_error)

abbrev run_has_error : Option RunRow → Bool
run_has_error none = false
run_has_error (some r) = not (is_none r.error)

abbrev is_failure : Option Status → Bool
is_failure (some failure) = true
is_failure _ = false

unfoldable pub has_sync_error : Option Error → Option SyncRow → Option RunRow → Bool
has_sync_error progress_error sync latest =
    not (is_none progress_error)
    || (sync_has_error sync || (run_has_error latest || is_failure (status_of sync)))

abbrev pub last_ingest_of : Option RunRow → Option LastIngest
last_ingest_of none = none
last_ingest_of (some r) = some (record {
  id = r.id;
  started_at = r.started_at;
  finished_at = r.finished_at;
  trigger = r.trigger;
  committed_at = r.committed_at;
  source_snapshot_at = r.source_snapshot_at;
  error = when_set (not (is_none r.error)) sync_failure_message;
  error_code = when_set (not (is_none r.error)) sync_failure_code;
})

-- The dict that `_health_payload` returns, from the two rows and its `stale`.
unfoldable pub payload_with :
    Settings → Clock → Progress → Option SyncRow → Option RunRow → Bool → Payload
payload_with s c p sync latest stale =
    let failed = has_sync_error p.last_error sync latest in
    record {
      version = s.version;
      ingest_running = not (is_idle p.phase);
      progress = ingest_progress s p;
      last_success = last_success_of sync latest;
      last_error = when_set failed sync_failure_message;
      last_error_code = when_set failed sync_failure_code;
      stale = stale;
      sync_status = status_of sync;
      last_attempt = record {
        at = attempt_time sync;
        status = status_of sync;
        error = when_set failed sync_failure_message;
        code = when_set failed sync_failure_code;
      };
      last_ingest = last_ingest_of latest;
      now = c.reported_at;
    }

unfoldable pub payload_of :
    Settings → Clock → Progress → Option SyncRow → Option RunRow → Result HealthError Payload
payload_of s c p sync latest = do
  stale ← staleness s c (last_success_of sync latest)
  ok (payload_with s c p sync latest stale)

unfoldable pub health_payload :
    Settings → Clock → (answers : Bool) → Database → Progress → Result HealthError Payload
health_payload s c answers db p =
    if answers then payload_of s c p db.sync_state (latest_run db.ingest_runs) else err no_database

-- The route: any exception is answered with status 503 and texts of its own.
pub data Response : Type 0 where
  healthy : Payload → Response
  unavailable : (version : String) (now : Time) → Response

abbrev pub respond : Settings → Clock → Result HealthError Payload → Response
respond s c (ok payload) = healthy payload
respond s c (err e) = unavailable s.version c.reported_at

unfoldable pub health : Settings → Clock → (answers : Bool) → Database → Progress → Response
health s c answers db p = respond s c (health_payload s c answers db p)
