-- ===== src/Health/Tests.antt =====
-- backend/app.py: `/health` after a run that completes, and with other errors recorded.
use ghpulse.Prelude.{◌≡◌, refl, true, none, some, ok}
use ghpulse.Prelude.Int.{pos}
use ghpulse.Snapshot.{database_error}
use ghpulse.Ingest.Run.{run_ingest, Progress, reset_progress}
use ghpulse.Ingest.Run.Tests.{world, online}
use ghpulse.Ingest.Tests.{before}
use ghpulse.Health.{Settings, Clock, timedelta, stale_after_seconds, health}
use ghpulse.Health.Hidden.{relabel_database, relabel_progress, health-relabel}
use ghpulse.Health.AfterRun.{Shows, run_ingest-Shows}

abbrev settings : Settings
settings = record {
  version = "1";
  stale_after = none;
  read_float = λ text. none;
  round_percent = λ done total. 0;
}

abbrev clock : Clock
clock = record { compared_at = pos 60; reported_at = pos 61 }

abbrev failed_before : Progress
failed_before = reset_progress (some database_error)

health-relabel_example :
    health settings clock true
      (relabel_database (λ e. database_error) before)
      (relabel_progress (λ e. database_error) failed_before)
    ≡ health settings clock true before failed_before
health-relabel_example =
    health-relabel (λ e. database_error) settings clock true before failed_before

two_hours : timedelta (stale_after_seconds settings) ≡ ok (pos 7200000000)
unfolding timedelta stale_after_seconds
two_hours = refl

run_ingest-Shows_example :
    Shows settings clock
      (pos 7200000000)
      two_hours
      online
      "startup"
      world
      (run_ingest online "startup" world)
run_ingest-Shows_example =
    run_ingest-Shows settings clock (pos 7200000000) two_hours online "startup" world tt refl
