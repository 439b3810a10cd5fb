-- ===== src/Ingest/Run/Tests.antt =====
-- backend/ingest.py, `run_ingest`: a run that cannot reach the source, and one that completes.
use ghpulse.Prelude.{refl, true, false, none, some, [], str_eq, if◌then◌else◌}
use ghpulse.Prelude.Int.{pos}
use ghpulse.Cache
use ghpulse.Ingest.Tests.{plain, plain-StripsSpaces, raw, before, all_healthy}
use ghpulse.Ingest.Run.{World, Environment, fetched, raised, reset_progress, run_ingest}
use ghpulse.Ingest.Run.Failure.{FailsSafely, run_ingest-FailsSafely}
use ghpulse.Ingest.Run.Endings.{Completes, run_ingest-Completes}

abbrev pub world : World
world = record {
  tables = before;
  progress = reset_progress none;
  locked = false;
  responses = Cache.empty 3600;
  events = [];
}

abbrev pub online : Environment
online = record {
  rules = plain;
  variable = λ name.
      if str_eq name "GH_TOKEN"
      then some "t"
      else if str_eq name "GH_USER"
      then some "me"
      else none;
  fetch = λ token login. fetched raw;
  healthy = all_healthy;
  started = pos 40;
  committed = pos 50;
  finished = pos 51;
  failed = pos 52;
  broadcasts = true;
}

abbrev pub offline : Environment
offline = record online { fetch = λ token login. raised }

run_ingest-FailsSafely_example :
    FailsSafely offline "manual" world (run_ingest offline "manual" world)
run_ingest-FailsSafely_example = run_ingest-FailsSafely offline "manual" world refl

run_ingest-Completes_example : Completes online "startup" world (run_ingest online "startup" world)
run_ingest-Completes_example = run_ingest-Completes online "startup" world plain-StripsSpaces refl
