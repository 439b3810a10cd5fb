-- ===== src/Lifespan.antt =====
-- backend/app.py: `_IngestCoordinator` and `lifespan`, with the ingests and cache refreshes that run
-- beside it. The lifespan is a list of actions in the order of the source; an action of the startup
-- may raise, and the `finally` block follows then as well. APScheduler documents that `shutdown` raises
-- for a scheduler that does not run, which ends the `finally` block early; a `start` that raises leaves
-- its scheduler not running. Requests outside a lifespan, for which
-- `admin_ingest` finds no coordinator, are left out.
pub mod Pools
pub mod Shutdown
mod Tests
use ghpulse.Prelude.{ℕ, ◌+◌, ◌-◌, ◌<◌, Bool, true, false, not, ◌&&◌, ◌≡◌, ◌==◌, ltb, if◌then◌else◌}

pub record Coordinator : Type 0 where
  pub active : ℕ
  pub closing : Bool

-- `run` up to the call of `run_ingest`: whether it is made, and the state after.
unfoldable pub enter : Coordinator → Bool × Coordinator
enter o = if o.closing then (false, o) else (true, record o { active = o.active + 1 })

-- The `finally` of `run`.
unfoldable pub leave : Coordinator → Coordinator
leave o = record o { active = o.active - 1 }

unfoldable pub begin_shutdown : Coordinator → Coordinator
begin_shutdown o = record o { closing = true }

-- What the lifespan does next.
pub data Stage : Type 0 where
  opening_pools checking_schema starting_refreshes setting_loop : Stage
  creating_scheduler adding_jobs starting_scheduler serving : Stage
  signalling refusing stopping_scheduler draining_ingests clearing_loop : Stage
  refusing_refreshes draining_refreshes closing_pools ended : Stage
  -- the `finally` block has raised
  interrupted : Stage

pub record App : Type 0 where
  pub stage : Stage
  pub owner : Coordinator
  pub pools_open : Bool
  -- `_REFRESH_ACCEPTING`, and the refreshes accepted and not done
  pub accepting : Bool
  pub refreshes : ℕ
  pub loop_set : Bool
  pub shutdown_set : Bool
  -- `scheduler` is not None
  pub scheduler_made : Bool
  -- whether the scheduler has been started, whose threads may still run a job after its end
  pub scheduled : Bool

-- A process before the lifespan.
abbrev pub loaded : App
loaded = record {
  stage = opening_pools;
  owner = record { active = 0; closing = false };
  pools_open = false;
  accepting = true;
  refreshes = 0;
  loop_set = false;
  shutdown_set = false;
  scheduler_made = false;
  scheduled = false;
}

-- Whether the next action can end: the two waits end once nothing is left to wait for.
unfoldable pub is_ready : App → Bool
is_ready app = elim app.stage [
  | draining_ingests ↦ app.owner.active == 0
  | draining_refreshes ↦ app.refreshes == 0
  | ended ↦ false
  | interrupted ↦ false
  | _ ↦ true
]

-- A scheduler that was made and not started, whose `shutdown` raises.
abbrev pub is_unstarted : App → Bool
is_unstarted app = app.scheduler_made && not app.scheduled

-- One action of `lifespan`. An action that raises has no effect here: what it has opened is closed
-- by the `finally` block in any case.
abbrev perform : Stage → Bool → App → App
perform opening_pools true app = record app { stage = signalling }
perform opening_pools false app = record app { stage = checking_schema; pools_open = true }
perform checking_schema true app = record app { stage = signalling }
perform checking_schema false app = record app { stage = starting_refreshes }
perform starting_refreshes raises app = record app { stage = setting_loop; accepting = true }
perform setting_loop raises app = record app {
  stage = creating_scheduler;
  loop_set = true;
  shutdown_set = false;
}
perform creating_scheduler true app = record app { stage = signalling }
perform creating_scheduler false app = record app { stage = adding_jobs; scheduler_made = true }
perform adding_jobs true app = record app { stage = signalling }
perform adding_jobs false app = record app { stage = starting_scheduler }
perform starting_scheduler true app = record app { stage = signalling }
perform starting_scheduler false app = record app { stage = serving; scheduled = true }
perform serving raises app = record app { stage = signalling }
perform signalling raises app = record app { stage = refusing; shutdown_set = app.loop_set }
perform refusing raises app = record app {
  stage = stopping_scheduler;
  owner = begin_shutdown app.owner;
}
perform stopping_scheduler raises app = record app {
  stage = if is_unstarted app then interrupted else draining_ingests;
}
perform draining_ingests raises app = record app { stage = clearing_loop }
perform clearing_loop raises app = record app {
  stage = refusing_refreshes;
  loop_set = false;
  shutdown_set = false;
}
perform refusing_refreshes raises app = record app { stage = draining_refreshes; accepting = false }
perform draining_refreshes raises app = record app { stage = closing_pools }
perform closing_pools raises app = record app { stage = ended; pools_open = false }
perform ended raises app = app
perform interrupted raises app = app

unfoldable pub advance : (raises : Bool) → App → App
advance raises app = perform app.stage raises app

-- `submit_refresh`, as far as the lifespan is concerned.
unfoldable pub submit : App → App
submit app = if app.accepting then record app { refreshes = app.refreshes + 1 } else app

pub data Step (app : App) : App → Type 0 where
  advances : (raises : Bool) → is_ready app ≡ true → Step app (advance raises app)
  enters : app.scheduled ≡ true → Step app (record app { owner = (enter app.owner).1 })
  leaves : 0 < app.owner.active → Step app (record app { owner = leave app.owner })
  submits : app.scheduled ≡ true → Step app (submit app)
  refreshed : 0 < app.refreshes → Step app (record app { refreshes = app.refreshes - 1 })

pub data Reach (app : App) : App → Type 0 where
  here : Reach app app
  next : {b c : App} → Reach app b → Step b c → Reach app c
