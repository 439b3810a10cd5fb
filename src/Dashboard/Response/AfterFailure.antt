-- ===== src/Dashboard/Response/AfterFailure.antt =====
-- backend/ingest.py and backend/api_dashboard.py: the dashboard after a run of `run_ingest`.
use ghpulse.Prelude.{
  String, Bool, true, false, ◌≡◌, refl, Option, none, some, List, [], ◌∷◌, Result, ok, err,
  if◌then◌else◌,
}
use ghpulse.Snapshot.{Time, Error}
use ghpulse.Store.{SyncRow, Database}
use ghpulse.Range.{RangeWindow}
use ghpulse.Ingest.Commit.{recording_failure}
use ghpulse.Ingest.Run.{World, Environment, Outcome, skipped, completed, sync_failure, run_ingest}
use ghpulse.Ingest.Run.Endings.{SameData, LeavesFailure, run_ingest-LeavesFailure}
use ghpulse.Ingest.Run.Recorded.{IsNumbered, Records, run_ingest-Records}
use ghpulse.Health.{sync_failure_message}
use ghpulse.Dashboard.{event_union, event_rows, dashboard_panel}
use ghpulse.Dashboard.Window.{event_bounds, build_window, validate_repository}
use ghpulse.Dashboard.Response.{
  Moments, summary_open_counts, event_repository_ids, repository_rows, last_ingest, sync_status,
  sync_status_of, committed_of, dashboard_build, dashboard,
}

module _ (a b : Database) (same : SameData a b) where
  event_union-same : event_union b ≡ event_union a
  unfolding event_union
  event_union-same = rw (same.0, same.1, same.2) refl

  event_rows-same :
      (w : RangeWindow) (repository : Option String)
      → event_rows b w repository ≡ event_rows a w repository
  unfolding event_rows
  event_rows-same w repository = rw event_union-same refl

  event_repository_ids-same :
      (w : RangeWindow) (repository : Option String)
      → event_repository_ids b w repository ≡ event_repository_ids a w repository
  unfolding event_repository_ids
  event_repository_ids-same w repository = rw event_union-same refl

  summary_open_counts-same :
      (w : RangeWindow) (repository : Option String)
      → summary_open_counts b w repository ≡ summary_open_counts a w repository
  unfolding summary_open_counts
  summary_open_counts-same w repository = rw (same.0, same.1, same.2) refl

  repository_rows-same :
      (precedes : String → String → Bool) (ids : List String)
      → repository_rows precedes b ids ≡ repository_rows precedes a ids
  unfolding repository_rows
  repository_rows-same precedes [] = refl
  repository_rows-same precedes (id ∷ ids) = rw (same.0) refl

  build_window-same :
      (parsed_at now : Time) (rng : String) (repository : Option String)
      → build_window parsed_at now b rng repository ≡ build_window parsed_at now a rng repository
  unfolding build_window event_bounds
  build_window-same parsed_at now rng repository = rw event_union-same refl

  validate_repository-same :
      (repository : Option String)
      → validate_repository b repository ≡ validate_repository a repository
  unfolding validate_repository
  validate_repository-same none = refl
  validate_repository-same (some r) = rw (same.0) refl

  module _ (precedes : String → String → Bool) (kept : last_ingest b ≡ last_ingest a) where
    dashboard_build-same :
        (started : Time) (w : RangeWindow) (repository : Option String)
        → dashboard_build precedes started b w repository
          ≡ dashboard_build precedes started a w repository
    unfolding dashboard_build dashboard_panel
    dashboard_build-same started w repository =
        rw
          (
            event_rows-same w repository,
            summary_open_counts-same w repository,
            event_repository_ids-same w repository,
            repository_rows-same precedes (event_repository_ids a w repository),
            kept,
          )
          refl

    dashboard-same :
        (m : Moments) (rng : String) (repository : Option String)
        → dashboard precedes m b rng repository ≡ dashboard precedes m a rng repository
    unfolding dashboard
    dashboard-same m rng repository =
        rw (validate_repository-same repository, build_window-same m.parsed_at m.now rng repository)
          (simp dashboard_build-same)

sync_failure-committed :
    (at : Time) (e : Error) (sync : Option SyncRow) (up : Bool)
    → committed_of (if up then some (sync_failure at e sync) else sync) ≡ committed_of sync
sync_failure-committed at e none true = refl
sync_failure-committed at e (some r) true = refl
sync_failure-committed at e sync false = refl

sync_failure-error :
    (at : Time) (e : Error) (sync : Option SyncRow) (up : Bool)
    → (sync_status_of (if up then some (sync_failure at e sync) else sync)).sync_error
      ≡ (if up then some sync_failure_message else (sync_status_of sync).sync_error)
sync_failure-error at e none true = refl
sync_failure-error at e (some r) true = refl
sync_failure-error at e sync false = refl

module _ (precedes : String → String → Bool) (m : Moments) (rng : String)
    (repository : Option String) (env : Environment) (trigger : String) (w : World) where
  -- What a request sees of a run.
  abbrev pub Sees : Result Error Outcome × World → Type 0
  Sees (ok skipped, w') = ⊥
  Sees (ok (completed run_id counts), w') =
      ((sync_status w'.tables).sync_error ≡ none) × (last_ingest w'.tables ≡ some env.committed)
  Sees (err e, w') =
      (dashboard precedes m w'.tables rng repository ≡ dashboard precedes m w.tables rng repository)
      × ((sync_status w'.tables).sync_error ≡ (
          if env.healthy recording_failure
          then some sync_failure_message
          else (sync_status w.tables).sync_error))

  sees :
      (r : Result Error Outcome) (w' : World)
      → LeavesFailure env trigger w (r, w')
      → Records env trigger w (r, w')
      → Sees (r, w')
  unfolding last_ingest sync_status
  sees (ok skipped) w' q h = h
  sees (ok (completed run_id counts)) w' q (source_at, _, sync, _) = rw sync (refl, refl)
  sees (err e) w' (same, _, sync, _) h =
      let up = env.healthy recording_failure in
      (
        dashboard-same w.tables w'.tables same precedes
            (rw sync (sync_failure-committed env.failed e w.tables.sync_state up)) m rng repository,
        rw sync (sync_failure-error env.failed e w.tables.sync_state up),
      )

  -- For numbered rows of runs and a free lock, whatever range and repository a request asks for:
  -- after a failed run the dashboard that is built is the same as before the run, and the sync
  -- status that goes with it has the public failure text, if the failure could be recorded, and
  -- else what it had before; after a completed run the sync status has no error and the time of
  -- the last ingest is that of the commit.
  pub run_ingest-Sees : IsNumbered w.tables → w.locked ≡ false → Sees (run_ingest env trigger w)
  run_ingest-Sees numbered free =
      sees (run_ingest env trigger w).0 (run_ingest env trigger w).1
        (run_ingest-LeavesFailure env trigger w free)
        (run_ingest-Records env trigger w numbered free)
