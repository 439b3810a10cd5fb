-- ===== src/Ingest/Run/Failure.antt =====
-- backend/ingest.py, `run_ingest`: why a run raises, and what it leaves then.
use ghpulse.Prelude.{
  String, ◌≡◌, refl, Bool, true, false, Option, none, some, ◌∷◌, ◌⊎◌, inl, inr, Result, ok, err,
  ◌>>=◌, if◌then◌else◌,
}
use ghpulse.Snapshot.{Time, Error, Snapshot, database_error}
use ghpulse.Store.{Database, Counts, SyncRow, failure}
use ghpulse.Ingest.Commit.{opening_run, recording_failure}
use ghpulse.Ingest.Run.{
  World, Environment, Outcome, ingest_failed, run_ingest, acquire, sync_failure,
}
use ghpulse.Ingest.Run.Endings.{
  SameData, LeavesFailure, run_ingest-LeavesFailure, run_cases, unlock, ended, attempt, opened,
  opened_id, commit_acquired,
}

-- The two marks of the last commit.
abbrev pub commit_mark : Option SyncRow → Option Time
commit_mark none = none
commit_mark (some r) = r.last_committed_at

abbrev pub source_mark : Option SyncRow → Option Time
source_mark none = none
source_mark (some r) = r.last_source_snapshot_at

-- The sync marker before and after a failure that could be recorded, or could not.
abbrev pub Marks : (recorded : Bool) → Time → Error → Option SyncRow → Option SyncRow → Type 0
Marks false at e before after = after ≡ before
Marks true at e before after =
    (r : SyncRow) × (after ≡ some r)
    × (r.last_attempt_status ≡ some failure)
    × (r.last_attempt_error ≡ some e)
    × (r.last_attempt_at ≡ some at)
    × (r.last_committed_at ≡ commit_mark before)
    × (r.last_source_snapshot_at ≡ source_mark before)

module _ (env : Environment) (trigger : String) (w : World) where
  -- Why a run raises: its row could not be opened, no sound snapshot was acquired, or the commit was
  -- rolled back.
  abbrev pub Cause : Error → Type 0
  Cause e =
      ((env.healthy opening_run ≡ false) × (e ≡ database_error))
      ⊎ (acquire env ≡ err e)
      ⊎ ((s : Snapshot) × (acquire env ≡ ok s)
          × (commit_acquired env (opened_id env trigger w) (opened env trigger w).tables s ≡ err e))

  abbrev pub FailsSafely : Result Error Outcome × World → Type 0
  FailsSafely (ok o, w') = Unit
  FailsSafely (err e, w') =
      Cause e
      × SameData w.tables w'.tables
      × (w'.responses ≡ w.responses)
      × Marks (env.healthy recording_failure) env.failed e w.tables.sync_state w'.tables.sync_state
      × (w'.events ≡ (if env.broadcasts then ingest_failed trigger ∷ w.events else w.events))

  abbrev Caused : Result Error Outcome × World → Type 0
  Caused (ok o, w') = Unit
  Caused (err e, w') = Cause e

  attempt-Cause :
      (a : Result Error Snapshot) (e : Error)
      → acquire env ≡ a
      → (a >>= commit_acquired env (opened_id env trigger w) (opened env trigger w).tables) ≡ err e
      → Cause e
  unfolding ◌>>=◌
  attempt-Cause (err x) e acquired raised =
      let same : x ≡ e = cc raised in inr (inl (rw (← same) acquired))
  attempt-Cause (ok s) e acquired raised = inr (inr (s, acquired, raised))

  ended-Caused :
      (r : Result Error (Counts × Database))
      → attempt env (opened_id env trigger w) (opened env trigger w).tables ≡ r
      → Caused (unlock (ended env trigger (opened_id env trigger w) (opened env trigger w) r))
  unfolding ended attempt
  ended-Caused (ok r) e = tt
  ended-Caused (err x) e = attempt-Cause (acquire env) x refl e

  run_ingest-Caused : w.locked ≡ false → Caused (run_ingest env trigger w)
  run_ingest-Caused free =
      run_cases env trigger w Caused free (λ down. inl (down, refl)) λ _. ended-Caused

sync_failure-Marks :
    (recorded : Bool) (at : Time) (e : Error) (before after : Option SyncRow)
    → after ≡ (if recorded then some (sync_failure at e before) else before)
    → Marks recorded at e before after
sync_failure-Marks false at e before after h = h
sync_failure-Marks true at e none after h = (_, h, refl, refl, refl, refl, refl)
sync_failure-Marks true at e (some r) after h = (_, h, refl, refl, refl, refl, refl)

module _ (env : Environment) (trigger : String) (w : World) where
  fails_safely :
      (r : Result Error Outcome × World)
      → Caused env trigger w r
      → LeavesFailure env trigger w r
      → FailsSafely env trigger w r
  fails_safely (ok o, w') c l = tt
  fails_safely (err e, w') c (data_kept, responses_kept, marked, told) = (
    c,
    data_kept,
    responses_kept,
    sync_failure-Marks (env.healthy recording_failure) env.failed e w.tables.sync_state
        w'.tables.sync_state marked,
    told,
  )

  -- A run that finds the lock free and raises has one of three causes: its row could not be
  -- opened, the acquisition raised this error, or the commit of the acquired snapshot did. It
  -- leaves the three data tables and the cached responses as they were. If the failure could be
  -- recorded, the sync marker has the failure, its error and its time, and both marks of the last
  -- commit are those of before; else the marker is as before. The event ingest_failed is
  -- broadcast once, if the broadcaster works.
  pub run_ingest-FailsSafely :
      w.locked ≡ false → FailsSafely env trigger w (run_ingest env trigger w)
  run_ingest-FailsSafely free =
      fails_safely (run_ingest env trigger w) (run_ingest-Caused env trigger w free)
        (run_ingest-LeavesFailure env trigger w free)
