-- ===== src/Ingest/Run/Recorded.antt =====
-- backend/ingest.py, `run_ingest`: the rows of `ingest_runs`, whose ids the sequence gives.
use ghpulse.Prelude.{
  ℕ, ◌<◌, ◌≤◌, String, Bool, true, false, ◌≡◌, refl, ap, ◌∙◌, none, some, List, [], ◌∷◌, ◌==◌,
  Result, ok, err, Bool-cases, inl, inr, Ensures, Ensures-bind, Ensures-guard, Ensures-ok,
  >>=-eq-ok, arith, if◌then◌else◌,
}
use ghpulse.Snapshot.{Time, Snapshot, Error, database_error}
use ghpulse.Store.{Database, Counts, RunRow}
use ghpulse.Ingest.Commit.{
  Statement, opening_run, recording_failure, commit_snapshot, update_run, finished, sync_success,
}
use ghpulse.Ingest.Run.{
  World, Environment, Outcome, skipped, completed, run_ingest, fail_run, acquire, open_run,
  no_counts, post_failure, post_commit, finish_failed_run, record_failed_attempt,
}
use ghpulse.Ingest.Run.Endings.{unlock, attempt, ended, opened, opened_id, run_cases}

-- The rows stand with the latest first, and every id is below the next.
abbrev pub IsDescending : ℕ → List RunRow → Type 0
IsDescending n [] = Unit
IsDescending n (r ∷ rs) = (r.id < n) × IsDescending r.id rs

abbrev pub IsNumbered : Database → Type 0
IsNumbered db = IsDescending db.next_run_id db.ingest_runs

update_run-older :
    (id n : ℕ) (f : RunRow → RunRow) (rs : List RunRow)
    → n ≤ id
    → IsDescending n rs
    → update_run id f rs ≡ rs
unfolding update_run
update_run-older id n f [] le h = refl
update_run-older id n f (r ∷ rs) le (below, rest) =
    let other : (r.id == id) ≡ false = ground arith in
    rw other (ap (λ l. r ∷ l) (update_run-older id r.id f rs (omega arith) rest))

update_run-latest :
    (f : RunRow → RunRow) (r : RunRow) (rs : List RunRow)
    → IsDescending r.id rs
    → update_run r.id f (r ∷ rs) ≡ f r ∷ rs
unfolding update_run
update_run-latest f r rs h =
    let same : (r.id == r.id) ≡ true = ground arith in
    rw same (ap (λ l. f r ∷ l) (update_run-older r.id r.id f rs (omega arith) h))

module _ (healthy : Statement → Bool) (run_id : ℕ) (at : Time) (finished_at : Time) (s : Snapshot)
    (db : Database) where
  -- What a commit writes besides the data.
  abbrev Writes : Counts × Database → Type 0
  Writes (counts, after) =
      (after.ingest_runs
        ≡ update_run run_id (finished finished_at at s.source_at counts) db.ingest_runs)
      × (after.next_run_id ≡ db.next_run_id)
      × (after.sync_state ≡ some (sync_success at s.source_at))

  commit_snapshot-Writes : Ensures Writes (commit_snapshot healthy run_id at finished_at s db)
  unfolding commit_snapshot
  commit_snapshot-Writes = Ensures-guard _ _ λ _. Ensures-bind λ _ _. Ensures-guard _ _ λ _.
      Ensures-bind λ _ _. Ensures-guard _ _ λ _. Ensures-bind λ _ _. Ensures-guard _ _ λ _.
        Ensures-guard _ _ λ _. Ensures-guard _ _ λ _. Ensures-guard _ _ λ _.
          Ensures-guard _ _
            λ _. Ensures-guard _ _ λ _. Ensures-guard _ _ λ _. Ensures-ok _ _ (refl, refl, refl)

module _ (env : Environment) (trigger : String) (w : World) where
  -- The row of a run that is under way.
  abbrev opened_row : RunRow
  opened_row = record {
    id = w.tables.next_run_id;
    trigger = trigger;
    started_at = env.started;
    finished_at = none;
    committed_at = none;
    source_snapshot_at = none;
    counts = no_counts;
    error = none;
  }

  -- The row of a run that completes.
  abbrev pub completed_row : Time → Counts → RunRow
  completed_row source_at counts = finished env.finished env.committed source_at counts opened_row

  -- The row of a run that raises once it is open, finished if the failure could be recorded.
  abbrev pub failed_row : Error → RunRow
  failed_row e =
      if env.healthy recording_failure
      then record opened_row { finished_at = some env.failed; error = some e }
      else opened_row

  -- What a run records: its own row, if it could be opened, and no other is touched.
  abbrev pub Records : Result Error Outcome × World → Type 0
  Records (ok (completed run_id counts), w') =
      (source_at : Time) × (w'.tables.ingest_runs
        ≡ completed_row source_at counts ∷ w.tables.ingest_runs)
      × (w'.tables.sync_state ≡ some (sync_success env.committed source_at))
      × (run_id ≡ w.tables.next_run_id)
  Records (ok skipped, w') = ⊥
  Records (err e, w') = w'.tables.ingest_runs ≡ (
      if env.healthy opening_run then failed_row e ∷ w.tables.ingest_runs else w.tables.ingest_runs)

  attempt-Records :
      IsNumbered w.tables
      → env.healthy opening_run ≡ true
      → (r : Result Error (Counts × Database))
      → attempt env (opened_id env trigger w) (opened env trigger w).tables ≡ r
      → Records (unlock (ended env trigger (opened_id env trigger w) (opened env trigger w) r))
  unfolding attempt ended post_commit open_run fail_run post_failure finish_failed_run
      record_failed_attempt
  attempt-Records numbered opens (err raised) e =
      elim (Bool-cases (env.healthy recording_failure)) [
        | inl h ↦
            rw (opens, h)
              (update_run-latest
                (λ r. record r { finished_at = some env.failed; error = some raised }) opened_row
                w.tables.ingest_runs numbered)
        | inr h ↦ rw (opens, h) refl
      ]
  attempt-Records numbered opens (ok (counts, after)) e =
      let (s, _, done) = >>=-eq-ok (acquire env) _ e in
      let (rows, next, sync) =
        (commit_snapshot-Writes env.healthy (opened_id env trigger w) env.committed env.finished s
            (opened env trigger w).tables).at
          (counts, after) done in
      (
        s.source_at,
        rows
            ∙ update_run-latest (finished env.finished env.committed s.source_at counts) opened_row
                w.tables.ingest_runs numbered,
        sync,
        refl,
      )

  unopened-Records :
      env.healthy opening_run ≡ false
      → Records (
          unlock (
            err database_error,
            fail_run env trigger none database_error (record w { locked = true }),
          ))
  unfolding fail_run post_failure record_failed_attempt
  unopened-Records down = elim (Bool-cases (env.healthy recording_failure)) [
    | inl h ↦ rw (down, h) refl
    | inr h ↦ rw (down, h) refl
  ]

  -- A run that completes adds one row, with the next id, its two times and no error, to the rows of
  -- before, and the sync marker takes the time of its commit; one that raises adds its failed row, if
  -- it could open one.
  pub run_ingest-Records :
      IsNumbered w.tables → w.locked ≡ false → Records (run_ingest env trigger w)
  run_ingest-Records numbered free =
      run_cases env trigger w Records free unopened-Records (attempt-Records numbered)

  IsNumberedAfter : Result Error Outcome × World → Type 0
  IsNumberedAfter (r, w') = IsNumbered w'.tables
