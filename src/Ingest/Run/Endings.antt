-- ===== src/Ingest/Run/Endings.antt =====
-- backend/ingest.py, `run_ingest`: how each way out of a run leaves the process and the tables.
use mathlib.Core.Path.{subst}
use ghpulse.Prelude.{
  ℕ, String, ◌≡◌, refl, sym, ap, true, false, Option, none, some, ◌∷◌, Result, ok, err,
  if◌then◌else◌, Bool-cases, inl, inr, Ensures, Ensures-bind, Ensures-guard, Ensures-ok, ◌>>=◌,
  >>=-eq-ok,
}
use ghpulse.Cache.{invalidate}
use ghpulse.Snapshot.{Snapshot, Error, database_error}
use ghpulse.Snapshot.Sound.{StripsSpaces, IsSound}
use ghpulse.Snapshot.Sound.Whole.{validate_snapshot-IsSound}
use ghpulse.Store.{Database, Counts}
use ghpulse.Ingest.Commit.{opening_run, recording_failure, commit_snapshot}
use ghpulse.Ingest.Replace.{IsReplaced}
use ghpulse.Ingest.Replace.Whole.{commit_snapshot-IsReplaced}
use ghpulse.Ingest.Run.{
  World, Environment, Outcome, Progress, validated, committing_phase, enter_phase, is_idle, skipped,
  completed, reset_progress, acquiring_progress, settle_progress, ingest_done, ingest_failed,
  sync_failure, run_ingest, run_locked, run_guarded, run_opened, run_acquired, run_committed,
  fail_run, acquire, open_run, post_failure, post_commit, finish_failed_run, record_failed_attempt,
}

abbrev pub error_of : Result Error Outcome → Option Error
error_of (ok o) = none
error_of (err e) = some e

-- The data tables are those of before.
abbrev pub SameData : Database → Database → Type 0
SameData a b =
    (b.repositories ≡ a.repositories) × (b.issues ≡ a.issues) × (b.pull_requests ≡ a.pull_requests)

-- The commit of what was acquired.
abbrev pub commit_acquired :
    Environment → ℕ → Database → Snapshot → Result Error (Counts × Database)
commit_acquired env run_id db s = commit_snapshot env.healthy run_id env.committed env.finished s db

abbrev pub unlock : Result Error Outcome × World → Result Error Outcome × World
unlock (r, w) = (r, record w { locked = false })

-- `finally`, over a result and the world it leaves.
abbrev settle : Result Error Outcome × World → Result Error Outcome × World
settle (r, w) = (r, record w { progress = settle_progress w.progress })

-- Acquisition, validation and commit in one.
unfoldable pub attempt : Environment → ℕ → Database → Result Error (Counts × Database)
attempt env run_id db = acquire env >>= commit_acquired env run_id db

module _ (env : Environment) (trigger : String) where
  -- How a run whose row is open ends, told by what its attempt returns: the steps of its progress
  -- leave no trace.
  unfoldable pub ended : ℕ → World → Result Error (Counts × Database) → Result Error Outcome × World
  ended run_id w (ok r) = (
    ok (completed run_id r.0),
    record (post_commit env run_id r.0 trigger (record w { tables = r.1 })) {
      progress = reset_progress none;
    },
  )
  ended run_id w (err e) = (err e, fail_run env trigger (some run_id) e w)

  module _ (run_id : ℕ) (w : World) where
    settle-committed :
        (s : Snapshot) (p : Progress) (c : Result Error (Counts × Database))
        → is_idle p.phase ≡ false
        → settle (run_committed env trigger run_id s (record w { progress = p }) c)
          ≡ ended run_id w c
    unfolding run_committed ended settle_progress fail_run post_commit post_failure
    settle-committed s p (ok r) busy = rw busy refl
    settle-committed s p (err e) busy = refl

    settle-acquired :
        (p : Progress) (a : Result Error Snapshot)
        → settle (run_acquired env trigger run_id (record w { progress = p }) a)
          ≡ ended run_id w (a >>= commit_acquired env run_id w.tables)
    unfolding run_acquired ended settle_progress fail_run post_failure ◌>>=◌
    settle-acquired p (err e) = refl
    settle-acquired p (ok s) =
        settle-committed s (enter_phase committing_phase s (enter_phase validated s p))
          (commit_acquired env run_id w.tables s) refl

module _ (env : Environment) (trigger : String) (w : World) where
  -- The world in which the run's row is open.
  abbrev pub opened : World
  opened = record w { tables = (open_run env.started trigger w.tables).1; locked = true }

  abbrev pub opened_id : ℕ
  opened_id = (open_run env.started trigger w.tables).0

  opened_ends :
      settle (
        run_opened env trigger opened_id
          (record opened { progress = acquiring_progress env.started }))
      ≡ ended env trigger opened_id opened (attempt env opened_id opened.tables)
  unfolding run_opened attempt
  opened_ends = settle-acquired env trigger opened_id opened _ (acquire env)

  -- A run that is not skipped either could not open its row or tried the snapshot.
  pub run_cases :
      (P : Result Error Outcome × World → Type 0)
      → w.locked ≡ false
      → (env.healthy opening_run ≡ false
          → P (
              unlock (
                err database_error,
                fail_run env trigger none database_error (record w { locked = true }),
              )))
      → (env.healthy opening_run ≡ true
          → (r : Result Error (Counts × Database)) → attempt env opened_id opened.tables ≡ r
          → P (unlock (ended env trigger opened_id opened r)))
      → P (run_ingest env trigger w)
  unfolding run_ingest run_locked run_guarded
  run_cases P free down up = elim (Bool-cases (env.healthy opening_run)) [
    | inl h ↦
        rw (free, h)
          (subst P (ap unlock (sym opened_ends)) (up h (attempt env opened_id opened.tables) refl))
    | inr h ↦ rw (free, h) (unfold fail_run post_failure settle_progress in down h)
  ]

  abbrev IsIdle : Result Error Outcome × World → Type 0
  IsIdle (r, w') = (w'.locked ≡ false) × (w'.progress ≡ reset_progress (error_of r))

  opened-IsIdle :
      (run_id : ℕ) (v : World) (r : Result Error (Counts × Database))
      → IsIdle (unlock (ended env trigger run_id v r))
  unfolding ended fail_run
  opened-IsIdle run_id v (ok r) = (refl, refl)
  opened-IsIdle run_id v (err e) = (refl, refl)

  pub run_ingest-idle :
      w.locked ≡ false
      → ((run_ingest env trigger w).1.locked ≡ false)
        × ((run_ingest env trigger w).1.progress
            ≡ reset_progress (error_of (run_ingest env trigger w).0))
  run_ingest-idle free =
      run_cases IsIdle free (λ _. unfold fail_run in (refl, refl))
        λ _ r _. opened-IsIdle opened_id opened r

  -- What a failed run leaves: the data and the cached responses of before, the failure in the sync
  -- marker, and one event without the error's text.
  abbrev pub LeavesFailure : Result Error Outcome × World → Type 0
  LeavesFailure (ok o, w') = Unit
  LeavesFailure (err e, w') =
      SameData w.tables w'.tables
      × (w'.responses ≡ w.responses)
      × (w'.tables.sync_state ≡ (
          if env.healthy recording_failure
          then some (sync_failure env.failed e w.tables.sync_state)
          else w.tables.sync_state))
      × (w'.events ≡ (if env.broadcasts then ingest_failed trigger ∷ w.events else w.events))

  opened-LeavesFailure :
      (r : Result Error (Counts × Database))
      → LeavesFailure (unlock (ended env trigger opened_id opened r))
  unfolding ended fail_run open_run post_failure finish_failed_run record_failed_attempt
  opened-LeavesFailure (ok r) = tt
  opened-LeavesFailure (err e) = elim (Bool-cases (env.healthy recording_failure)) [
    | inl h ↦ rw h ((refl, refl, refl), refl, refl, refl)
    | inr h ↦ rw h ((refl, refl, refl), refl, refl, refl)
  ]

  unopened-LeavesFailure : LeavesFailure (
      unlock
        (err database_error, fail_run env trigger none database_error (record w { locked = true })))
  unfolding fail_run post_failure record_failed_attempt
  unopened-LeavesFailure = elim (Bool-cases (env.healthy recording_failure)) [
    | inl h ↦ rw h ((refl, refl, refl), refl, refl, refl)
    | inr h ↦ rw h ((refl, refl, refl), refl, refl, refl)
  ]

  pub run_ingest-LeavesFailure : w.locked ≡ false → LeavesFailure (run_ingest env trigger w)
  run_ingest-LeavesFailure free =
      run_cases LeavesFailure free (λ _. unopened-LeavesFailure) λ _ r _. opened-LeavesFailure r

  -- What a completed run leaves.
  abbrev pub Completes : Result Error Outcome × World → Type 0
  Completes (ok (completed run_id counts), w') =
      (s : Snapshot) × (acquire env ≡ ok s)
      × IsSound env.rules s
      × IsReplaced env.committed s w.tables w'.tables
      × (w'.responses ≡ invalidate w.responses)
      × (w'.events
          ≡ (if env.broadcasts then ingest_done run_id counts trigger ∷ w.events else w.events))
  Completes (ok skipped, w') = ⊥
  Completes (err e, w') = Unit

  acquire-IsSound : StripsSpaces env.rules → Ensures (IsSound env.rules) (acquire env)
  unfolding acquire
  acquire-IsSound strips = Ensures-bind λ _ _. Ensures-bind λ raw _. Ensures-bind λ s accepted.
      Ensures-guard _ _
        λ _. Ensures-ok _ _ (validate_snapshot-IsSound env.rules strips raw s accepted)

  attempt-replaces :
      StripsSpaces env.rules
      → (r : Counts × Database) → attempt env opened_id opened.tables ≡ ok r
      → (s : Snapshot) × (acquire env ≡ ok s)
        × IsSound env.rules s
        × IsReplaced env.committed s w.tables r.1
  unfolding attempt open_run
  attempt-replaces strips r e =
      let (s, acquired, done) = >>=-eq-ok (acquire env) _ e in
      let sound = (acquire-IsSound strips).at s acquired in
      let replaced =
        commit_snapshot-IsReplaced env.healthy opened_id env.committed env.finished env.rules s
          sound opened.tables r.0 r.1 done in
      (
        s,
        acquired,
        sound,
        record {
          repositories = replaced.repositories;
          issues = replaced.issues;
          pull_requests = replaced.pull_requests;
          sync = replaced.sync;
        },
      )

  opened-Completes :
      StripsSpaces env.rules
      → (r : Result Error (Counts × Database)) → attempt env opened_id opened.tables ≡ r
      → Completes (unlock (ended env trigger opened_id opened r))
  unfolding ended post_commit
  opened-Completes strips (err e) h = tt
  opened-Completes strips (ok r) h =
      let (s, acquired, sound, replaced) = attempt-replaces strips r h in
      (
        s,
        acquired,
        sound,
        record {
          repositories = replaced.repositories;
          issues = replaced.issues;
          pull_requests = replaced.pull_requests;
          sync = replaced.sync;
        },
        refl,
        refl,
      )

  -- A run that completes has acquired a sound snapshot and left exactly its rows in the tables; it
  -- has made every cached response stale, and has broadcast `ingest_done` with its counts once, if
  -- the broadcaster works. A run that finds the lock free is not skipped.
  pub run_ingest-Completes :
      StripsSpaces env.rules → w.locked ≡ false → Completes (run_ingest env trigger w)
  run_ingest-Completes strips free = run_cases Completes free (λ _. tt) λ _. opened-Completes strips
