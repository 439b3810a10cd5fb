-- ===== src/Health/AfterRun.antt =====
-- backend/app.py and backend/ingest.py: what `/health` shows after a run of `run_ingest`.
use ghpulse.Prelude.{
  String, Bool, true, false, ◌≡◌, refl, ap, Option, none, some, List, [], ◌∷◌, ltb, ◌∙◌,
  if◌then◌else◌, Result, ok, err, ◌>>=◌, arith,
}
use mathlib.Core.Option
use ghpulse.Prelude.Int.{ℤ, ◌-ℤ◌, ltb_ℤ}
use ghpulse.Snapshot.{Time, Error}
use ghpulse.Store.{Status, RunRow, success, failure, SyncRow}
use ghpulse.Ingest.Commit.{recording_failure, sync_success}
use ghpulse.Ingest.Run.{
  World, Environment, Outcome, skipped, completed, reset_progress, sync_failure, run_ingest,
  Progress,
}
use ghpulse.Ingest.Run.Endings.{error_of, LeavesFailure, run_ingest-idle, run_ingest-LeavesFailure}
use ghpulse.Ingest.Run.Recorded.{
  IsNumbered, IsDescending, completed_row, Records, run_ingest-Records,
}
use ghpulse.Health.{
  Settings, Clock, Payload, later_run, latest_run, last_success_of, has_sync_error, ingest_progress,
  staleness, timedelta, stale_after_seconds, payload_of, payload_with, health_payload, LastIngest,
  is_idle, sync_failure_message, sync_committed, status_of, or_else, run_committed,
}

latest_run-first :
    (r : RunRow) (rs : List RunRow) → IsDescending r.id rs → latest_run (r ∷ rs) ≡ some r
unfolding latest_run
latest_run-first r [] h = refl
latest_run-first r (q ∷ rs) (below, rest) =
    let later : ltb r.id q.id ≡ false = ground arith in
    ap (λ (o : Option RunRow). some (later_run r o)) (latest_run-first q rs rest) ∙ rw later refl

sync_failure-committed :
    (at : Time) (e : Error) (sync : Option SyncRow)
    → sync_committed (some (sync_failure at e sync)) ≡ sync_committed sync
sync_failure-committed at e none = refl
sync_failure-committed at e (some r) = refl

sync_failure-status :
    (at : Time) (e : Error) (sync : Option SyncRow) (up : Bool)
    → status_of (if up then some (sync_failure at e sync) else sync)
      ≡ (if up then some failure else status_of sync)
sync_failure-status at e none true = refl
sync_failure-status at e (some r) true = refl
sync_failure-status at e sync false = refl

sync_failure-kept :
    (at : Time) (e : Error) (sync : Option SyncRow) (up : Bool)
    → sync_committed (if up then some (sync_failure at e sync) else sync) ≡ sync_committed sync
sync_failure-kept at e sync true = sync_failure-committed at e sync
sync_failure-kept at e sync false = refl

-- A time that was shown, if there was one, is shown still.
abbrev pub Keeps : Option Time → Option Time → Type 0
Keeps none shown = Unit
Keeps (some t) shown = shown ≡ some t

last_success_of-Keeps :
    (sync : Option SyncRow) (latest : Option RunRow)
    → Keeps (sync_committed sync) (last_success_of sync latest)
unfolding last_success_of
last_success_of-Keeps none latest = tt
last_success_of-Keeps (some r) latest = first r.last_committed_at (run_committed latest)
  where
    first : (t u : Option Time) → Keeps t (or_else t u)
    first none u = tt
    first (some t) u = refl

module _ (s : Settings) (c : Clock) (limit : ℤ)
    (limited : timedelta (stale_after_seconds s) ≡ ok limit) where
  staleness-limit : (t : Time) → staleness s c (some t) ≡ ok (ltb_ℤ limit (c.compared_at -ℤ t))
  unfolding staleness ◌>>=◌
  staleness-limit t = rw limited refl

  staleness-total : (last : Option Time) → (stale : Bool) × (staleness s c last ≡ ok stale)
  unfolding staleness ◌>>=◌
  staleness-total none = (true, refl)
  staleness-total (some t) = (ltb_ℤ limit (c.compared_at -ℤ t), staleness-limit t)

  module _ (env : Environment) (trigger : String) (w : World) where
    -- What the payload shows of a run that completed, and of one that failed.
    abbrev pub ShowsRun : Result Error Outcome → Payload → Type 0
    ShowsRun (ok skipped) p = Unit
    ShowsRun (ok (completed run_id counts)) p =
        (p.last_success ≡ some env.committed)
        × (p.last_error ≡ none)
        × (p.stale ≡ ltb_ℤ limit (c.compared_at -ℤ env.committed))
        × (p.sync_status ≡ some success)
        × (Option.map (λ (l : LastIngest). l.id) p.last_ingest ≡ some w.tables.next_run_id)
    ShowsRun (err e) p =
        (p.last_error ≡ some sync_failure_message)
        × (p.sync_status ≡ (
            if env.healthy recording_failure then some failure else status_of w.tables.sync_state))
        × Keeps (sync_committed w.tables.sync_state) p.last_success

    abbrev pub Shows : Result Error Outcome × World → Type 0
    Shows (r, w') =
        (p : Payload) × (health_payload s c true w'.tables w'.progress ≡ ok p)
        × (p.ingest_running ≡ false)
        × (p.progress ≡ none)
        × ShowsRun r p

    payload_of-total :
        (p : Progress) (sync : Option SyncRow) (latest : Option RunRow)
        → (stale : Bool) × (staleness s c (last_success_of sync latest) ≡ ok stale)
          × (payload_of s c p sync latest ≡ ok (payload_with s c p sync latest stale))
    unfolding payload_of ◌>>=◌
    payload_of-total p sync latest =
        let (stale, e) = staleness-total (last_success_of sync latest) in (stale, e, rw e refl)

    done :
        (source_at : Time) (row : RunRow)
        → payload_of s c
            (reset_progress none)
            (some (sync_success env.committed source_at))
            (some row)
          ≡ ok (
              payload_with s c
                (reset_progress none)
                (some (sync_success env.committed source_at))
                (some row)
                (ltb_ℤ limit (c.compared_at -ℤ env.committed)))
    unfolding payload_of last_success_of ◌>>=◌
    done source_at row = rw (staleness-limit env.committed) refl

    failed :
        (e : Error) (sync : Option SyncRow) (latest : Option RunRow)
        → (status : Option Status) → status_of sync ≡ status
        → (before : Option Time) → sync_committed sync ≡ before
        → (p : Payload) × (payload_of s c (reset_progress (some e)) sync latest ≡ ok p)
          × (p.ingest_running ≡ false)
          × (p.progress ≡ none)
          × (p.last_error ≡ some sync_failure_message)
          × (p.sync_status ≡ status)
          × Keeps before p.last_success
    unfolding payload_with ingest_progress is_idle has_sync_error last_success_of
    failed e sync latest status status_is before before_is =
        let (stale, _, shown) = payload_of-total (reset_progress (some e)) sync latest in
        (
          payload_with s c (reset_progress (some e)) sync latest stale,
          shown,
          refl,
          refl,
          refl,
          status_is,
          rw (← before_is) (last_success_of-Keeps sync latest),
        )

    shows :
        (r : Result Error Outcome) (w' : World)
        → IsNumbered w.tables
        → w'.progress ≡ reset_progress (error_of r)
        → LeavesFailure env trigger w (r, w')
        → Records env trigger w (r, w')
        → Shows (r, w')
    unfolding health_payload payload_with ingest_progress is_idle has_sync_error last_success_of
    shows (ok skipped) w' numbered p q h = absurd h
    shows (ok (completed run_id counts)) w' numbered p q (source_at, rows, sync, _) =
        let row = completed_row env trigger w source_at counts in
        let latest : latest_run w'.tables.ingest_runs ≡ some row =
          rw rows (latest_run-first row w.tables.ingest_runs numbered) in
        rw (p, sync, latest)
          (
            payload_with s c (reset_progress none) (some (sync_success env.committed source_at))
                (some row) (ltb_ℤ limit (c.compared_at -ℤ env.committed)),
            done source_at row,
            refl,
            refl,
            (refl, refl, refl, refl, refl),
          )
    shows (err e) w' numbered p (_, _, sync, _) h =
        let (shown, answered, running, progress, error, status, kept) =
          failed e w'.tables.sync_state (latest_run w'.tables.ingest_runs) _
            (rw sync (
              sync_failure-status env.failed e w.tables.sync_state (env.healthy recording_failure)))
            _
            (rw sync (
              sync_failure-kept env.failed e w.tables.sync_state
                (env.healthy recording_failure))) in
        rw p (shown, answered, running, progress, (error, status, kept))

    -- For a limit of staleness that is a time span, and numbered rows of runs: after any run that
    -- finds the lock free, the database answers the health check with a payload that shows no run
    -- under way. After a completed run it shows the time of its commit as the last success and no
    -- error, counts its age from there, and names the run as the latest. After a failed run it
    -- shows the public failure text, the failure as the status if it could be recorded and the
    -- status of before otherwise, and still the time of the last commit that the sync marker
    -- held.
    pub run_ingest-Shows : IsNumbered w.tables → w.locked ≡ false → Shows (run_ingest env trigger w)
    run_ingest-Shows numbered free =
        shows (run_ingest env trigger w).0 (run_ingest env trigger w).1 numbered
          (run_ingest-idle env trigger w free).1 (run_ingest-LeavesFailure env trigger w free)
          (run_ingest-Records env trigger w numbered free)
