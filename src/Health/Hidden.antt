-- ===== src/Health/Hidden.antt =====
-- backend/app.py: the health response tells that something failed, and not what.
use ghpulse.Prelude.{
  Bool, true, false, ◌≡◌, refl, ap, ◌∙◌, Option, none, some, List, [], ◌∷◌, map, ltb, is_none, inl,
  inr, Bool-cases,
}
use ghpulse.Snapshot.{Error}
use ghpulse.Store.{RunRow, SyncRow, Database}
use ghpulse.Ingest.Run.{Progress}
use ghpulse.Health.{
  Settings, Clock, later_run, latest_run, last_success_of, has_sync_error, ingest_progress,
  payload_of, payload_with, health_payload, respond, health,
}

module _ (f : Error → Error) where
  abbrev relabel : Option Error → Option Error
  relabel none = none
  relabel (some e) = some (f e)

  abbrev pub relabel_run : RunRow → RunRow
  relabel_run r = record r { error = relabel r.error }

  abbrev relabel_latest : Option RunRow → Option RunRow
  relabel_latest none = none
  relabel_latest (some r) = some (relabel_run r)

  abbrev pub relabel_sync : Option SyncRow → Option SyncRow
  relabel_sync none = none
  relabel_sync (some r) = some (record r { last_attempt_error = relabel r.last_attempt_error })

  -- The tables and the progress with every error replaced by another.
  abbrev pub relabel_database : Database → Database
  relabel_database db = record db {
    sync_state = relabel_sync db.sync_state;
    ingest_runs = map relabel_run db.ingest_runs;
  }

  abbrev pub relabel_progress : Progress → Progress
  relabel_progress p = record p { last_error = relabel p.last_error }

  is_none-relabel : (e : Option Error) → is_none (relabel e) ≡ is_none e
  is_none-relabel none = refl
  is_none-relabel (some e) = refl

  later_run-relabel :
      (r : RunRow) (latest : Option RunRow)
      → later_run (relabel_run r) (relabel_latest latest) ≡ relabel_run (later_run r latest)
  later_run-relabel r none = refl
  later_run-relabel r (some l) = elim (Bool-cases (ltb r.id l.id)) [
    | inl e ↦ rw e refl
    | inr e ↦ rw e refl
  ]

  latest_run-relabel :
      (rs : List RunRow) → latest_run (map relabel_run rs) ≡ relabel_latest (latest_run rs)
  unfolding latest_run
  latest_run-relabel [] = refl
  latest_run-relabel (r ∷ rs) =
      rw (latest_run-relabel rs) (ap (λ l. some l) (later_run-relabel r (latest_run rs)))

  has_sync_error-relabel :
      (e : Option Error) (sync : Option SyncRow) (latest : Option RunRow)
      → has_sync_error (relabel e) (relabel_sync sync) (relabel_latest latest)
        ≡ has_sync_error e sync latest
  unfolding has_sync_error
  has_sync_error-relabel e none none = rw (is_none-relabel e) refl
  has_sync_error-relabel e none (some r) = rw (is_none-relabel e, is_none-relabel r.error) refl
  has_sync_error-relabel e (some s) none =
      rw (is_none-relabel e, is_none-relabel s.last_attempt_error) refl
  has_sync_error-relabel e (some s) (some r) =
      rw (is_none-relabel e, is_none-relabel s.last_attempt_error, is_none-relabel r.error) refl

  payload_of-relabel :
      (s : Settings) (c : Clock) (p : Progress) (sync : Option SyncRow) (latest : Option RunRow)
      → payload_of s c (relabel_progress p) (relabel_sync sync) (relabel_latest latest)
        ≡ payload_of s c p sync latest
  unfolding payload_of payload_with last_success_of ingest_progress
  payload_of-relabel s c p none none = rw (has_sync_error-relabel p.last_error none none) refl
  payload_of-relabel s c p none (some r) =
      rw (has_sync_error-relabel p.last_error none (some r), is_none-relabel r.error) refl
  payload_of-relabel s c p (some t) none =
      rw (has_sync_error-relabel p.last_error (some t) none) refl
  payload_of-relabel s c p (some t) (some r) =
      rw (has_sync_error-relabel p.last_error (some t) (some r), is_none-relabel r.error) refl

  -- The response of /health does not depend on which errors the progress, the sync marker and the
  -- runs have recorded: whatever other errors stand in their places, it is the same.
  pub health-relabel :
      (s : Settings) (c : Clock) (answers : Bool) (db : Database) (p : Progress)
      → health s c answers (relabel_database db) (relabel_progress p) ≡ health s c answers db p
  unfolding health health_payload
  health-relabel s c false db p = refl
  health-relabel s c true db p = ap (respond s c) (
      ap (payload_of s c (relabel_progress p) (relabel_sync db.sync_state))
        (latest_run-relabel db.ingest_runs)
      ∙ payload_of-relabel s c p db.sync_state (latest_run db.ingest_runs))
