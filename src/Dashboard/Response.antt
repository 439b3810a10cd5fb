-- ===== src/Dashboard/Response.antt =====
-- backend/api_dashboard.py: the rest of `_dashboard_build`, `dashboard` without its cache, and the sync
-- status that every response carries. The database's collation orders the names. `SELECT DISTINCT`
-- returns ids whose order no reader depends on. The timings are not modelled.
pub mod Listed
pub mod Open
pub mod AfterFailure
mod Tests
use ghpulse.Prelude.{
  ℕ, suc, String, Bool, true, false, not, ◌&&◌, ◌||◌, Option, none, some, List, [], ◌∷◌, contains,
  length, str_eq, is_none, Result, ok, ◌>>=◌, ◌>>◌, if◌then◌else◌,
}
use ghpulse.Prelude.Int.{ltb_ℤ, leb_ℤ}
use ghpulse.Prelude.Dict.{Dict}
use ghpulse.Snapshot.{Time}
use ghpulse.Store.{RepositoryRow, IssueRow, PullRequestRow, Status, failure, SyncRow, Database}
use ghpulse.Health.{sync_failure_message, sync_failure_code, when_set}
use ghpulse.Range.{RangeWindow}
use ghpulse.Range.Parse.{HttpError}
use ghpulse.Dashboard.{
  Kind, issues_panel, pulls_panel, issue_keys, pr_keys, EventRow, event_union, is_visible,
  repository_predicate, within, select, Bucket, dashboard_panel,
}
use ghpulse.Dashboard.Window.{build_window, validate_repository, is_public_external}

abbrev pub matches_repository : Option String → String → Bool
matches_repository none id = true
matches_repository (some repository) id = str_eq id repository

-- A time in the window.
abbrev pub created_within : RangeWindow → Time → Bool
created_within w t = leb_ℤ w.start t && ltb_ℤ t w.stop

-- Whether a row counts as open.
unfoldable pub issue_is_open : Dict RepositoryRow → RangeWindow → Option String → IssueRow → Bool
issue_is_open repositories w repository i =
    (is_visible repositories i.repository_id i.is_private && str_eq i.state "OPEN")
    && (created_within w i.created_at && matches_repository repository i.repository_id)

unfoldable pub pull_request_is_open :
    Dict RepositoryRow → RangeWindow → Option String → PullRequestRow → Bool
pull_request_is_open repositories w repository p =
    (is_visible repositories p.repository_id p.is_private && str_eq p.state "OPEN")
    && (created_within w p.created_at && matches_repository repository p.repository_id)

-- `SELECT COUNT(*)`
unfoldable pub count_rows {ℓ} : {R : Type ℓ} → (R → Bool) → Dict R → ℕ
count_rows test [] = 0
count_rows test ((k, r) ∷ t) = if test r then suc (count_rows test t) else count_rows test t

unfoldable pub summary_open_counts : Database → RangeWindow → Option String → ℕ × ℕ
summary_open_counts db w repository = (
  count_rows (issue_is_open db.repositories w repository) db.issues,
  count_rows (pull_request_is_open db.repositories w repository) db.pull_requests,
)

-- `SELECT DISTINCT repository_id`
unfoldable pub distinct_ids : List EventRow → List String
distinct_ids [] = []
distinct_ids (e ∷ es) =
    let rest = distinct_ids es in
    if contains e.repository_id rest then rest else e.repository_id ∷ rest

unfoldable pub event_repository_ids : Database → RangeWindow → Option String → List String
event_repository_ids db w repository =
    distinct_ids
      (select (λ e. within w.start w.stop e && repository_predicate repository e) (event_union db))

pub record RepositoryOption : Type 0 where
  pub node_id : String
  pub name_with_owner : String
  pub url : String

-- `WHERE node_id = ANY(ids) AND is_private IS FALSE AND is_external IS TRUE`
unfoldable pub chosen : List String → Dict RepositoryRow → List RepositoryOption
chosen ids [] = []
chosen ids ((id, r) ∷ t) =
    let rest = chosen ids t in
    if contains id ids && is_public_external (some r)
    then record { node_id = id; name_with_owner = r.name_with_owner; url = r.url } ∷ rest
    else rest

-- `{"sync_status": …}`
pub record SyncStatus : Type 0 where
  pub sync_status : Option Status
  pub sync_last_attempt_at : Option Time
  pub sync_error_code : Option String
  pub sync_error : Option String

abbrev status_is_failure : Option Status → Bool
status_is_failure (some failure) = true
status_is_failure _ = false

abbrev pub sync_status_of : Option SyncRow → SyncStatus
sync_status_of none = record {
  sync_status = none;
  sync_last_attempt_at = none;
  sync_error_code = none;
  sync_error = none;
}
sync_status_of (some r) =
    let failed = status_is_failure r.last_attempt_status || not (is_none r.last_attempt_error) in
    record {
      sync_status = r.last_attempt_status;
      sync_last_attempt_at = r.last_attempt_at;
      sync_error_code = when_set failed sync_failure_code;
      sync_error = when_set failed sync_failure_message;
    }

unfoldable pub sync_status : Database → SyncStatus
sync_status db = sync_status_of db.sync_state

abbrev pub committed_of : Option SyncRow → Option Time
committed_of none = none
committed_of (some r) = r.last_committed_at

unfoldable pub last_ingest : Database → Option Time
last_ingest db = committed_of db.sync_state

pub record PanelSummary : Type 0 where
  pub totals : Kind → ℕ
  pub currently_open : ℕ

pub record Body : Type 0 where
  pub window : RangeWindow
  pub issues : List Bucket
  pub pull_requests : List Bucket
  pub repository_count : ℕ
  pub issue_summary : PanelSummary
  pub pull_request_summary : PanelSummary
  pub last_ingest_at : Option Time
  pub repositories : List RepositoryOption
  pub generated_at : Time

-- A body with the sync status in its summary.
pub record Response : Type 0 where
  pub body : Body
  pub status : SyncStatus

unfoldable pub overlay_sync_status : Database → Body → Response
overlay_sync_status db body = record { body = body; status = sync_status db }

-- The moments of the calls of the clock.
pub record Moments : Type 0 where
  pub parsed_at : Time
  pub now : Time
  pub started : Time

module _ (precedes : String → String → Bool) where
  -- `ORDER BY name_with_owner`
  unfoldable pub place : RepositoryOption → List RepositoryOption → List RepositoryOption
  place o [] = o ∷ []
  place o (p ∷ ps) =
      let rest = place o ps in
      if precedes o.name_with_owner p.name_with_owner then o ∷ p ∷ ps else p ∷ rest

  unfoldable pub order_by_name : List RepositoryOption → List RepositoryOption
  order_by_name [] = []
  order_by_name (o ∷ os) = place o (order_by_name os)

  unfoldable pub repository_rows : Database → List String → List RepositoryOption
  repository_rows db [] = []
  repository_rows db (id ∷ ids) = order_by_name (chosen (id ∷ ids) db.repositories)

  unfoldable pub dashboard_build : (started : Time) → Database → RangeWindow → Option String → Body
  dashboard_build started db w repository =
      let (issues, issue_totals) = dashboard_panel db w repository issues_panel issue_keys in
      let (pulls, pr_totals) = dashboard_panel db w repository pulls_panel pr_keys in
      let (issue_open, pr_open) = summary_open_counts db w repository in
      let repositories = repository_rows db (event_repository_ids db w repository) in
      record {
        window = w;
        issues = issues;
        pull_requests = pulls;
        repository_count = length repositories;
        issue_summary = record { totals = issue_totals; currently_open = issue_open };
        pull_request_summary = record { totals = pr_totals; currently_open = pr_open };
        last_ingest_at = last_ingest db;
        repositories = repositories;
        generated_at = started;
      }

  unfoldable pub dashboard :
      Moments → Database → (rng : String) → (repository : Option String) → Result HttpError Body
  dashboard m db rng repository = do
    validate_repository db repository
    w ← build_window m.parsed_at m.now db rng repository
    ok (dashboard_build m.started db w repository)

-- `_repository_options` of backend/api.py, whose test of the ids and query are those of `repository_rows`.
pub record Options : Type 0 where
  pub range : String
  pub repositories : List RepositoryOption
  pub generated_at : Time

unfoldable pub repository_options :
    (String → String → Bool) → Moments → Database → (rng : String) → Result HttpError Options
repository_options precedes m db rng = do
  w ← build_window m.parsed_at m.now db rng none
  let ids = event_repository_ids db w none
  ok (record {
    range = rng;
    repositories = repository_rows precedes db ids;
    generated_at = m.started;
  })
