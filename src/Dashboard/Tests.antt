-- ===== src/Dashboard/Tests.antt =====
-- backend/api_dashboard.py: one visible issue, in two buckets of a minute.
use ghpulse.Prelude.{arith, ◌≡◌, refl, true, false, none, [], ◌∷◌, All}
use ghpulse.Prelude.Int.{pos}
use ghpulse.Store.{Database}
use ghpulse.Range.{dense_bucket_bounds}
use ghpulse.Range.Tiling.{Tiles, dense_bucket_bounds-Tiles}
use ghpulse.Dashboard.{issues_panel, opened, issue_keys, dashboard_panel}
use ghpulse.Dashboard.Buckets.{
  IsCounted, window, sum_of, dashboard_panel-buckets, dashboard_panel-totals,
}

abbrev pub one_issue : Database
one_issue = record {
  repositories =
      (
        "R1",
        record {
          name_with_owner = "o/r";
          owner_login = "o";
          url = "u";
          is_private = false;
          is_external = true;
          first_seen_at = pos 1;
          last_seen_at = pos 1;
        },
      )
      ∷ [];
  issues =
      (
        "I1",
        record {
          repository_id = "R1";
          number = pos 7;
          url = "u7";
          is_private = false;
          created_at = pos 70000000;
          updated_at = pos 70000000;
          closed_at = none;
          state = "OPEN";
          state_reason = none;
        },
      )
      ∷ [];
  pull_requests = [];
  sync_state = none;
  ingest_runs = [];
  next_run_id = 1;
}

dense_bucket_bounds-Tiles_example :
    Tiles 60 (pos 30000000) (pos 100000000) (dense_bucket_bounds (pos 30000000) (pos 100000000) 60)
dense_bucket_bounds-Tiles_example =
    dense_bucket_bounds-Tiles 30000000 100000000 60 (omega arith) (omega arith)

dashboard_panel-buckets_example :
    All
      (IsCounted one_issue none issues_panel opened)
      (dashboard_panel one_issue
        (window "24h" 30000000 100000000 60)
        none
        issues_panel
        issue_keys).0
dashboard_panel-buckets_example =
    dashboard_panel-buckets one_issue 30000000 100000000 60 "24h" none issues_panel issue_keys
      opened refl (omega arith) (omega arith)

dashboard_panel-totals_example :
    (dashboard_panel one_issue (window "24h" 30000000 100000000 60) none issues_panel issue_keys).1
      opened
    ≡ sum_of opened
        (dashboard_panel one_issue
          (window "24h" 30000000 100000000 60)
          none
          issues_panel
          issue_keys).0
dashboard_panel-totals_example =
    dashboard_panel-totals one_issue 30000000 100000000 60 "24h" none issues_panel issue_keys opened
      refl (omega arith) (omega arith)
