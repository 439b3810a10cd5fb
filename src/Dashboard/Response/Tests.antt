-- ===== src/Dashboard/Response/Tests.antt =====
-- backend/api_dashboard.py: ranges, windows and responses over one visible issue that is open.
use ghpulse.Prelude.{
  String, Bool, true, ◌&&◌, ◌≡◌, ◌↔◌, ◌≤◌, refl, none, ok, ◌>>=◌, raise_if, contains,
}
use ghpulse.Prelude.Int.{ℤ, pos, ◌-ℤ◌}
use ghpulse.Range.{RangeWindow, bucket_seconds}
use ghpulse.Range.Parse.{is_digit, scan, match_range, span_of, parse_range}
use ghpulse.Range.Parse.Accepted.{IsRange, parse_range_iff}
use ghpulse.Ingest.Run.{run_ingest}
use ghpulse.Ingest.Run.Tests.{world, offline}
use ghpulse.Dashboard.{opened, event_union, within, repository_predicate, select}
use ghpulse.Dashboard.Window.{subtract, build_window}
use ghpulse.Dashboard.Window.Resolved.{IsResolved, build_window-IsResolved}
use ghpulse.Dashboard.Response.{dashboard_build}
use ghpulse.Dashboard.Response.Listed.{ids_of, occurs, dashboard_build-lists}
use ghpulse.Dashboard.Response.Open.{dashboard_build-open}
use ghpulse.Dashboard.Response.AfterFailure.{Sees, run_ingest-Sees}
use ghpulse.Dashboard.Tests.{one_issue}

parse_range_iff_example :
    (parse_range (pos 9) "30d" ≡ ok (pos 2592000000000)) ↔ IsRange "30d" (pos 2592000000000)
parse_range_iff_example = parse_range_iff (pos 9) "30d" (pos 2592000000000) refl

abbrev now : ℤ
now = pos 86400000000

abbrev day : RangeWindow
day = record { name = "1d"; start = pos 0; stop = now; bucket_s = bucket_seconds now }

day_resolves : build_window now now one_issue "1d" none ≡ ok day
unfolding build_window parse_range match_range scan is_digit span_of subtract raise_if ◌>>=◌ ◌-ℤ◌
day_resolves = refl

build_window-IsResolved_example : IsResolved now one_issue "1d" none day
build_window-IsResolved_example =
    build_window-IsResolved now now one_issue "1d" none day day_resolves

abbrev precedes : String → String → Bool
precedes a b = true

dashboard_build-lists_example :
    contains "R1" (ids_of (dashboard_build precedes now one_issue day none).repositories)
    ≡ occurs "R1" (
        select
          (λ e. within day.start day.stop e && repository_predicate none e)
          (event_union one_issue))
dashboard_build-lists_example = dashboard_build-lists precedes now one_issue day none "R1"

dashboard_build-open_example :
    let body = dashboard_build precedes now one_issue day none in
    (body.issue_summary.currently_open ≤ body.issue_summary.totals opened)
    × (body.pull_request_summary.currently_open ≤ body.pull_request_summary.totals opened)
dashboard_build-open_example = dashboard_build-open one_issue day none precedes now

run_ingest-Sees_example :
    Sees precedes
      (record { parsed_at = now; now = now; started = now })
      "1d"
      none
      offline
      "manual"
      world
      (run_ingest offline "manual" world)
run_ingest-Sees_example =
    run_ingest-Sees precedes (record { parsed_at = now; now = now; started = now }) "1d" none
      offline "manual" world tt refl
