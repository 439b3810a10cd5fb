-- ===== src/Dashboard/Response/Open.antt =====
-- backend/api_dashboard.py, `_summary_open_counts`: the open items against the opened ones.
use ghpulse.Prelude.{
  ◌+◌, ◌≤◌, String, Bool, true, ◌&&◌, ◌≡◌, refl, Option, none, some, List, [], ◌∷◌, ◌++◌, arith,
  Bool-cases, inl, inr,
}
use ghpulse.Prelude.Dict.{Dict}
use ghpulse.Snapshot.{Time}
use ghpulse.Store.{IssueRow, PullRequestRow, Database}
use ghpulse.Range.{RangeWindow}
use ghpulse.Dashboard.{
  Panel, issues_panel, pulls_panel, opened, issue_keys, pr_keys, EventRow, event_union, union_of,
  issue_events, pull_request_events, is_visible, within, dashboard_panel,
}
use ghpulse.Dashboard.Group.{number}
use ghpulse.Dashboard.Counts.{counts_as, total}
use ghpulse.Dashboard.Response.{
  Body, matches_repository, created_within, issue_is_open, pull_request_is_open, count_rows,
  summary_open_counts, dashboard_build,
}

number-append :
    (test : EventRow → Bool) (xs ys : List EventRow)
    → number test (xs ++ ys) ≡ number test xs + number test ys
number-append test [] ys = omega arith
number-append test (x ∷ xs) ys = ground (arith, number-append test xs ys)

-- A row that counts as open has an event that passes a test.
module _ {R : Type 0} (test : EventRow → Bool) (events : R → List EventRow) (is_open : R → Bool)
    (opens : (r : R) → is_open r ≡ true → 1 ≤ number test (events r)) where
  count_rows-le : (rows : Dict R) → count_rows is_open rows ≤ number test (union_of events rows)
  unfolding count_rows union_of
  count_rows-le [] = omega arith
  count_rows-le ((k, r) ∷ rows) = elim (Bool-cases (is_open r)) [
    | inl e ↦ rw e (
        omega (
          arith,
          opens r e,
          count_rows-le rows,
          number-append test (events r) (union_of events rows),
        ))
    | inr e ↦
        rw e
          (omega (arith, count_rows-le rows, number-append test (events r) (union_of events rows)))
  ]

abbrev opened_in : RangeWindow → Option String → Panel → EventRow → Bool
opened_in w repository panel e = within w.start w.stop e && counts_as repository panel opened e

opening_passes :
    (w : RangeWindow) (repository : Option String) (panel : Panel) (id : String) (t : Time)
    → (created_within w t && matches_repository repository id) ≡ true
    → opened_in w repository panel
        (record { repository_id = id; event_at = t; panel = panel; kind = opened })
      ≡ true
opening_passes w none issues_panel id t h = ground arith
opening_passes w none pulls_panel id t h = ground arith
opening_passes w (some r) issues_panel id t h = ground arith
opening_passes w (some r) pulls_panel id t h = ground arith

module _ (db : Database) (w : RangeWindow) (repository : Option String) where
  issue_opens :
      (i : IssueRow)
      → issue_is_open db.repositories w repository i ≡ true
      → 1 ≤ number (opened_in w repository issues_panel) (issue_events db.repositories i)
  unfolding issue_is_open issue_events
  issue_opens i h =
      let visible : is_visible db.repositories i.repository_id i.is_private ≡ true = ground arith in
      let passes =
        opening_passes w repository issues_panel i.repository_id i.created_at (ground arith) in
      rw (visible, passes) (omega arith)

  pull_request_opens :
      (p : PullRequestRow)
      → pull_request_is_open db.repositories w repository p ≡ true
      → 1 ≤ number (opened_in w repository pulls_panel) (pull_request_events db.repositories p)
  unfolding pull_request_is_open pull_request_events
  pull_request_opens p h =
      let visible : is_visible db.repositories p.repository_id p.is_private ≡ true = ground arith in
      let passes =
        opening_passes w repository pulls_panel p.repository_id p.created_at (ground arith) in
      rw (visible, passes) (omega arith)

  number-union :
      (test : EventRow → Bool)
      → number test (event_union db)
        ≡ number test (union_of (issue_events db.repositories) db.issues)
          + number test (union_of (pull_request_events db.repositories) db.pull_requests)
  unfolding event_union
  number-union test = number-append test _ _

  module _ (precedes : String → String → Bool) (started : Time) where
    abbrev body : Body
    body = dashboard_build precedes started db w repository

    -- In every response the issues that are currently open are no more than the issues opened in
    -- the window, and likewise the pull requests.
    pub dashboard_build-open :
        (body.issue_summary.currently_open ≤ body.issue_summary.totals opened)
        × (body.pull_request_summary.currently_open ≤ body.pull_request_summary.totals opened)
    unfolding dashboard_build dashboard_panel summary_open_counts
    dashboard_build-open = (
      omega (
        arith,
        total db w repository issues_panel issue_keys opened refl,
        number-union (opened_in w repository issues_panel),
        count_rows-le (opened_in w repository issues_panel) (issue_events db.repositories)
            (issue_is_open db.repositories w repository) issue_opens db.issues,
      ),
      omega (
        arith,
        total db w repository pulls_panel pr_keys opened refl,
        number-union (opened_in w repository pulls_panel),
        count_rows-le (opened_in w repository pulls_panel) (pull_request_events db.repositories)
            (pull_request_is_open db.repositories w repository) pull_request_opens db.pull_requests,
      ),
    )
