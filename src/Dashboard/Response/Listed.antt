-- ===== src/Dashboard/Response/Listed.antt =====
-- backend/api_dashboard.py, `_dashboard_build`: the repositories that a response lists.
use ghpulse.Prelude.{
  String, Bool, true, false, not, ◌&&◌, ◌||◌, ◌≡◌, refl, sym, ap, ◌∙◌, Option, none, some, List, [],
  ◌∷◌, ◌++◌, map, contains, str_eq, eq_iff, All, arith,
}
use ghpulse.Prelude.Dict.{Dict, lookup}
use ghpulse.Snapshot.{Time}
use ghpulse.Snapshot.Validate.{reason_is}
use ghpulse.Store.{RepositoryRow, IssueRow, PullRequestRow, Database}
use ghpulse.Range.{RangeWindow}
use ghpulse.Dashboard.{
  Panel, Kind, issues_panel, pulls_panel, opened, completed, not_planned, merged, closed_unmerged,
  EventRow, event_union, event_if, union_of, issue_events, pull_request_events, is_visible, within,
  repository_predicate, select,
}
use ghpulse.Dashboard.Window.{is_public_external}
use ghpulse.Dashboard.Response.{
  RepositoryOption, chosen, distinct_ids, event_repository_ids, place, order_by_name,
  repository_rows, dashboard_build,
}

-- Whether a repository has an event.
abbrev pub occurs : String → List EventRow → Bool
occurs id [] = false
occurs id (e ∷ es) = str_eq e.repository_id id || occurs id es

abbrev pub ids_of : List RepositoryOption → List String
ids_of os = map (λ o. o.node_id) os

contains-distinct_ids :
    (id : String) (es : List EventRow) → contains id (distinct_ids es) ≡ occurs id es
unfolding distinct_ids
contains-distinct_ids id [] = refl
contains-distinct_ids id (e ∷ es) = ground (
  arith,
  contains-distinct_ids id es,
  contains-distinct_ids e.repository_id es,
  eq_iff e.repository_id id,
)

module _ (precedes : String → String → Bool) where
  contains-place :
      (id : String) (o : RepositoryOption) (os : List RepositoryOption)
      → contains id (ids_of (place precedes o os))
        ≡ (str_eq o.node_id id || contains id (ids_of os))
  unfolding place
  contains-place id o [] = refl
  contains-place id o (p ∷ ps) = ground (arith, contains-place id o ps)

  contains-order_by_name :
      (id : String) (os : List RepositoryOption)
      → contains id (ids_of (order_by_name precedes os)) ≡ contains id (ids_of os)
  unfolding order_by_name
  contains-order_by_name id [] = refl
  contains-order_by_name id (o ∷ os) =
      rw (contains-place id o (order_by_name precedes os), contains-order_by_name id os) refl

chosen-none : (rows : Dict RepositoryRow) → chosen [] rows ≡ []
unfolding chosen
chosen-none [] = refl
chosen-none ((k, r) ∷ rows) = chosen-none rows

module _ (ids : List String) (id : String) where
  chosen-asked :
      (rows : Dict RepositoryRow)
      → contains id (ids_of (chosen ids rows)) ≡ true
      → contains id ids ≡ true
  unfolding chosen
  chosen-asked [] h = cc h
  chosen-asked ((k, r) ∷ rows) h = ground (arith, chosen-asked rows, eq_iff k id)

  asked-chosen :
      (rows : Dict RepositoryRow)
      → contains id ids ≡ true
      → is_public_external (lookup id rows) ≡ true
      → contains id (ids_of (chosen ids rows)) ≡ true
  unfolding chosen lookup
  asked-chosen [] h v = cc v
  asked-chosen ((k, r) ∷ rows) h v = ground (arith, asked-chosen rows, eq_iff k id)

-- An event of the union belongs to a repository that is public and external.
abbrev IsShown : Dict RepositoryRow → EventRow → Type 0
IsShown repositories e = is_public_external (lookup e.repository_id repositories) ≡ true

and_left : (a b : Bool) → (a && b) ≡ true → a ≡ true
and_left true b h = refl
and_left false b h = h

visible_row :
    (row : Option RepositoryRow) (private : Bool)
    → elim row as (λ x. Bool) [
      | none ↦ false
      | some r ↦ (not r.is_private && r.is_external) && not private
    ]
      ≡ true
    → is_public_external row ≡ true
visible_row none private h = cc h
visible_row (some r) private h = and_left _ (not private) h

is_visible-shown :
    (repositories : Dict RepositoryRow) (id : String) (private : Bool)
    → is_visible repositories id private ≡ true
    → is_public_external (lookup id repositories) ≡ true
unfolding is_visible
is_visible-shown repositories id private h = visible_row (lookup id repositories) private h

module _ (repositories : Dict RepositoryRow) where
  record AreShown (es : List EventRow) : Type 0 where
    pub each : All (IsShown repositories) es

  All-append :
      (xs ys : List EventRow)
      → All (IsShown repositories) xs
      → All (IsShown repositories) ys
      → All (IsShown repositories) (xs ++ ys)
  All-append [] ys hx hy = hy
  All-append (x ∷ xs) ys (h, hx) hy = (h, All-append xs ys hx hy)

  AreShown-append : {xs ys : List EventRow} → AreShown xs → AreShown ys → AreShown (xs ++ ys)
  AreShown-append {xs} {ys} hx hy = record { each = All-append xs ys hx.each hy.each }

  event_if-All :
      (test : Bool) (id : String) (t : Option Time) (panel : Panel) (kind : Kind)
      → (test ≡ true → is_public_external (lookup id repositories) ≡ true)
      → AreShown (event_if test id t panel kind)
  event_if-All test id none panel kind h = record { each = tt }
  event_if-All true id (some t) panel kind h = record { each = (h refl, tt) }
  event_if-All false id (some t) panel kind h = record { each = tt }

  issue_events-All : (i : IssueRow) → AreShown (issue_events repositories i)
  unfolding issue_events
  issue_events-All i =
      let shown = is_visible-shown repositories i.repository_id i.is_private in
      let visible = is_visible repositories i.repository_id i.is_private in
      let closed = visible && str_eq i.state "CLOSED" in
      let is_completed = reason_is "COMPLETED" i.state_reason in
      let is_not_planned = reason_is "NOT_PLANNED" i.state_reason in
      AreShown-append
        (event_if-All visible i.repository_id (some i.created_at) issues_panel opened shown)
        (AreShown-append
          (event_if-All (closed && is_completed) i.repository_id i.closed_at issues_panel completed
            λ h. shown (and_left visible _ (and_left closed is_completed h)))
          (event_if-All (closed && is_not_planned) i.repository_id i.closed_at issues_panel
            not_planned λ h. shown (and_left visible _ (and_left closed is_not_planned h))))

  pull_request_events-All : (p : PullRequestRow) → AreShown (pull_request_events repositories p)
  unfolding pull_request_events
  pull_request_events-All p =
      let shown = is_visible-shown repositories p.repository_id p.is_private in
      let visible = is_visible repositories p.repository_id p.is_private in
      let is_merged = str_eq p.state "MERGED" && p.merged in
      let closed = str_eq p.state "CLOSED" && not p.merged in
      AreShown-append
        (event_if-All visible p.repository_id (some p.created_at) pulls_panel opened shown)
        (AreShown-append
          (event_if-All (visible && is_merged) p.repository_id p.merged_at pulls_panel merged
            λ h. shown (and_left visible is_merged h))
          (event_if-All (visible && closed) p.repository_id p.closed_at pulls_panel closed_unmerged
            λ h. shown (and_left visible closed h)))

  union_of-All :
      {R : Type 0} (events : R → List EventRow) (rows : Dict R)
      → ((r : R) → AreShown (events r))
      → AreShown (union_of events rows)
  unfolding union_of
  union_of-All events [] h = record { each = tt }
  union_of-All events ((k, r) ∷ rows) h = AreShown-append (h r) (union_of-All events rows h)

  occurs-shown :
      (id : String) (test : EventRow → Bool) (es : List EventRow)
      → All (IsShown repositories) es
      → occurs id (select test es) ≡ true
      → is_public_external (lookup id repositories) ≡ true
  unfolding select
  occurs-shown id test [] shown h = cc h
  occurs-shown id test (e ∷ es) (now, later) h =
      ground (arith, occurs-shown id test es later, eq_iff e.repository_id id)

event_union-All : (db : Database) → AreShown db.repositories (event_union db)
unfolding event_union
event_union-All db =
    AreShown-append db.repositories
      (union_of-All db.repositories (issue_events db.repositories) db.issues
        (issue_events-All db.repositories))
      (union_of-All db.repositories (pull_request_events db.repositories) db.pull_requests
        (pull_request_events-All db.repositories))

equal_tests : (a b : Bool) → (a ≡ true → b ≡ true) → (b ≡ true → a ≡ true) → a ≡ b
equal_tests true b h k = sym (h refl)
equal_tests false true h k = k refl
equal_tests false false h k = refl

module _ (precedes : String → String → Bool) (started : Time) (db : Database) (w : RangeWindow)
    (repository : Option String) (id : String) where
  abbrev shown_events : List EventRow
  shown_events =
      select (λ e. within w.start w.stop e && repository_predicate repository e) (event_union db)

  repository_rows-contains :
      (ids : List String)
      → contains id (ids_of (repository_rows precedes db ids))
        ≡ contains id (ids_of (chosen ids db.repositories))
  unfolding repository_rows
  repository_rows-contains [] =
      ap (λ os. contains id (ids_of os)) (sym (chosen-none db.repositories))
  repository_rows-contains (i ∷ ids) =
      contains-order_by_name precedes id (chosen (i ∷ ids) db.repositories)

  -- A repository stands in the list of a response exactly if one of the visible events in the
  -- window, of the repository asked for, is its own.
  pub dashboard_build-lists :
      contains id (ids_of (dashboard_build precedes started db w repository).repositories)
      ≡ occurs id shown_events
  unfolding dashboard_build event_repository_ids
  dashboard_build-lists =
      let asked = contains-distinct_ids id shown_events in
      let ids = distinct_ids shown_events in
      repository_rows-contains ids
      ∙ equal_tests _ _ (λ h. rw (← asked) (chosen-asked ids id db.repositories h))
          λ h.
            asked-chosen ids id db.repositories (asked ∙ h)
              (occurs-shown db.repositories id _ (event_union db) (event_union-All db).each h)
