-- ===== src/Dashboard.antt =====
-- backend/api_dashboard.py: the event union over the current-state tables, the grouped query, and
-- the dense buckets made of its rows. The `ORDER BY` of the query is not modelled: its only reader
-- folds the rows by epoch and kind.
pub mod Group
pub mod Counts
pub mod Buckets
pub mod Window
pub mod Response
pub mod Tests
use ghpulse.Prelude.{
  ℕ, suc, ◌+◌, ◌*◌, String, Bool, true, false, not, ◌&&◌, Option, none, some, List, [], ◌∷◌, ◌++◌,
  str_eq, is_none, ◌==◌, if◌then◌else◌,
}
use ghpulse.Prelude.Int.{ℤ, ltb_ℤ, leb_ℤ, scale, floor_div}
use ghpulse.Prelude.Dict.{Dict, lookup}
use ghpulse.Prelude.Equality.{same, int_eq}
use ghpulse.Snapshot.{Time}
use ghpulse.Snapshot.Validate.{reason_is}
use ghpulse.Store.{RepositoryRow, IssueRow, PullRequestRow, Database}
use ghpulse.Range.{RangeWindow, Bin, microseconds, dense_bucket_bounds}

pub data Panel : Type 0 where
  issues_panel pulls_panel : Panel

pub data Kind : Type 0 where
  opened completed not_planned merged closed_unmerged : Kind

abbrev panel_code : Panel → ℕ
panel_code issues_panel = 0
panel_code pulls_panel = 1

abbrev kind_code : Kind → ℕ
kind_code opened = 0
kind_code completed = 1
kind_code not_planned = 2
kind_code merged = 3
kind_code closed_unmerged = 4

abbrev pub same_panel : Panel → Panel → Bool
same_panel p q = panel_code p == panel_code q

abbrev pub same_kind : Kind → Kind → Bool
same_kind k j = kind_code k == kind_code j

abbrev pub issue_keys : List Kind
issue_keys = opened ∷ completed ∷ not_planned ∷ []

abbrev pub pr_keys : List Kind
pr_keys = opened ∷ merged ∷ closed_unmerged ∷ []

-- `kind in keys`
abbrev pub kind_in : Kind → List Kind → Bool
kind_in k [] = false
kind_in k (j ∷ js) = if same_kind j k then true else kind_in k js

pub record EventRow : Type 0 where
  pub repository_id : String
  pub event_at : Time
  pub panel : Panel
  pub kind : Kind

-- The join with `repositories` and the three visibility tests.
unfoldable pub is_visible : Dict RepositoryRow → String → Bool → Bool
is_visible repositories repository_id is_private = elim (lookup repository_id repositories) [
  | none ↦ false
  | some r ↦ (not r.is_private && r.is_external) && not is_private
]

-- An event whose time is not NULL.
abbrev pub event_if : Bool → String → Option Time → Panel → Kind → List EventRow
event_if test repository_id none panel kind = []
event_if test repository_id (some t) panel kind =
    if test
    then record { repository_id = repository_id; event_at = t; panel = panel; kind = kind } ∷ []
    else []

-- What one row of `issues` adds to the union.
unfoldable pub issue_events : Dict RepositoryRow → IssueRow → List EventRow
issue_events repositories i =
    let visible = is_visible repositories i.repository_id i.is_private in
    let closed = visible && str_eq i.state "CLOSED" in
    event_if visible i.repository_id (some i.created_at) issues_panel opened
    ++ (event_if (closed && reason_is "COMPLETED" i.state_reason) i.repository_id i.closed_at
          issues_panel completed
        ++ event_if (closed && reason_is "NOT_PLANNED" i.state_reason) i.repository_id i.closed_at
            issues_panel not_planned)

-- What one row of `pull_requests` adds to the union.
unfoldable pub pull_request_events : Dict RepositoryRow → PullRequestRow → List EventRow
pull_request_events repositories p =
    let visible = is_visible repositories p.repository_id p.is_private in
    event_if visible p.repository_id (some p.created_at) pulls_panel opened
    ++ (event_if (visible && (str_eq p.state "MERGED" && p.merged)) p.repository_id p.merged_at
          pulls_panel merged
        ++ event_if (visible && (str_eq p.state "CLOSED" && not p.merged)) p.repository_id
            p.closed_at pulls_panel closed_unmerged)

unfoldable pub union_of {ℓ} : {R : Type ℓ} → (R → List EventRow) → Dict R → List EventRow
union_of events [] = []
union_of events ((k, r) ∷ t) = events r ++ union_of events t

-- `_event_union`: UNION ALL keeps every event, and no reader depends on their order.
unfoldable pub event_union : Database → List EventRow
event_union db =
    union_of (issue_events db.repositories) db.issues
    ++ union_of (pull_request_events db.repositories) db.pull_requests

-- `_repository_predicate`
abbrev pub repository_predicate : Option String → EventRow → Bool
repository_predicate none e = true
repository_predicate (some repository) e = str_eq e.repository_id repository

-- `event_at >= start AND event_at < end`
abbrev pub within : Time → Time → EventRow → Bool
within start stop e = leb_ℤ start e.event_at && ltb_ℤ e.event_at stop

unfoldable pub select : (EventRow → Bool) → List EventRow → List EventRow
select test [] = []
select test (e ∷ es) = let rest = select test es in if test e then e ∷ rest else rest

-- A row of the grouped query.
pub record GroupRow : Type 0 where
  pub epoch : ℤ
  pub panel : Panel
  pub kind : Kind
  pub n : ℕ

-- `FLOOR(EXTRACT(EPOCH FROM event_at) / bucket_s) * bucket_s`
unfoldable pub sql_epoch : ℕ → Time → ℤ
sql_epoch bucket_s t = scale (floor_div t (microseconds * bucket_s)) bucket_s

unfoldable pub count_in : ℤ → Panel → Kind → List GroupRow → List GroupRow
count_in epoch panel kind [] = record { epoch = epoch; panel = panel; kind = kind; n = 1 } ∷ []
count_in epoch panel kind (g ∷ gs) =
    if same g.epoch epoch && (same_panel g.panel panel && same_kind g.kind kind)
    then record g { n = g.n + 1 } ∷ gs
    else g ∷ count_in epoch panel kind gs

-- `GROUP BY 1, 2, 3` with `COUNT(*)`
unfoldable pub group_by : ℕ → List EventRow → List GroupRow
group_by bucket_s [] = []
group_by bucket_s (e ∷ es) =
    count_in (sql_epoch bucket_s e.event_at) e.panel e.kind (group_by bucket_s es)

unfoldable pub event_rows : Database → RangeWindow → Option String → List GroupRow
event_rows db w repository =
    group_by w.bucket_s
      (select (λ e. within w.start w.stop e && repository_predicate repository e) (event_union db))

-- `[row for row in rows if row[1] == panel]`
unfoldable pub rows_of : Panel → List GroupRow → List GroupRow
rows_of panel [] = []
rows_of panel (g ∷ gs) =
    let rest = rows_of panel gs in if same_panel g.panel panel then g ∷ rest else rest

-- `by_epoch`, whose missing entries read as zeros, and `totals`.
pub record Folded : Type 0 where
  pub by_epoch : ℤ → Kind → ℕ
  pub totals : Kind → ℕ

abbrev pub no_rows : Folded
no_rows = record { by_epoch = λ epoch kind. 0; totals = λ kind. 0 }

unfoldable pub fold_row : List Kind → Folded → GroupRow → Folded
fold_row keys f g =
    if kind_in g.kind keys
    then record {
      by_epoch = λ epoch kind.
          if same epoch g.epoch && same_kind kind g.kind
          then f.by_epoch epoch kind + g.n
          else f.by_epoch epoch kind;
      totals = λ kind. if same_kind kind g.kind then f.totals kind + g.n else f.totals kind;
    }
    else f

unfoldable pub fold_rows : List Kind → Folded → List GroupRow → Folded
fold_rows keys f [] = f
fold_rows keys f (g ∷ gs) = fold_rows keys (fold_row keys f g) gs

-- `response_bucket`
pub record Bucket : Type 0 where
  pub start : Time
  pub stop : Time
  pub counts : Kind → ℕ

unfoldable pub buckets_of : Folded → List Bin → List Bucket
buckets_of f [] = []
buckets_of f (bin ∷ bins) =
    record { start = bin.left; stop = bin.right; counts = f.by_epoch bin.epoch } ∷ buckets_of f bins

-- `_fold_buckets`: the dense buckets and the totals.
unfoldable pub fold_buckets : List GroupRow → RangeWindow → List Kind → List Bucket × (Kind → ℕ)
unfolding fold_rows buckets_of
fold_buckets rows w keys =
    let folded = fold_rows keys no_rows rows in
    (buckets_of folded (dense_bucket_bounds w.start w.stop w.bucket_s), folded.totals)

-- The panels of `_dashboard_build`.
unfoldable pub dashboard_panel :
    Database → RangeWindow → Option String → Panel → List Kind → List Bucket × (Kind → ℕ)
dashboard_panel db w repository panel keys =
    fold_buckets (rows_of panel (event_rows db w repository)) w keys
