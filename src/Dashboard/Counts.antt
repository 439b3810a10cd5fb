-- ===== src/Dashboard/Counts.antt =====
-- backend/api_dashboard.py, `_dashboard_build`: every bucket counts the events of its own interval.
use ghpulse.Prelude.{ℕ, ◌+◌, ◌≡◌, ◌∙◌, String, Bool, true, ◌&&◌, Option, List, arith}
use ghpulse.Prelude.Int.{ℤ}
use ghpulse.Prelude.Equality.{same, int_eq}
use ghpulse.Store.{Database}
use ghpulse.Range.{RangeWindow}
use ghpulse.Dashboard.{
  Panel, Kind, same_panel, same_kind, kind_in, EventRow, event_union, repository_predicate, within,
  sql_epoch, event_rows, rows_of, no_rows, fold_rows, fold_buckets,
}
use ghpulse.Dashboard.Group.{
  number, number-congr, number-select, weight-group_by, weight-rows_of, by_epoch-fold_rows,
  totals-fold_rows,
}

-- An event that the panel shows under a kind: visible, of the repository asked for.
abbrev pub counts_as : Option String → Panel → Kind → EventRow → Bool
counts_as repository panel kind e =
    repository_predicate repository e && (same_panel e.panel panel && same_kind kind e.kind)

and_assoc : (x y z : Bool) → ((x && y) && z) ≡ (x && (y && z))
and_assoc x y z = ground arith

zero_add : (x : ℕ) → 0 + x ≡ x
zero_add x = omega arith

module _ (db : Database) (w : RangeWindow) (repository : Option String) (panel : Panel)
    (keys : List Kind) (kind : Kind) (known : kind_in kind keys ≡ true) where
  -- An entry of `by_epoch` is the number of events of its epoch in the range.
  pub entry :
      (epoch : ℤ)
      → (fold_rows keys no_rows (rows_of panel (event_rows db w repository))).by_epoch epoch kind
        ≡ number
            (λ e.
              (within w.start w.stop e && repository_predicate repository e)
              && (same_panel e.panel panel
                  && (same epoch (sql_epoch w.bucket_s e.event_at) && same_kind kind e.kind)))
            (event_union db)
  unfolding event_rows
  entry epoch =
      by_epoch-fold_rows keys no_rows epoch kind (rows_of panel (event_rows db w repository)) known
      ∙ rw (weight-rows_of, weight-group_by) (rw number-select (omega arith))

  -- The total of a kind is the number of its events in the range.
  pub total :
      (fold_buckets (rows_of panel (event_rows db w repository)) w keys).1 kind
      ≡ number (λ e. within w.start w.stop e && counts_as repository panel kind e) (event_union db)
  unfolding event_rows fold_buckets
  total =
      totals-fold_rows keys no_rows kind (rows_of panel (event_rows db w repository)) known
      ∙ rw (weight-rows_of, weight-group_by)
          (rw number-select (
            zero_add _
            ∙ number-congr _ _ (event_union db) (λ e.
              and_assoc (within w.start w.stop e) (repository_predicate repository e)
                (same_panel e.panel panel && same_kind kind e.kind))))
