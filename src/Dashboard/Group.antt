-- ===== src/Dashboard/Group.antt =====
-- backend/api_dashboard.py: the grouped rows against the events that they count.
use ghpulse.Prelude.{
  ℕ, suc, ◌+◌, ◌≡◌, refl, Bool, true, false, ◌&&◌, List, [], ◌∷◌, arith, if◌then◌else◌, Bool-cases,
  inl, inr,
}
use ghpulse.Prelude.Int.{ℤ}
use ghpulse.Prelude.Equality.{same, int_eq}
use ghpulse.Dashboard.{
  Panel, Kind, same_panel, same_kind, kind_in, EventRow, select, GroupRow, sql_epoch, count_in,
  group_by, rows_of, Folded, fold_row, fold_rows,
}

pub same_panel_eq : (p q : Panel) → same_panel p q ≡ true → p ≡ q
same_panel_eq p q h = ground arith

pub same_kind_eq : (p q : Kind) → same_kind p q ≡ true → p ≡ q
same_kind_eq p q h = ground arith

-- How many events pass a test.
abbrev pub number : (EventRow → Bool) → List EventRow → ℕ
number test [] = 0
number test (e ∷ es) = if test e then suc (number test es) else number test es

pub number-congr :
    (p q : EventRow → Bool) (es : List EventRow)
    → ((e : EventRow) → p e ≡ q e)
    → number p es ≡ number q es
number-congr p q [] same_tests = refl
number-congr p q (e ∷ es) same_tests = rw (same_tests e, number-congr p q es same_tests) refl

pub number-select :
    (p q : EventRow → Bool) (es : List EventRow)
    → number p (select q es) ≡ number (λ e. q e && p e) es
unfolding select
number-select p q [] = refl
number-select p q (e ∷ es) = ground (arith, number-select p q es)

-- The sum of the counts of the rows that pass a test on their key.
abbrev pub weight : (ℤ → Panel → Kind → Bool) → List GroupRow → ℕ
weight test [] = 0
weight test (g ∷ gs) = if test g.epoch g.panel g.kind then g.n + weight test gs else weight test gs

module _ (test : ℤ → Panel → Kind → Bool) where
  same_key :
      (epoch : ℤ) (panel : Panel) (kind : Kind) (g : GroupRow)
      → (same g.epoch epoch && (same_panel g.panel panel && same_kind g.kind kind)) ≡ true
      → test g.epoch g.panel g.kind ≡ test epoch panel kind
  same_key epoch panel kind g h = cc (
    (int_eq.eqb_iff g.epoch epoch).0 (ground arith),
    same_panel_eq g.panel panel (ground arith),
    same_kind_eq g.kind kind (ground arith),
  )

  weight-count_in :
      (epoch : ℤ) (panel : Panel) (kind : Kind) (gs : List GroupRow)
      → weight test (count_in epoch panel kind gs)
        ≡ (if test epoch panel kind then suc (weight test gs) else weight test gs)
  unfolding count_in
  weight-count_in epoch panel kind [] = ground arith
  weight-count_in epoch panel kind (g ∷ gs) =
      elim (Bool-cases
        (same g.epoch epoch && (same_panel g.panel panel && same_kind g.kind kind))) [
          | inl h ↦ rw h (let k = same_key epoch panel kind g h in rw k (ground arith))
          | inr h ↦ rw h (ground (arith, weight-count_in epoch panel kind gs))
        ]

  -- Grouping loses no event and counts none twice.
  pub weight-group_by :
      (bucket_s : ℕ) (es : List EventRow)
      → weight test (group_by bucket_s es)
        ≡ number (λ e. test (sql_epoch bucket_s e.event_at) e.panel e.kind) es
  unfolding group_by
  weight-group_by bucket_s [] = refl
  weight-group_by bucket_s (e ∷ es) = rw (weight-count_in, weight-group_by bucket_s es) refl

pub weight-rows_of :
    (test : ℤ → Panel → Kind → Bool) (panel : Panel) (gs : List GroupRow)
    → weight test (rows_of panel gs)
      ≡ weight (λ epoch p kind. same_panel p panel && test epoch p kind) gs
unfolding rows_of
weight-rows_of test panel [] = refl
weight-rows_of test panel (g ∷ gs) = ground (arith, weight-rows_of test panel gs)

module _ (keys : List Kind) where
  -- A row of a kind that is not asked for is of another kind than one that is.
  unknown_kind :
      (kind : Kind) (g : GroupRow)
      → kind_in kind keys ≡ true
      → kind_in g.kind keys ≡ false
      → same_kind kind g.kind ≡ false
  unknown_kind kind g known unknown = elim (Bool-cases (same_kind kind g.kind)) [
    | inl e ↦ cc (same_kind_eq kind g.kind e)
    | inr e ↦ e
  ]

  by_epoch-fold_row :
      (f : Folded) (epoch : ℤ) (kind : Kind) (g : GroupRow)
      → kind_in kind keys ≡ true
      → (fold_row keys f g).by_epoch epoch kind ≡ (
          if same epoch g.epoch && same_kind kind g.kind
          then f.by_epoch epoch kind + g.n
          else f.by_epoch epoch kind)
  unfolding fold_row
  by_epoch-fold_row f epoch kind g known = elim (Bool-cases (kind_in g.kind keys)) [
    | inl e ↦ rw e
    | inr e ↦ rw (e, unknown_kind kind g known e) (ground arith)
  ]

  totals-fold_row :
      (f : Folded) (kind : Kind) (g : GroupRow)
      → kind_in kind keys ≡ true
      → (fold_row keys f g).totals kind
        ≡ (if same_kind kind g.kind then f.totals kind + g.n else f.totals kind)
  unfolding fold_row
  totals-fold_row f kind g known = elim (Bool-cases (kind_in g.kind keys)) [
    | inl e ↦ rw e
    | inr e ↦ rw (e, unknown_kind kind g known e)
  ]

  pub by_epoch-fold_rows :
      (f : Folded) (epoch : ℤ) (kind : Kind) (gs : List GroupRow)
      → kind_in kind keys ≡ true
      → (fold_rows keys f gs).by_epoch epoch kind
        ≡ f.by_epoch epoch kind + weight (λ x p k. same epoch x && same_kind kind k) gs
  unfolding fold_rows
  by_epoch-fold_rows f epoch kind [] known = omega arith
  by_epoch-fold_rows f epoch kind (g ∷ gs) known =
      rw
        (
          by_epoch-fold_rows (fold_row keys f g) epoch kind gs known,
          by_epoch-fold_row f epoch kind g known,
        )
        (ground arith)

  pub totals-fold_rows :
      (f : Folded) (kind : Kind) (gs : List GroupRow)
      → kind_in kind keys ≡ true
      → (fold_rows keys f gs).totals kind ≡ f.totals kind + weight (λ x p k. same_kind kind k) gs
  unfolding fold_rows
  totals-fold_rows f kind [] known = omega arith
  totals-fold_rows f kind (g ∷ gs) known =
      rw (totals-fold_rows (fold_row keys f g) kind gs known, totals-fold_row f kind g known)
        (ground arith)
