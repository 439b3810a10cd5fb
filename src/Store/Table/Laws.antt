-- ===== src/Store/Table/Laws.antt =====
-- backend/ingest.py: upserts and deletions, told by what a lookup finds afterwards.
use ghpulse.Prelude.{
  ℕ, String, ◌≡◌, refl, false, Option, none, some, List, [], ◌∷◌, arith, str_eq, eq_iff, contains,
  IsDistinct, if◌then◌else◌, Option-cases, Bool-cases, inl, inr, ◌∙◌, Ensures, Ensures-bind,
  Ensures-then, Ensures-ok,
}
use ghpulse.Prelude.Dict.{Dict, lookup, lookup-insert, lookup-empty}
use ghpulse.Store.Table.{Upsert, upsert_found, upsert_row, upsert_rows, counted, delete_unseen}

-- A list of records as a table: each record's row under its identifier.
abbrev pub as_table : {A R : Type 0} → (A → String) → (A → R) → List A → Dict R
as_table node_id row [] = []
as_table node_id row (x ∷ xs) = (node_id x, row x) ∷ as_table node_id row xs

abbrev pub names : {A : Type 0} → (A → String) → List A → List String
names f [] = []
names f (x ∷ xs) = f x ∷ names f xs

module _ {R : Type 0} where
  pub lookup-delete_unseen :
      (seen : List String) (k : String) (t : Dict R)
      → lookup k (delete_unseen seen t).1 ≡ (if contains k seen then lookup k t else none)
  unfolding delete_unseen lookup
  lookup-delete_unseen seen k [] = ground arith
  lookup-delete_unseen seen k ((j, r) ∷ t) =
      ground (arith, eq_iff j k, lookup-delete_unseen seen k t)

  -- A deletion that counts nothing leaves the table as it was.
  pub delete_unseen_zero :
      (seen : List String) (t : Dict R)
      → (delete_unseen seen t).0 ≡ 0
      → (delete_unseen seen t).1 ≡ t
  unfolding delete_unseen
  delete_unseen_zero seen [] e = refl
  delete_unseen_zero seen ((j, r) ∷ t) e = ground (arith, delete_unseen_zero seen t)

pub lookup-as_table_absent :
    {A R : Type 0} (f : A → String) (row : A → R) (k : String) (xs : List A)
    → contains k (names f xs) ≡ false
    → lookup k (as_table f row xs) ≡ none
unfolding lookup
lookup-as_table_absent f row k [] e = refl
lookup-as_table_absent f row k (x ∷ xs) e = ground (arith, lookup-as_table_absent f row k xs)

module _ {A R : Type 0} (u : Upsert A R) where
  -- What a name's row is after an upsert of a new row over what was found.
  abbrev pub stored : R → Option R → R
  stored new none = new
  stored new (some old) = if u.is_distinct old new then u.merge old new else old

  abbrev pub after_upsert : Option R → Option R → Option R
  after_upsert none found = found
  after_upsert (some new) found = some (stored new found)

  lookup-upsert_old :
      (x : A) (k : String) (t : Dict R) (old : R)
      → lookup (u.node_id x) t ≡ some old
      → lookup k (upsert_found u x t (some old)).1
        ≡ (if str_eq (u.node_id x) k then some (stored (u.new_row x) (lookup k t)) else lookup k t)
  lookup-upsert_old x k t old e = elim (Bool-cases (u.is_distinct old (u.new_row x))) [
    | inl d ↦ rw d (rw lookup-insert (ground (arith, eq_iff (u.node_id x) k)))
    | inr d ↦ rw d (ground (arith, eq_iff (u.node_id x) k))
  ]

  pub lookup-upsert_row :
      (x : A) (k : String) (t : Dict R)
      → lookup k (upsert_row u x t).1
        ≡ (if str_eq (u.node_id x) k then some (stored (u.new_row x) (lookup k t)) else lookup k t)
  unfolding upsert_row
  lookup-upsert_row x k t = elim (Option-cases (lookup (u.node_id x) t)) [
    | inl e ↦ rw e (rw lookup-insert (ground (arith, eq_iff (u.node_id x) k)))
    | inr (old, e) ↦ rw e (lookup-upsert_old x k t old e)
  ]

  -- A row that is not counted was not touched.
  pub upsert_row_unchanged :
      (x : A) (t : Dict R) → (upsert_row u x t).0 ≡ false → (upsert_row u x t).1 ≡ t
  unfolding upsert_row
  upsert_row_unchanged x t e = ground arith

  unchanged_after :
      (x : A) (t : Dict R) (r : ℕ × Dict R)
      → (r.0 ≡ 0 → r.1 ≡ (upsert_row u x t).1)
      → counted u (upsert_row u x t).0 r.0 ≡ 0
      → r.1 ≡ t
  unchanged_after x t r q e = ground (arith, upsert_row_unchanged x t)

  pub upsert_rows_zero :
      (xs : List A) (t : Dict R) → Ensures (λ r. r.0 ≡ 0 → r.1 ≡ t) (upsert_rows u xs t)
  unfolding upsert_rows
  upsert_rows_zero [] t = Ensures-ok _ _ (λ _. refl)
  upsert_rows_zero (x ∷ xs) t = Ensures-bind λ _ _.
      Ensures-then (λ r. r.0 ≡ 0 → r.1 ≡ (upsert_row u x t).1)
        (upsert_rows u xs (upsert_row u x t).1) _ (upsert_rows_zero xs (upsert_row u x t).1)
        λ r q. Ensures-ok _ _ (unchanged_after x t r q)

  after_head :
      (k : String) (x : A) (xs : List A) (t : Dict R)
      → contains (u.node_id x) (names u.node_id xs) ≡ false
      → after_upsert (lookup k (as_table u.node_id u.new_row xs)) (lookup k (upsert_row u x t).1)
        ≡ after_upsert (lookup k (as_table u.node_id u.new_row (x ∷ xs))) (lookup k t)
  unfolding lookup
  after_head k x xs t d = rw lookup-upsert_row (
      ground (
        arith,
        eq_iff (u.node_id x) k,
        lookup-as_table_absent u.node_id u.new_row (u.node_id x) xs d,
      ))

  pub lookup-upsert_rows :
      (k : String) (xs : List A) (t : Dict R)
      → IsDistinct (names u.node_id xs)
      → Ensures
          (λ r.
            lookup k r.1 ≡ after_upsert (lookup k (as_table u.node_id u.new_row xs)) (lookup k t))
          (upsert_rows u xs t)
  unfolding upsert_rows
  lookup-upsert_rows k [] t d = Ensures-ok _ _ (rw lookup-empty)
  lookup-upsert_rows k (x ∷ xs) t d = Ensures-bind λ _ _.
      Ensures-then _ (upsert_rows u xs (upsert_row u x t).1) _
        (lookup-upsert_rows k xs (upsert_row u x t).1 d.1)
        λ r q. Ensures-ok _ _ (q ∙ after_head k x xs t d.0)
