-- ===== src/Store/Table.antt =====
-- backend/ingest.py: what the three `_upsert_…` loops and `_delete_unseen` do to one table.
pub mod Laws
use ghpulse.Prelude.{
  ℕ, suc, ◌+◌, String, Bool, true, false, Option, none, some, List, [], ◌∷◌, contains,
  if◌then◌else◌, Result, ok, ◌>>=◌, ◌>>◌,
}
use ghpulse.Prelude.Dict.{Dict, lookup, insert}
use ghpulse.Snapshot.{Error}

-- One `INSERT … ON CONFLICT (node_id) DO UPDATE … WHERE … IS DISTINCT FROM …`.
pub record Upsert (A R : Type 0) : Type 0 where
  pub node_id : A → String
  pub new_row : A → R
  -- the `WHERE` over the stored row and the proposed one
  pub is_distinct : R → R → Bool
  -- the `SET` over the stored row and the proposed one
  pub merge : R → R → R
  -- the column checks and the foreign key, which raise
  pub admit : A → Result Error (Unit {0})

module _ {A R : Type 0} (u : Upsert A R) where
  -- Whether a row is returned, and the table after.
  abbrev pub upsert_found : A → Dict R → Option R → Bool × Dict R
  upsert_found x t none = (true, insert (u.node_id x) (u.new_row x) t)
  upsert_found x t (some old) =
      if u.is_distinct old (u.new_row x)
      then (true, insert (u.node_id x) (u.merge old (u.new_row x)) t)
      else (false, t)

  unfoldable pub upsert_row : A → Dict R → Bool × Dict R
  upsert_row x t = upsert_found x t (lookup (u.node_id x) t)

  abbrev pub counted : Bool → ℕ → ℕ
  counted changed n = if changed then suc n else n

  -- The loop: the number of rows returned, and the table after.
  unfoldable pub upsert_rows : List A → Dict R → Result Error (ℕ × Dict R)
  upsert_rows [] t = ok (0, t)
  upsert_rows (x ∷ xs) t = do
    u.admit x
    rest ← upsert_rows xs (upsert_row x t).1
    ok (counted (upsert_row x t).0 rest.0, rest.1)

module _ {R : Type 0} where
  -- `WHERE NOT (node_id = ANY(seen))`: the number of rows deleted, and the table after.
  unfoldable pub delete_unseen : List String → Dict R → ℕ × Dict R
  delete_unseen seen [] = (0, [])
  delete_unseen seen ((k, r) ∷ t) =
      let rest = delete_unseen seen t in
      if contains k seen then (rest.0, (k, r) ∷ rest.1) else (suc rest.0, rest.1)

  -- The names of the rows that `delete_unseen` deletes.
  unfoldable pub unseen : List String → Dict R → List String
  unseen seen [] = []
  unseen seen ((k, r) ∷ t) = let rest = unseen seen t in if contains k seen then rest else k ∷ rest

  -- `ON DELETE CASCADE` over a column.
  unfoldable pub cascade : (R → String) → List String → Dict R → Dict R
  cascade column gone [] = []
  cascade column gone ((k, r) ∷ t) =
      let rest = cascade column gone t in if contains (column r) gone then rest else (k, r) ∷ rest
