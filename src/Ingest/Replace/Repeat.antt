-- ===== src/Ingest/Replace/Repeat.antt =====
-- backend/ingest.py, `_commit_snapshot`: a snapshot that is committed again.
use ghpulse.Prelude.{
  ℕ, String, ◌≡◌, refl, ◌∙◌, Bool, true, false, Option, none, some, List, [], ◌∷◌, ◌++◌, arith,
  contains, IsDistinct, All, eq_iff, Bool-cases, inl, inr, ok, Ensures, Ensures-bind, Ensures-then,
  Ensures-guard, Ensures-ok,
}
use ghpulse.Prelude.Dict.{Dict, lookup}
use ghpulse.Prelude.Equality.{Eq, same, bool_eq, int_eq, string_eq, option_eq}
use ghpulse.Snapshot.{Time, TextRules, Snapshot, Repository, Issue, PullRequest}
use ghpulse.Snapshot.Sound.{IsSound}
use ghpulse.Store.{RepositoryRow, Database, Counts}
use ghpulse.Store.Table.{Upsert, upsert_row, upsert_rows, delete_unseen}
use ghpulse.Store.Table.Laws.{names, as_table, lookup-as_table_absent}
use ghpulse.Ingest.Rows.{
  repository_upsert, issue_upsert, pull_request_upsert, issue_is_distinct, pull_request_is_distinct,
  repository_is_distinct, refresh, repository_row, issue_row, pull_request_row,
}
use ghpulse.Ingest.Rows.Laws.{kept, lookup-refresh}
use ghpulse.Ingest.Commit.{Statement, repository_ids, issue_ids, pull_request_ids, commit_snapshot}
use ghpulse.Ingest.Replace.{IsReplaced}
use ghpulse.Ingest.Replace.Whole.{IsDistinct-left, IsDistinct-right, commit_snapshot-IsReplaced}

same_refl {ℓ} : {A : Type ℓ} ⦃e : Eq A⦄ (a : A) → same a a ≡ true
same_refl ⦃e⦄ a = (e.eqb_iff a a).1 refl

repository_repeats :
    (at later : Time) (r : Repository) (found : Option RepositoryRow)
    → repository_is_distinct (kept (repository_row at r) found) (repository_row later r) ≡ false
unfolding repository_is_distinct
repository_repeats at later r none = simp same_refl
repository_repeats at later r (some old) = simp same_refl

issue_repeats : (i : Issue) → issue_is_distinct (issue_row i) (issue_row i) ≡ false
unfolding issue_is_distinct
issue_repeats i = simp same_refl

pull_request_repeats :
    (p : PullRequest) → pull_request_is_distinct (pull_request_row p) (pull_request_row p) ≡ false
unfolding pull_request_is_distinct
pull_request_repeats p = simp same_refl

-- The table has a row for the record that the upsert leaves alone.
record IsUpToDate {A R : Type 0} (u : Upsert A R) (t : Dict R) (x : A) : Type 0 where
  pub row : R
  pub found : lookup (u.node_id x) t ≡ some row
  pub unchanged : u.is_distinct row (u.new_row x) ≡ false

module _ {A R : Type 0} (u : Upsert A R) (t : Dict R) where
  upsert_row-IsUpToDate : (x : A) → IsUpToDate u t x → upsert_row u x t ≡ (false, t)
  unfolding upsert_row
  upsert_row-IsUpToDate x up = rw (up.found, up.unchanged) refl

  upsert_rows-IsUpToDate :
      (xs : List A) → All (IsUpToDate u t) xs → Ensures (λ r. r ≡ (0, t)) (upsert_rows u xs t)
  unfolding upsert_rows
  upsert_rows-IsUpToDate [] up = Ensures-ok _ _ refl
  upsert_rows-IsUpToDate (x ∷ xs) up = Ensures-bind λ _ _. rw (upsert_row-IsUpToDate x up.0) (
      Ensures-then _ (upsert_rows u xs t) _ (upsert_rows-IsUpToDate xs up.1)
        λ r q. Ensures-ok _ _ (rw q refl))

delete_unseen-none :
    {R : Type 0} (seen : List String) (t : Dict R)
    → ((k : String) → contains k seen ≡ false → lookup k t ≡ none)
    → (delete_unseen seen t).0 ≡ 0
unfolding delete_unseen lookup
delete_unseen-none seen [] h = refl
delete_unseen-none seen ((j, r) ∷ t) h = elim (Bool-cases (contains j seen)) [
  | inl e ↦ rw e (delete_unseen-none seen t λ k miss. let whole = h k miss in ground (arith, whole))
  | inr e ↦ let whole = h j e in ground (arith, whole, eq_iff j j)
]

All-map :
    {A : Type 0} (P Q : A → Type 0) (xs : List A) → ((x : A) → P x → Q x) → All P xs → All Q xs
All-map P Q [] f a = tt
All-map P Q (x ∷ xs) f a = (f x a.0, All-map P Q xs f a.1)

module _ {A R : Type 0} (f : A → String) (row : A → R) where
  -- A row of another name hides none.
  All-lookup :
      (x : A) (t : Dict R) (ys : List A)
      → contains (f x) (names f ys) ≡ false
      → All (λ y. lookup (f y) t ≡ some (row y)) ys
      → All (λ y. lookup (f y) ((f x, row x) ∷ t) ≡ some (row y)) ys
  unfolding lookup
  All-lookup x t [] miss a = tt
  All-lookup x t (y ∷ ys) miss a =
      let found = a.0 in
      (
        ground (arith, found, eq_iff (f x) (f y), eq_iff (f y) (f x)),
        All-lookup x t ys (ground arith) a.1,
      )

  lookup-as_table :
      (xs : List A)
      → IsDistinct (names f xs)
      → All (λ x. lookup (f x) (as_table f row xs) ≡ some (row x)) xs
  unfolding lookup
  lookup-as_table [] d = tt
  lookup-as_table (x ∷ xs) d = (
    rw ((eq_iff (f x) (f x)).1 refl) refl,
    All-lookup x (as_table f row xs) xs d.0 (lookup-as_table xs d.1),
  )

-- The three tables hold the snapshot.
module _ (at later : Time) (rules : TextRules) (s : Snapshot) (sound : IsSound rules s)
    (before db : Database) (held : IsReplaced at s before db) where
  repositories_up : All (IsUpToDate (repository_upsert later) db.repositories) s.repositories
  repositories_up =
      All-map _ _ s.repositories
        (λ r e. record {
          row = kept (repository_row at r) (lookup r.node_id before.repositories);
          found = held.repositories r.node_id ∙ rw e refl;
          unchanged = repository_repeats at later r (lookup r.node_id before.repositories);
        })
        (lookup-as_table (λ r. r.node_id) (repository_row at) s.repositories
          (IsDistinct-left (repository_ids s) _ sound.distinct))

  item_ids : IsDistinct (issue_ids s ++ pull_request_ids s)
  item_ids = IsDistinct-right (repository_ids s) _ sound.distinct

  issues_up :
      (repositories : Dict RepositoryRow)
      → All (IsUpToDate (issue_upsert repositories) db.issues) s.issues
  issues_up repositories =
      All-map _ _ s.issues
        (λ i e. record {
          row = issue_row i;
          found = held.issues i.item.node_id ∙ e;
          unchanged = issue_repeats i;
        })
        (lookup-as_table (λ i. i.item.node_id) issue_row s.issues
          (IsDistinct-left (issue_ids s) _ item_ids))

  pull_requests_up :
      (repositories : Dict RepositoryRow)
      → All (IsUpToDate (pull_request_upsert repositories) db.pull_requests) s.pull_requests
  pull_requests_up repositories =
      All-map _ _ s.pull_requests
        (λ p e. record {
          row = pull_request_row p;
          found = held.pull_requests p.item.node_id ∙ e;
          unchanged = pull_request_repeats p;
        })
        (lookup-as_table (λ p. p.item.node_id) pull_request_row s.pull_requests
          (IsDistinct-right (issue_ids s) _ item_ids))

  no_repositories_gone :
      (delete_unseen (repository_ids s) (refresh later (repository_ids s) db.repositories)).0 ≡ 0
  no_repositories_gone = delete_unseen-none _ _ λ k miss.
      rw
        (
          lookup-refresh,
          held.repositories k,
          lookup-as_table_absent (λ (r : Repository). r.node_id) (repository_row at) k
              s.repositories miss,
        )
        refl

  no_issues_gone : (delete_unseen (issue_ids s) db.issues).0 ≡ 0
  no_issues_gone = delete_unseen-none _ _ λ k miss.
      held.issues k ∙ lookup-as_table_absent (λ i. i.item.node_id) issue_row k s.issues miss

  no_pull_requests_gone : (delete_unseen (pull_request_ids s) db.pull_requests).0 ≡ 0
  no_pull_requests_gone = delete_unseen-none _ _ λ k miss.
      held.pull_requests k
      ∙ lookup-as_table_absent (λ p. p.item.node_id) pull_request_row k s.pull_requests miss

-- Nothing was written to the three tables but the times of the sightings.
pub record IsUnchanged (counts : Counts) : Type 0 where
  pub repositories : (counts.repositories_upserted ≡ 0) × (counts.repositories_deleted ≡ 0)
  pub issues : (counts.issues_upserted ≡ 0) × (counts.issues_deleted ≡ 0)
  pub pull_requests : (counts.pull_requests_upserted ≡ 0) × (counts.pull_requests_deleted ≡ 0)
  pub same_data : counts.data_changed ≡ false

module _ (healthy : Statement → Bool) (rules : TextRules) (s : Snapshot)
    (sound : IsSound rules s) where
  commit_snapshot-Repeats :
      (run_id : ℕ) (at later finished_at : Time) (before after db : Database)
      → IsReplaced at s before after
      → db.repositories ≡ after.repositories
      → db.issues ≡ after.issues
      → db.pull_requests ≡ after.pull_requests
      → Ensures (λ r. IsUnchanged r.0) (commit_snapshot healthy run_id later finished_at s db)
  unfolding commit_snapshot
  commit_snapshot-Repeats run_id at later finished_at before after db held er ei ep =
      Ensures-guard _ _ λ _.
        Ensures-then _ _ _
          (upsert_rows-IsUpToDate (repository_upsert later) db.repositories s.repositories
            (rw er (repositories_up at later rules s sound before after held)))
          λ rs hr. Ensures-guard _ _ λ _.
            Ensures-then _ _ _
              (upsert_rows-IsUpToDate (issue_upsert rs.1) db.issues s.issues
                (rw ei (issues_up at later rules s sound before after held rs.1)))
              λ is hi. Ensures-guard _ _ λ _.
                Ensures-then _ _ _
                  (upsert_rows-IsUpToDate (pull_request_upsert rs.1) db.pull_requests
                    s.pull_requests
                    (rw ep (pull_requests_up at later rules s sound before after held rs.1)))
                  λ ps hp. Ensures-guard _ _ λ _. Ensures-guard _ _ λ _. Ensures-guard _ _ λ _.
                    Ensures-guard _ _ λ _. Ensures-guard _ _ λ _. Ensures-guard _ _ λ _.
                      Ensures-guard _ _ λ _. Ensures-ok _ _ (
                        let r = no_repositories_gone at later rules s sound before after held in
                        let i = no_issues_gone at later rules s sound before after held in
                        let p = no_pull_requests_gone at later rules s sound before after held in
                        record {
                          repositories = rw (hr, er) (refl, r);
                          issues = rw (hi, ei) (refl, i);
                          pull_requests = rw (hp, ep) (refl, p);
                          same_data = rw (hr, hi, hp, er, ei, ep, r, i, p) refl;
                        })

  -- A sound snapshot that is committed successfully, and then again, at any time, over the three
  -- tables that the first left, counts no row as written or deleted the second time, and the data
  -- as not changed.
  pub commit_snapshot-repeated :
      (first second : ℕ) (at later finished_at finished_later : Time)
      (before after db last : Database) (counts again : Counts)
      → commit_snapshot healthy first at finished_at s before ≡ ok (counts, after)
      → db.repositories ≡ after.repositories
      → db.issues ≡ after.issues
      → db.pull_requests ≡ after.pull_requests
      → commit_snapshot healthy second later finished_later s db ≡ ok (again, last)
      → IsUnchanged again
  commit_snapshot-repeated first second at later finished_at finished_later before after db last
        counts again e er ei ep e' =
      (commit_snapshot-Repeats second at later finished_later before after db
          (commit_snapshot-IsReplaced healthy first at finished_at rules s sound before counts after
            e)
          er ei ep).at
        (again, last) e'
