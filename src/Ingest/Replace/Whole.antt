-- ===== src/Ingest/Replace/Whole.antt =====
-- backend/ingest.py, `_commit_snapshot`: a commit replaces the tables by the snapshot.
use ghpulse.Prelude.{
  ℕ, String, ◌≡◌, refl, sym, ◌∙◌, Bool, true, Option, none, some, List, [], ◌∷◌, ◌++◌, arith,
  contains, contains-append, IsDistinct, All, if◌then◌else◌, Bool-cases, inl, inr, ap, ok, Ensures,
  Ensures-bind, Ensures-guard, Ensures-ok,
}
use ghpulse.Prelude.Dict.{Dict, lookup}
use ghpulse.Snapshot.{Time, TextRules, Snapshot, Repository}
use ghpulse.Snapshot.Sound.{IsSound}
use ghpulse.Store.{RepositoryRow, IssueRow, PullRequestRow, Database, Counts}
use ghpulse.Store.Table.{upsert_rows, delete_unseen, unseen, cascade}
use ghpulse.Store.Table.Laws.{
  names, as_table, after_upsert, stored, lookup-delete_unseen, lookup-upsert_rows,
  lookup-as_table_absent,
}
use ghpulse.Ingest.Rows.{
  repository_upsert, issue_upsert, pull_request_upsert, issue_is_distinct, pull_request_is_distinct,
  refresh, repository_row, issue_row, pull_request_row,
}
use ghpulse.Ingest.Rows.Laws.{
  issue_same, pull_request_same, kept_if, refreshed, touched, lookup-refresh,
}
use ghpulse.Ingest.Commit.{Statement, repository_ids, issue_ids, pull_request_ids, commit_snapshot}
use ghpulse.Ingest.Replace.{repositories_of, issues_of, pull_requests_of, IsReplaced}
use ghpulse.Ingest.Replace.Cascade.{
  contains-unseen, lookup-cascade, lookup-as_table_All, lookup-as_table_present, lookup-overwritten,
}

pub IsDistinct-left : (xs ys : List String) → IsDistinct (xs ++ ys) → IsDistinct xs
IsDistinct-left [] ys d = tt
IsDistinct-left (x ∷ xs) ys d = (ground (arith, contains-append x xs ys), IsDistinct-left xs ys d.1)

pub IsDistinct-right : (xs ys : List String) → IsDistinct (xs ++ ys) → IsDistinct ys
IsDistinct-right [] ys d = d
IsDistinct-right (x ∷ xs) ys d = IsDistinct-right xs ys d.1

module _ (repositories : Dict RepositoryRow) where
  issue_overwrites :
      (new : IssueRow) (old : Option IssueRow) → stored (issue_upsert repositories) new old ≡ new
  issue_overwrites new none = refl
  issue_overwrites new (some old) = elim (Bool-cases (issue_is_distinct old new)) [
    | inl d ↦ rw d
    | inr d ↦ rw d (issue_same old new d)
  ]

  pull_request_overwrites :
      (new : PullRequestRow) (old : Option PullRequestRow)
      → stored (pull_request_upsert repositories) new old ≡ new
  pull_request_overwrites new none = refl
  pull_request_overwrites new (some old) = elim (Bool-cases (pull_request_is_distinct old new)) [
    | inl d ↦ rw d
    | inr d ↦ rw d (pull_request_same old new d)
  ]

-- The repositories after the upserts, the `UPDATE` of the times and the deletion.
repositories_kept :
    (at : Time) (k : String) (rs : List Repository) (found : Option RepositoryRow)
    → (if contains k (names (λ r. r.node_id) rs)
        then touched at (contains k (names (λ r. r.node_id) rs)) (
            after_upsert
              (repository_upsert at)
              (lookup k (as_table (λ r. r.node_id) (repository_row at) rs))
              found)
        else none)
      ≡ kept_if (lookup k (as_table (λ r. r.node_id) (repository_row at) rs)) found
repositories_kept at k rs found =
    elim (Bool-cases (contains k (names (λ (r : Repository). r.node_id) rs))) [
      | inl e ↦
          let (r, p) =
            lookup-as_table_present (λ (r : Repository). r.node_id) (repository_row at) k rs e in
          rw (e, p) (ap some (refreshed at r found))
      | inr e ↦
          rw (e, lookup-as_table_absent (λ (r : Repository). r.node_id) (repository_row at) k rs e)
    ]

-- The deletion of repositories takes no item of the snapshot along.
items_spared :
    {A R : Type 0} (f : A → String) (row : A → R) (column : R → String) (xs : List A)
    (seen : List String) (repositories : Dict RepositoryRow) (t : Dict R) (k : String)
    → All (λ x. contains (column (row x)) seen ≡ true) xs
    → lookup k t ≡ lookup k (as_table f row xs)
    → lookup k (cascade column (unseen seen repositories) t) ≡ lookup k (as_table f row xs)
items_spared f row column xs seen repositories t k refer e =
    lookup-cascade column (unseen seen repositories) k t (λ r p.
      contains-unseen (column r) seen repositories
        (lookup-as_table_All f row (λ r. contains (column r) seen ≡ true) k xs r refer (sym e ∙ p)))
    ∙ e

module _ (healthy : Statement → Bool) (run_id : ℕ) (at finished_at : Time) (rules : TextRules)
    (s : Snapshot) (sound : IsSound rules s) (db : Database) where
  repository_ids-IsDistinct : IsDistinct (repository_ids s)
  repository_ids-IsDistinct = IsDistinct-left (repository_ids s) _ sound.distinct

  item_ids-IsDistinct : IsDistinct (issue_ids s ++ pull_request_ids s)
  item_ids-IsDistinct = IsDistinct-right (repository_ids s) _ sound.distinct

  module _ (upserted : ℕ × Dict RepositoryRow) where
    repositories_after :
        upsert_rows (repository_upsert at) s.repositories db.repositories ≡ ok upserted
        → (k : String)
        → lookup k (delete_unseen (repository_ids s) (refresh at (repository_ids s) upserted.1)).1
          ≡ kept_if (lookup k (repositories_of at s)) (lookup k db.repositories)
    repositories_after e k =
        rw
          (
            lookup-delete_unseen,
            lookup-refresh,
            (lookup-upsert_rows (repository_upsert at) k s.repositories db.repositories
                  repository_ids-IsDistinct).at
                upserted e,
          )
          (repositories_kept at k s.repositories (lookup k db.repositories))

    issues_after :
        (gone : Dict RepositoryRow) (r : ℕ × Dict IssueRow)
        → upsert_rows (issue_upsert upserted.1) s.issues db.issues ≡ ok r
        → (k : String)
        → lookup k (
            cascade
              (λ x. x.repository_id)
              (unseen (repository_ids s) gone)
              (delete_unseen (issue_ids s) r.1).1)
          ≡ lookup k (issues_of s)
    issues_after gone r e k =
        items_spared (λ i. i.item.node_id) issue_row (λ x. x.repository_id) s.issues
          (repository_ids s) gone (delete_unseen (issue_ids s) r.1).1 k sound.issues_refer
          (rw
            (
              lookup-delete_unseen,
              (lookup-upsert_rows (issue_upsert upserted.1) k s.issues db.issues
                    (IsDistinct-left (issue_ids s) _ item_ids-IsDistinct)).at
                  r e,
            )
            (lookup-overwritten (issue_upsert upserted.1) k s.issues (lookup k db.issues)
              (issue_overwrites upserted.1)))

    pull_requests_after :
        (gone : Dict RepositoryRow) (r : ℕ × Dict PullRequestRow)
        → upsert_rows (pull_request_upsert upserted.1) s.pull_requests db.pull_requests ≡ ok r
        → (k : String)
        → lookup k (
            cascade
              (λ x. x.repository_id)
              (unseen (repository_ids s) gone)
              (delete_unseen (pull_request_ids s) r.1).1)
          ≡ lookup k (pull_requests_of s)
    pull_requests_after gone r e k =
        items_spared (λ p. p.item.node_id) pull_request_row (λ x. x.repository_id) s.pull_requests
          (repository_ids s) gone (delete_unseen (pull_request_ids s) r.1).1 k
          sound.pull_requests_refer
          (rw
            (
              lookup-delete_unseen,
              (lookup-upsert_rows (pull_request_upsert upserted.1) k s.pull_requests
                    db.pull_requests (IsDistinct-right (issue_ids s) _ item_ids-IsDistinct)).at
                  r e,
            )
            (lookup-overwritten (pull_request_upsert upserted.1) k s.pull_requests
              (lookup k db.pull_requests) (pull_request_overwrites upserted.1)))

  commit_snapshot-Ensures :
      Ensures (λ r. IsReplaced at s db r.1) (commit_snapshot healthy run_id at finished_at s db)
  unfolding commit_snapshot
  commit_snapshot-Ensures = Ensures-guard _ _ λ _. Ensures-bind λ rs hr. Ensures-guard _ _ λ _.
      Ensures-bind λ is hi. Ensures-guard _ _ λ _. Ensures-bind λ ps hp. Ensures-guard _ _ λ _.
        Ensures-guard _ _ λ _. Ensures-guard _ _ λ _. Ensures-guard _ _ λ _. Ensures-guard _ _ λ _.
          Ensures-guard _ _ λ _. Ensures-guard _ _ λ _. Ensures-ok _ _ (record {
            repositories = repositories_after rs hr;
            issues = issues_after rs (refresh at (repository_ids s) rs.1) is hi;
            pull_requests = pull_requests_after rs (refresh at (repository_ids s) rs.1) ps hp;
            sync = refl;
          })

  -- A commit of a sound snapshot that succeeds leaves, in the three tables, exactly the rows of the
  -- snapshot, whatever stood there before; a repository that was known keeps the time of its first
  -- sighting and takes the time of the commit as its last; and the sync marker reports success.
  pub commit_snapshot-IsReplaced :
      (counts : Counts) (after : Database)
      → commit_snapshot healthy run_id at finished_at s db ≡ ok (counts, after)
      → IsReplaced at s db after
  commit_snapshot-IsReplaced counts after e = commit_snapshot-Ensures.at (counts, after) e
