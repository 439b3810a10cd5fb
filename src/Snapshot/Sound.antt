-- ===== src/Snapshot/Sound.antt =====
-- backend/ingest.py, `_validate_snapshot`: what an accepted snapshot satisfies.
pub mod Common
pub mod Items
pub mod Distinct
pub mod Whole
use ghpulse.Prelude.{
  String, ◌≡◌, Bool, true, false, List, [], ◌∷◌, ◌++◌, str_eq, contains, IsDistinct, All,
}
use ghpulse.Snapshot.{TextRules, Repository, Issue, PullRequest, Snapshot}
use ghpulse.Store.Schema.{is_spaces, issue_checks, pull_request_checks}
use ghpulse.Store.Table.Laws.{names}
use ghpulse.Ingest.Rows.{issue_row, pull_request_row}
use ghpulse.Ingest.Commit.{repository_ids, issue_ids, pull_request_ids}

-- Python's `strip` removes spaces, so it leaves nothing of a text of spaces.
pub record StripsSpaces (rules : TextRules) : Type 0 where
  pub spaces_blank : (s : String) → is_spaces s ≡ true → rules.is_blank s ≡ true

pub record IsSound (rules : TextRules) (s : Snapshot) : Type 0 where
  -- No identifier stands twice, in one list or in two.
  pub distinct : IsDistinct (repository_ids s ++ (issue_ids s ++ pull_request_ids s))
  -- Every item's repository is in the snapshot.
  pub issues_refer : All (λ i. contains i.item.repository_id (repository_ids s) ≡ true) s.issues
  pub pull_requests_refer :
      All (λ p. contains p.item.repository_id (repository_ids s) ≡ true) s.pull_requests
  -- Every row passes the checks of its table.
  pub issues_pass : All (λ i. issue_checks (issue_row i) ≡ true) s.issues
  pub pull_requests_pass :
      All (λ p. pull_request_checks (pull_request_row p) ≡ true) s.pull_requests
  -- No repository belongs to the account.
  pub external :
      All
        (λ r. str_eq (rules.casefold r.owner_login) (rules.casefold s.login) ≡ false)
        s.repositories
