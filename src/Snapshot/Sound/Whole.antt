-- ===== src/Snapshot/Sound/Whole.antt =====
-- backend/ingest.py, `_validate_snapshot`: every accepted snapshot is sound.
use ghpulse.Prelude.{
  String, ◌≡◌, true, false, List, [], ◌∷◌, ◌++◌, str_eq, contains, IsDistinct, All, ok, Ensures,
  Ensures-bind, Ensures-guard, Ensures-then, Ensures-ok,
}
use ghpulse.Snapshot.{Value, Items, nil, cons, TextRules, Repository, Issue, PullRequest, Snapshot}
use ghpulse.Snapshot.Validate.{
  index_by_id, seen_after, validate_repository, validate_repositories, validate_issues,
  validate_pull_requests, validate_snapshot,
}
use ghpulse.Snapshot.Sound.{StripsSpaces, IsSound}
use ghpulse.Snapshot.Sound.Items.{validate_issue-IsGood, validate_pull_request-IsGood}
use ghpulse.Snapshot.Sound.Distinct.{
  IsFresh, seen_after-push, IsFresh-append, IsFresh-IsDistinct, index_by_id-contains,
}
use ghpulse.Store.Schema.{issue_checks, pull_request_checks}
use ghpulse.Store.Table.Laws.{names}
use ghpulse.Ingest.Rows.{issue_row, pull_request_row}

module _ (rules : TextRules) where
  record IsGoodRepository (account_key : String) (seen : List String) (r : Repository)
      : Type 0 where
    unseen : contains r.node_id seen ≡ false
    external : str_eq (rules.casefold r.owner_login) account_key ≡ false

  validate_repository-IsGood :
      (key : String) (seen : List String) (raw : Value)
      → Ensures (IsGoodRepository key seen) (validate_repository rules key seen raw)
  unfolding validate_repository
  validate_repository-IsGood key seen raw = Ensures-bind λ _ _. Ensures-guard _ _ λ _.
      Ensures-bind λ _ _. Ensures-bind λ _ _. Ensures-guard _ _ λ fresh. Ensures-bind λ _ _.
        Ensures-bind λ _ _. Ensures-guard _ _ λ _. Ensures-bind λ _ _. Ensures-bind λ _ _.
          Ensures-guard _ _ λ _. Ensures-bind λ _ _. Ensures-bind λ _ _.
            Ensures-guard _ _ λ external. Ensures-bind λ _ _. Ensures-bind λ _ _.
              Ensures-bind λ _ _.
                Ensures-bind λ _ _. Ensures-ok _ _ (record { unseen = fresh; external = external })

  abbrev GoodRepositories : String → List String → List Repository → Type 0
  GoodRepositories key seen rs =
      IsFresh seen (names (λ r. r.node_id) rs)
      × All (λ r. str_eq (rules.casefold r.owner_login) key ≡ false) rs

  validate_repositories-Good :
      (key : String) (seen : List String) (raws : Items)
      → Ensures (GoodRepositories key seen) (validate_repositories rules key seen raws)
  unfolding validate_repositories
  validate_repositories-Good key seen nil = Ensures-ok _ _ (tt, tt)
  validate_repositories-Good key seen (cons raw rest) =
      Ensures-then _ _ _ (validate_repository-IsGood key seen raw) λ r good.
        Ensures-then _ _ _ (validate_repositories-Good key (r.node_id ∷ seen) rest)
          λ rs goods. Ensures-ok _ _ ((good.unseen, goods.0), (good.external, goods.1))

  module _ (strips : StripsSpaces rules) (key : String) (repositories : List Repository) where
    abbrev known_ids : List String
    known_ids = names (λ r. r.node_id) repositories

    abbrev GoodIssues : List String → List Issue → Type 0
    GoodIssues seen is =
        IsFresh seen (names (λ i. i.item.node_id) is)
        × All (λ i. contains i.item.repository_id known_ids ≡ true) is
        × All (λ i. issue_checks (issue_row i) ≡ true) is

    validate_issues-Good :
        (seen : List String) (raws : Items)
        → Ensures
            (GoodIssues seen)
            (validate_issues rules key (index_by_id repositories []) seen raws)
    unfolding validate_issues
    validate_issues-Good seen nil = Ensures-ok _ _ (tt, tt, tt)
    validate_issues-Good seen (cons raw rest) =
        Ensures-then _ _ _
          (validate_issue-IsGood rules strips key (index_by_id repositories []) seen raw)
          λ i good.
            Ensures-then _ _ _ (validate_issues-Good (i.item.node_id ∷ seen) rest) λ is goods.
              Ensures-ok _ _ (
                (good.unseen, goods.0),
                (index_by_id-contains i.item.repository_id repositories good.known.1, goods.1),
                (good.passes, goods.2),
              )

    abbrev GoodPullRequests : List String → List PullRequest → Type 0
    GoodPullRequests seen ps =
        IsFresh seen (names (λ p. p.item.node_id) ps)
        × All (λ p. contains p.item.repository_id known_ids ≡ true) ps
        × All (λ p. pull_request_checks (pull_request_row p) ≡ true) ps

    validate_pull_requests-Good :
        (seen : List String) (raws : Items)
        → Ensures
            (GoodPullRequests seen)
            (validate_pull_requests rules key (index_by_id repositories []) seen raws)
    unfolding validate_pull_requests
    validate_pull_requests-Good seen nil = Ensures-ok _ _ (tt, tt, tt)
    validate_pull_requests-Good seen (cons raw rest) =
        Ensures-then _ _ _
          (validate_pull_request-IsGood rules strips key (index_by_id repositories []) seen raw)
          λ p good.
            Ensures-then _ _ _ (validate_pull_requests-Good (p.item.node_id ∷ seen) rest)
              λ ps goods. Ensures-ok _ _ (
                (good.unseen, goods.0),
                (index_by_id-contains p.item.repository_id repositories good.known.1, goods.1),
                (good.passes, goods.2),
              )

all_ids-IsDistinct :
    (rs : List Repository) (is : List Issue) (ps : List PullRequest)
    → IsFresh [] (names (λ r. r.node_id) rs)
    → IsFresh (seen_after (λ r. r.node_id) rs []) (names (λ i. i.item.node_id) is)
    → IsFresh
        (seen_after (λ i. i.item.node_id) is (seen_after (λ r. r.node_id) rs []))
        (names (λ p. p.item.node_id) ps)
    → IsDistinct (
        names (λ r. r.node_id) rs
        ++ (names (λ i. i.item.node_id) is ++ names (λ p. p.item.node_id) ps))
all_ids-IsDistinct rs is ps hr hi hp = IsFresh-IsDistinct _ (
    IsFresh-append [] (names (λ r. r.node_id) rs) _ hr (
      IsFresh-append _ (names (λ i. i.item.node_id) is) _ (rw seen_after-push at hi) (
        rw
          (
            seen_after-push (λ (i : Issue). i.item.node_id) is,
            seen_after-push (λ (r : Repository). r.node_id) rs,
          )
          at hp)))

pub validate_snapshot-Ensures :
    (rules : TextRules)
    → StripsSpaces rules
    → (raw : Value) → Ensures (IsSound rules) (validate_snapshot rules raw)
unfolding validate_snapshot
validate_snapshot-Ensures rules strips raw = Ensures-bind λ body _. Ensures-guard _ _ λ _.
    Ensures-bind λ _ _. Ensures-guard _ _ λ _. Ensures-bind λ _ _. Ensures-bind λ source_at _.
      Ensures-bind λ _ _. Ensures-bind λ _ _. Ensures-guard _ _ λ _. Ensures-bind λ _ _.
        Ensures-bind λ login _. Ensures-bind λ _ _. Ensures-bind λ raw_rs _. Ensures-bind λ _ _.
          Ensures-bind λ raw_is _. Ensures-bind λ _ _. Ensures-bind λ raw_ps _.
            Ensures-then _ _ _ (validate_repositories-Good rules (rules.casefold login) [] raw_rs)
              λ rs hr.
                Ensures-then _ _ _
                  (validate_issues-Good rules strips (rules.casefold login) rs
                    (seen_after (λ r. r.node_id) rs []) raw_is)
                  λ is hi.
                    Ensures-then _ _ _
                      (validate_pull_requests-Good rules strips (rules.casefold login) rs
                        (seen_after (λ i. i.item.node_id) is (seen_after (λ r. r.node_id) rs []))
                        raw_ps)
                      λ ps hp. Ensures-ok _ _ (record {
                        distinct = all_ids-IsDistinct rs is ps hr.0 hi.0 hp.0;
                        issues_refer = hi.1;
                        pull_requests_refer = hp.1;
                        issues_pass = hi.2;
                        pull_requests_pass = hp.2;
                        external = hr.1;
                      })

-- A snapshot that validation accepts names no node twice, holds the repository of every item,
-- holds no repository of the account, and every issue and pull request in it passes all the
-- column checks of its table, if `strip` removes spaces.
pub validate_snapshot-IsSound :
    (rules : TextRules)
    → StripsSpaces rules
    → (raw : Value) (s : Snapshot) → validate_snapshot rules raw ≡ ok s
    → IsSound rules s
validate_snapshot-IsSound rules strips raw s e = (validate_snapshot-Ensures rules strips raw).at s e
