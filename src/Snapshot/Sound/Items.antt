-- ===== src/Snapshot/Sound/Items.antt =====
-- backend/ingest.py, `validate_item`: an accepted item passes the checks of its table.
use ghpulse.Prelude.{
  String, ◌≡◌, refl, Bool, true, false, not, ◌||◌, ◌&&◌, Option, none, some, List, contains, arith,
  str_eq, eq_iff, leb, ltb, is_none, ok, Ensures, Ensures-bind, Ensures-guard, Ensures-then,
  Ensures-ok,
}
use ghpulse.Prelude.Int.{pos, ◌≤ℤ◌}
use ghpulse.Prelude.Dict.{lookup}
use ghpulse.Snapshot.{Value, null, str, TextRules, Item, Repository, Issue, PullRequest, Time}
use ghpulse.Snapshot.Require.{text_length, require_string}
use ghpulse.Snapshot.Validate.{
  ById, validate_reason, validate_given_reason, validate_issue, validate_pull_request, issue_fields,
  pull_request_fields, reason_is,
}
use ghpulse.Snapshot.Sound.{StripsSpaces}
use ghpulse.Snapshot.Sound.Common.{validate_common-IsCommon}
use ghpulse.Store.Schema.{reason_shape_check, reason_state_check, issue_checks, pull_request_checks}
use ghpulse.Ingest.Rows.{issue_row, pull_request_row}

text_length-pos : (s : String) → str_eq s "" ≡ false → leb 1 (text_length s) ≡ true
unfolding text_length
text_length-pos String.[] e = ground (arith, eq_iff "" "")
text_length-pos (String.◌∷◌ c s) e = ground arith

require_string-pos :
    (v : Value) {s : String} → require_string v ≡ ok s → leb 1 (text_length s) ≡ true
unfolding require_string
require_string-pos (str s) e = ground (arith, text_length-pos s)
require_string-pos null e = cc
require_string-pos _ e = cc

module _ (rules : TextRules) (strips : StripsSpaces rules) where
  shape_of_reason :
      (s : String)
      → leb 1 (text_length s) ≡ true
      → (ltb 64 (text_length s) || rules.is_blank s) ≡ false
      → reason_shape_check (some s) ≡ true
  unfolding reason_shape_check
  shape_of_reason s p h = ground (arith, strips.spaces_blank s)

  validate_given_reason-shape :
      (v : Value) → Ensures (λ o. reason_shape_check o ≡ true) (validate_given_reason rules v)
  unfolding validate_given_reason
  validate_given_reason-shape v = Ensures-bind λ s is_text.
      Ensures-guard _ _
        λ short. Ensures-ok _ _ (shape_of_reason s (require_string-pos v is_text) short)

  validate_reason-shape :
      (v : Value) → Ensures (λ o. reason_shape_check o ≡ true) (validate_reason rules v)
  unfolding validate_reason
  validate_reason-shape null = Ensures-ok _ _ (unfold reason_shape_check in refl)
  validate_reason-shape v = validate_given_reason-shape v

-- What the guards of an issue leave is the check of the table.
issue_checks_of_guards :
    (c : Item) (reason : Option String)
    → pos 1 ≤ℤ c.number
    → reason_shape_check reason ≡ true
    → not (str_eq c.state "OPEN" || str_eq c.state "CLOSED") ≡ false
    → (str_eq c.state "OPEN"
        && (not (is_none c.closed_at)
            || (reason_is "COMPLETED" reason || reason_is "NOT_PLANNED" reason)))
      ≡ false
    → (str_eq c.state "CLOSED"
        && (is_none c.closed_at || (is_none reason || reason_is "REOPENED" reason)))
      ≡ false
    → issue_checks (issue_row (record { item = c; state_reason = reason })) ≡ true
unfolding issue_checks reason_state_check
issue_checks_of_guards c none p s known opened closed = ground arith
issue_checks_of_guards c (some r) p s known opened closed = ground arith

pull_request_checks_of_guards :
    (c : Item) (merged : Bool) (merged_at : Option Time)
    → pos 1 ≤ℤ c.number
    → not (str_eq c.state "OPEN" || (str_eq c.state "CLOSED" || str_eq c.state "MERGED")) ≡ false
    → (str_eq c.state "OPEN" && (merged || (not (is_none c.closed_at) || not (is_none merged_at))))
      ≡ false
    → (str_eq c.state "CLOSED" && (merged || (is_none c.closed_at || not (is_none merged_at))))
      ≡ false
    → (str_eq c.state "MERGED" && (not merged || (is_none c.closed_at || is_none merged_at)))
      ≡ false
    → pull_request_checks
        (pull_request_row (record { item = c; merged_at = merged_at; merged = merged }))
      ≡ true
unfolding pull_request_checks
pull_request_checks_of_guards c merged merged_at p known opened closed landed = ground arith

module _ (rules : TextRules) (strips : StripsSpaces rules) (account_key : String) (by_id : ById)
    (seen : List String) where
  pub record IsGoodIssue (i : Issue) : Type 0 where
    pub unseen : contains i.item.node_id seen ≡ false
    pub known : (r : Repository) × (lookup i.item.repository_id by_id ≡ some r)
    pub passes : issue_checks (issue_row i) ≡ true

  pub validate_issue-IsGood :
      (raw : Value) → Ensures IsGoodIssue (validate_issue rules account_key by_id seen raw)
  unfolding validate_issue
  validate_issue-IsGood raw = Ensures-bind λ item _.
      Ensures-then _ _ _ (validate_common-IsCommon rules issue_fields account_key by_id seen item)
        λ c common. Ensures-bind λ v _.
          Ensures-then _ _ _ (validate_reason-shape rules strips v) λ reason shape.
            Ensures-guard _ _ λ known. Ensures-guard _ _ λ opened. Ensures-guard _ _ λ closed.
              Ensures-ok _ _ (record {
                unseen = common.unseen;
                known = common.known;
                passes = issue_checks_of_guards c reason common.positive shape known opened closed;
              })

  pub record IsGoodPullRequest (p : PullRequest) : Type 0 where
    pub unseen : contains p.item.node_id seen ≡ false
    pub known : (r : Repository) × (lookup p.item.repository_id by_id ≡ some r)
    pub passes : pull_request_checks (pull_request_row p) ≡ true

  pub validate_pull_request-IsGood :
      (raw : Value)
      → Ensures IsGoodPullRequest (validate_pull_request rules account_key by_id seen raw)
  unfolding validate_pull_request
  validate_pull_request-IsGood raw = Ensures-bind λ item _.
      Ensures-then _ _ _
        (validate_common-IsCommon rules pull_request_fields account_key by_id seen item)
        λ c common. Ensures-bind λ _ _. Ensures-bind λ merged _. Ensures-bind λ _ _.
          Ensures-bind λ merged_at _. Ensures-guard _ _ λ known. Ensures-guard _ _ λ opened.
            Ensures-guard _ _ λ closed. Ensures-guard _ _ λ landed. Ensures-ok _ _ (record {
              unseen = common.unseen;
              known = common.known;
              passes =
                  pull_request_checks_of_guards c merged merged_at common.positive known opened
                    closed landed;
            })
