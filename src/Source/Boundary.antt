-- ===== src/Source/Boundary.antt =====
-- backend/github_source.py against backend/ingest.py: the boundary refuses nothing that the
-- validation of a run accepts.
use ghpulse.Prelude.{
  String, Bool, true, false, not, ◌≡◌, refl, ◌∙◌, ap, some, List, ◌∷◌, str_eq, ok, ◌>>=◌, raise_if,
  Ensures, Ensures-bind, Ensures-guard, Ensures-then, Ensures-ok, arith,
}
use ghpulse.Prelude.Int.{pos, negsuc}
use ghpulse.Prelude.Equality.{int_eq}
use ghpulse.Snapshot.{
  Value, bool, int, str, arr, obj, null, float, Items, nil, cons, Fields, find, TextRules, Snapshot,
}
use ghpulse.Snapshot.Require.{get_field, require_dict, require_string, require_bool, require_list}
use ghpulse.Snapshot.Require.Inverse.{
  get_field-eq-ok, require_dict-eq-ok, require_list-eq-ok, require_bool-eq-ok, require_string-eq-ok,
}
use ghpulse.Snapshot.Validate.{
  ById, validate_repository, validate_repositories, validate_common, validate_issue,
  validate_issues, validate_pull_request, validate_pull_requests, validate_snapshot, is_version_one,
  issue_fields, pull_request_fields,
}
use ghpulse.Source.{
  equals_one, check_owner_login, check_owner, check_repository, check_repositories, check_record,
  check_records, check_collection, account_login_of, repositories_of, check_body,
  validate_public_boundary,
}

found_dict :
    (k : String) (fs : Fields) {v : Value} {inner : Fields}
    → get_field k fs ≡ ok v
    → require_dict v ≡ ok inner
    → find k fs ≡ some (obj inner)
found_dict k fs {v} e is_dict = get_field-eq-ok k fs e ∙ ap some (require_dict-eq-ok v is_dict)

found_string :
    (k : String) (fs : Fields) {v : Value} {s : String}
    → get_field k fs ≡ ok v
    → require_string v ≡ ok s
    → find k fs ≡ some (str s)
found_string k fs {v} e is_string =
    get_field-eq-ok k fs e ∙ ap some (require_string-eq-ok v is_string)

found_false :
    (k : String) (fs : Fields) {v : Value} {b : Bool}
    → get_field k fs ≡ ok v
    → require_bool v ≡ ok b
    → b ≡ false
    → find k fs ≡ some (bool false)
found_false k fs {v} e is_bool no_flag =
    get_field-eq-ok k fs e ∙ ap some (require_bool-eq-ok v is_bool ∙ ap bool no_flag)

found_list :
    (k : String) (fs : Fields) {v : Value} {xs : Items}
    → get_field k fs ≡ ok v
    → require_list v ≡ ok xs
    → find k fs ≡ some (arr xs)
found_list k fs {v} e is_list = get_field-eq-ok k fs e ∙ ap some (require_list-eq-ok v is_list)

module _ (rules : TextRules) where
  open rules use {casefold}

  repository_passes :
      (account_key : String) (raw : Value) (repo owner : Fields) (login : String)
      → raw ≡ obj repo
      → find "isPrivate" repo ≡ some (bool false)
      → find "owner" repo ≡ some (obj owner)
      → find "login" owner ≡ some (str login)
      → str_eq (casefold login) account_key ≡ false
      → check_repository casefold account_key raw ≡ ok tt
  unfolding check_repository check_owner check_owner_login raise_if ◌>>=◌
  repository_passes account_key raw repo owner login is_obj public owned named other =
      rw (is_obj, public, owned, named, other) refl

  validate_repository-passes :
      (account_key : String) (seen : List String) (raw : Value)
      → Ensures
          (λ r. check_repository casefold account_key raw ≡ ok tt)
          (validate_repository rules account_key seen raw)
  unfolding validate_repository
  validate_repository-passes account_key seen raw = Ensures-bind λ repo is_obj.
      Ensures-guard _ _ λ _. Ensures-bind λ _ _. Ensures-bind λ _ _. Ensures-guard _ _ λ _.
        Ensures-bind λ flag flag_found. Ensures-bind λ _ is_flag. Ensures-guard _ _ λ public.
          Ensures-bind λ o owner_found. Ensures-bind λ owner is_owner. Ensures-guard _ _ λ _.
            Ensures-bind λ l login_found. Ensures-bind λ login is_login. Ensures-guard _ _ λ other.
              Ensures-bind λ _ _. Ensures-bind λ _ _. Ensures-bind λ _ _. Ensures-bind λ _ _.
                Ensures-ok _ _ (
                  repository_passes account_key raw repo owner login (require_dict-eq-ok raw is_obj)
                    (found_false "isPrivate" repo flag_found is_flag public)
                    (found_dict "owner" repo owner_found is_owner)
                    (found_string "login" owner login_found is_login) other)

  validate_repositories-pass :
      (account_key : String) (seen : List String) (raws : Items)
      → Ensures
          (λ rs. check_repositories casefold account_key raws ≡ ok tt)
          (validate_repositories rules account_key seen raws)
  unfolding validate_repositories check_repositories ◌>>=◌
  validate_repositories-pass account_key seen nil = Ensures-ok _ _ refl
  validate_repositories-pass account_key seen (cons raw rest) =
      Ensures-then _ _ _ (validate_repository-passes account_key seen raw) λ r first.
        Ensures-then _ _ _ (validate_repositories-pass account_key (r.node_id ∷ seen) rest)
          λ rs others. Ensures-ok _ _ (rw (first, others) refl)

  -- The flag of an item that the validation accepts.
  validate_common-public :
      (fields : List String) (account_key : String) (by_id : ById) (seen : List String)
      (item : Fields)
      → Ensures
          (λ i. find "is_private" item ≡ some (bool false))
          (validate_common rules fields account_key by_id seen item)
  unfolding validate_common
  validate_common-public fields account_key by_id seen item = Ensures-guard _ _ λ _.
      Ensures-bind λ _ _. Ensures-bind λ _ _. Ensures-guard _ _ λ _. Ensures-bind λ _ _.
        Ensures-bind λ _ _. Ensures-bind λ _ _. Ensures-bind λ flag flag_found.
          Ensures-bind λ _ is_flag.
            Ensures-guard _ _ λ public. record {
              at = λ i e. found_false "is_private" item flag_found is_flag public;
            }

  record_passes :
      (raw : Value) (item : Fields)
      → require_dict raw ≡ ok item
      → find "is_private" item ≡ some (bool false)
      → check_record raw ≡ ok tt
  unfolding check_record raise_if
  record_passes raw item is_obj public = rw (require_dict-eq-ok raw is_obj, public) refl

  validate_issue-passes :
      (account_key : String) (by_id : ById) (seen : List String) (raw : Value)
      → Ensures (λ i. check_record raw ≡ ok tt) (validate_issue rules account_key by_id seen raw)
  unfolding validate_issue
  validate_issue-passes account_key by_id seen raw = Ensures-bind λ item is_obj.
      Ensures-then _ _ _ (validate_common-public issue_fields account_key by_id seen item)
        λ c public. record { at = λ i e. record_passes raw item is_obj public }

  validate_pull_request-passes :
      (account_key : String) (by_id : ById) (seen : List String) (raw : Value)
      → Ensures
          (λ p. check_record raw ≡ ok tt)
          (validate_pull_request rules account_key by_id seen raw)
  unfolding validate_pull_request
  validate_pull_request-passes account_key by_id seen raw = Ensures-bind λ item is_obj.
      Ensures-then _ _ _ (validate_common-public pull_request_fields account_key by_id seen item)
        λ c public. record { at = λ i e. record_passes raw item is_obj public }

  validate_issues-pass :
      (account_key : String) (by_id : ById) (seen : List String) (raws : Items)
      → Ensures
          (λ is. check_records raws ≡ ok tt)
          (validate_issues rules account_key by_id seen raws)
  unfolding validate_issues check_records ◌>>=◌
  validate_issues-pass account_key by_id seen nil = Ensures-ok _ _ refl
  validate_issues-pass account_key by_id seen (cons raw rest) =
      Ensures-then _ _ _ (validate_issue-passes account_key by_id seen raw) λ i first.
        Ensures-then _ _ _ (validate_issues-pass account_key by_id (i.item.node_id ∷ seen) rest)
          λ is others. Ensures-ok _ _ (rw (first, others) refl)

  validate_pull_requests-pass :
      (account_key : String) (by_id : ById) (seen : List String) (raws : Items)
      → Ensures
          (λ ps. check_records raws ≡ ok tt)
          (validate_pull_requests rules account_key by_id seen raws)
  unfolding validate_pull_requests check_records ◌>>=◌
  validate_pull_requests-pass account_key by_id seen nil = Ensures-ok _ _ refl
  validate_pull_requests-pass account_key by_id seen (cons raw rest) =
      Ensures-then _ _ _ (validate_pull_request-passes account_key by_id seen raw) λ p first.
        Ensures-then _ _ _
          (validate_pull_requests-pass account_key by_id (p.item.node_id ∷ seen) rest)
          λ ps others. Ensures-ok _ _ (rw (first, others) refl)

  module _ (float_is_one : String → Bool) where
    version_one :
        (v : Value) → not (is_version_one v) ≡ false → equals_one float_is_one (some v) ≡ true
    unfolding is_version_one equals_one
    version_one (int (pos n)) h = ground arith
    version_one (int (negsuc n)) h = ground arith
    version_one null h = cc h
    version_one (bool b) h = cc h
    version_one (float s) h = cc h
    version_one (str s) h = cc h
    version_one (arr xs) h = cc h
    version_one (obj fs) h = cc h

    body_passes :
        (body account : Fields) (version : Value) (login : String) (rs is ps : Items)
        → find "schema_version" body ≡ some version
        → not (is_version_one version) ≡ false
        → find "account" body ≡ some (obj account)
        → find "login" account ≡ some (str login)
        → find "repositories" body ≡ some (arr rs)
        → find "issues" body ≡ some (arr is)
        → find "pull_requests" body ≡ some (arr ps)
        → check_repositories casefold (casefold login) rs ≡ ok tt
        → check_records is ≡ ok tt
        → check_records ps ≡ ok tt
        → check_body casefold float_is_one body ≡ ok tt
    unfolding check_body account_login_of repositories_of check_collection raise_if ◌>>=◌
    body_passes body account version login rs is ps v one a l r i p rs_pass is_pass ps_pass =
        rw (v, version_one version one, a, l, r, rs_pass, i, is_pass, p) ps_pass

    boundary_of_body :
        (raw : Value) (body : Fields)
        → raw ≡ obj body
        → check_body casefold float_is_one body ≡ ok tt
        → validate_public_boundary casefold float_is_one raw ≡ ok raw
    unfolding validate_public_boundary ◌>>=◌
    boundary_of_body raw body is_obj passes = rw (is_obj, passes) refl

    validate_snapshot-boundary :
        (raw : Value)
        → Ensures
            (λ s. validate_public_boundary casefold float_is_one raw ≡ ok raw)
            (validate_snapshot rules raw)
    unfolding validate_snapshot
    validate_snapshot-boundary raw = Ensures-bind λ body is_obj. Ensures-guard _ _ λ _.
        Ensures-bind λ version version_found. Ensures-guard _ _ λ one. Ensures-bind λ _ _.
          Ensures-bind λ _ _. Ensures-bind λ a account_found. Ensures-bind λ account is_account.
            Ensures-guard _ _ λ _. Ensures-bind λ l login_found. Ensures-bind λ login is_login.
              Ensures-bind λ r rs_found. Ensures-bind λ rs is_rs. Ensures-bind λ i is_found.
                Ensures-bind λ is is_is. Ensures-bind λ p ps_found. Ensures-bind λ ps is_ps.
                  Ensures-then _ _ _ (validate_repositories-pass _ _ rs) λ _ rs_pass.
                    Ensures-then _ _ _ (validate_issues-pass _ _ _ is) λ _ is_pass.
                      Ensures-then _ _ _ (validate_pull_requests-pass _ _ _ ps) λ _ ps_pass.
                        Ensures-ok _ _ (
                          boundary_of_body raw body (require_dict-eq-ok raw is_obj) (
                            body_passes body account version login rs is ps
                              (get_field-eq-ok "schema_version" body version_found) one
                              (found_dict "account" body account_found is_account)
                              (found_string "login" account login_found is_login)
                              (found_list "repositories" body rs_found is_rs)
                              (found_list "issues" body is_found is_is)
                              (found_list "pull_requests" body ps_found is_ps) rs_pass is_pass
                              ps_pass))

    -- A snapshot that the validation of a run accepts passes the public boundary, which returns it as
    -- it is.
    pub validate_snapshot-passes :
        (raw : Value) (s : Snapshot)
        → validate_snapshot rules raw ≡ ok s
        → validate_public_boundary casefold float_is_one raw ≡ ok raw
    validate_snapshot-passes raw s accepted = (validate_snapshot-boundary raw).at s accepted
