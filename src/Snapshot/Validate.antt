-- ===== src/Snapshot/Validate.antt =====
-- backend/ingest.py, `_validate_snapshot`: the checks in the order of the source. A check that fails
-- raises, so nothing that an earlier record left in `seen_ids` survives it.
use ghpulse.Prelude.{
  ℕ, String, Bool, false, not, ◌&&◌, ◌||◌, Option, none, some, List, [], ◌∷◌, contains, str_eq, ltb,
  is_none, if◌then◌else◌, ok, err, ◌>>=◌, ◌>>◌, raise_if,
}
use ghpulse.Prelude.Int.{ℤ, pos, ltb_ℤ, leb_ℤ}
use ghpulse.Prelude.Dict.{Dict, lookup, insert}
use ghpulse.Snapshot.{
  Value, null, int, str, Items, nil, cons, Fields, TextRules, invalid_fields, unsupported_schema,
  duplicate_node_id, private_repository, owned_repository, absent_repository, private_item,
  owned_item, ownership_mismatch, url_mismatch, bad_number, bad_reason, bad_state,
  inconsistent_state, Repository, Item, Issue, PullRequest, Snapshot,
}
use ghpulse.Snapshot.Require.{
  Check, get_field, require_dict, require_list, require_string, require_bool, has_exactly,
  text_length, parse_timestamp, parse_nullable,
}

abbrev pub max_state_reason_length : ℕ
max_state_reason_length = 64

-- The names seen so far, the latest first, and the repositories by their identifier.
abbrev pub ById : Type 0
ById = Dict Repository

-- `x == s` for a value `x` of any type and a text `s`
abbrev is_text : Value → String → Bool
is_text (str t) s = str_eq t s
is_text _ s = false

-- `type(v) is int and v == 1`
unfoldable pub is_version_one : Value → Bool
is_version_one (int n) = leb_ℤ n (pos 1) && leb_ℤ (pos 1) n
is_version_one _ = false

unfoldable pub require_number : Value → Check ℤ
require_number (int n) = if ltb_ℤ n (pos 1) then err bad_number else ok n
require_number _ = err bad_number

-- `d.get(k)`, and the raise where that is `None`
unfoldable pub require_repository : Option Repository → Check Repository
require_repository none = err absent_repository
require_repository (some r) = ok r

abbrev top_fields : List String
top_fields =
    "schema_version" ∷ "generated_at" ∷ "account" ∷ "repositories" ∷ "issues" ∷ "pull_requests" ∷ []

abbrev pub common_fields : List String
common_fields =
    "node_id" ∷ "repository_id" ∷ "repository" ∷ "owner" ∷ "repository_url" ∷ "is_private"
    ∷ "number" ∷ "url" ∷ "created_at" ∷ "updated_at" ∷ "closed_at" ∷ "state" ∷ []

abbrev pub issue_fields : List String
issue_fields = "state_reason" ∷ common_fields

abbrev pub pull_request_fields : List String
pull_request_fields = "merged_at" ∷ "merged" ∷ common_fields

-- `reason in {…}`, where `None` may be a member
abbrev pub reason_is : String → Option String → Bool
reason_is s none = false
reason_is s (some reason) = str_eq reason s

-- `repositories_by_id[node_id] = normal`, for each record in turn
unfoldable pub index_by_id : List Repository → ById → ById
index_by_id [] by_id = by_id
index_by_id (r ∷ rs) by_id = index_by_id rs (insert r.node_id r by_id)

-- The identifiers of a list, added to those seen; the latest stands first.
abbrev pub seen_after {ℓ} : {A : Type ℓ} → (A → String) → List A → List String → List String
seen_after f [] seen = seen
seen_after f (x ∷ xs) seen = seen_after f xs (f x ∷ seen)

module _ (rules : TextRules) where
  open rules use {casefold, is_blank}

  unfoldable pub validate_repository : String → List String → Value → Check Repository
  validate_repository account_key seen raw = do
    repo ← require_dict raw
    raise_if (not (has_exactly repo ("id" ∷ "nameWithOwner" ∷ "url" ∷ "isPrivate" ∷ "owner" ∷ [])))
        invalid_fields
    node_id ← require_string (← get_field "id" repo)
    raise_if (contains node_id seen) (duplicate_node_id node_id)
    is_private ← require_bool (← get_field "isPrivate" repo)
    raise_if is_private private_repository
    owner ← require_dict (← get_field "owner" repo)
    raise_if (not (has_exactly owner ("login" ∷ []))) invalid_fields
    owner_login ← require_string (← get_field "login" owner)
    raise_if (str_eq (casefold owner_login) account_key) owned_repository
    name ← require_string (← get_field "nameWithOwner" repo)
    url ← require_string (← get_field "url" repo)
    ok (record { node_id = node_id; name_with_owner = name; owner_login = owner_login; url = url })

  -- The loop over `body["repositories"]`.
  unfoldable pub validate_repositories : String → List String → Items → Check (List Repository)
  validate_repositories account_key seen nil = ok []
  validate_repositories account_key seen (cons raw rest) = do
    r ← validate_repository account_key seen raw
    rs ← validate_repositories account_key (r.node_id ∷ seen) rest
    ok (r ∷ rs)

  -- `validate_item` up to the branch on `kind`.
  unfoldable pub validate_common : List String → String → ById → List String → Fields → Check Item
  unfolding require_number require_repository
  validate_common fields account_key by_id seen item = do
    raise_if (not (has_exactly item fields)) invalid_fields
    node_id ← require_string (← get_field "node_id" item)
    raise_if (contains node_id seen) (duplicate_node_id node_id)
    repository_id ← require_string (← get_field "repository_id" item)
    repo ← require_repository (lookup repository_id by_id)
    is_private ← require_bool (← get_field "is_private" item)
    raise_if is_private private_item
    owner ← require_string (← get_field "owner" item)
    raise_if (str_eq (casefold owner) account_key) owned_item
    repository ← get_field "repository" item
    raise_if (not (str_eq owner repo.owner_login) || not (is_text repository repo.name_with_owner))
        ownership_mismatch
    repository_url ← get_field "repository_url" item
    raise_if (not (is_text repository_url repo.url)) url_mismatch
    number ← require_number (← get_field "number" item)
    _ ← require_string repository
    _ ← require_string repository_url
    url ← require_string (← get_field "url" item)
    state ← require_string (← get_field "state" item)
    created_at ← parse_timestamp rules (← get_field "created_at" item)
    updated_at ← parse_timestamp rules (← get_field "updated_at" item)
    closed_at ← parse_nullable rules (← get_field "closed_at" item)
    ok (record {
      node_id = node_id;
      repository_id = repository_id;
      number = number;
      url = url;
      created_at = created_at;
      updated_at = updated_at;
      closed_at = closed_at;
      state = state;
    })

  -- A `state_reason` that is not `None`.
  unfoldable pub validate_given_reason : Value → Check (Option String)
  validate_given_reason v = do
    reason ← require_string v
    raise_if (ltb max_state_reason_length (text_length reason) || is_blank reason) bad_reason
    ok (some reason)

  unfoldable pub validate_reason : Value → Check (Option String)
  validate_reason null = ok none
  validate_reason v = validate_given_reason v

  unfoldable pub validate_issue : String → ById → List String → Value → Check Issue
  validate_issue account_key by_id seen raw = do
    item ← require_dict raw
    common ← validate_common issue_fields account_key by_id seen item
    reason ← validate_reason (← get_field "state_reason" item)
    let is_open = str_eq common.state "OPEN"
    let is_closed = str_eq common.state "CLOSED"
    raise_if (not (is_open || is_closed)) bad_state
    raise_if
        (is_open
          && (not (is_none common.closed_at)
              || (reason_is "COMPLETED" reason || reason_is "NOT_PLANNED" reason)))
        inconsistent_state
    raise_if
        (is_closed && (is_none common.closed_at || (is_none reason || reason_is "REOPENED" reason)))
        inconsistent_state
    ok (record { item = common; state_reason = reason })

  unfoldable pub validate_pull_request : String → ById → List String → Value → Check PullRequest
  validate_pull_request account_key by_id seen raw = do
    item ← require_dict raw
    common ← validate_common pull_request_fields account_key by_id seen item
    merged ← require_bool (← get_field "merged" item)
    merged_at ← parse_nullable rules (← get_field "merged_at" item)
    let is_open = str_eq common.state "OPEN"
    let is_closed = str_eq common.state "CLOSED"
    let is_merged = str_eq common.state "MERGED"
    let unclosed = is_none common.closed_at
    let unmerged = is_none merged_at
    raise_if (not (is_open || (is_closed || is_merged))) bad_state
    raise_if (is_open && (merged || (not unclosed || not unmerged))) inconsistent_state
    raise_if (is_closed && (merged || (unclosed || not unmerged))) inconsistent_state
    raise_if (is_merged && (not merged || (unclosed || unmerged))) inconsistent_state
    ok (record { item = common; merged_at = merged_at; merged = merged })

  unfoldable pub validate_issues : String → ById → List String → Items → Check (List Issue)
  validate_issues account_key by_id seen nil = ok []
  validate_issues account_key by_id seen (cons raw rest) = do
    i ← validate_issue account_key by_id seen raw
    is ← validate_issues account_key by_id (i.item.node_id ∷ seen) rest
    ok (i ∷ is)

  unfoldable pub validate_pull_requests :
      String → ById → List String → Items → Check (List PullRequest)
  validate_pull_requests account_key by_id seen nil = ok []
  validate_pull_requests account_key by_id seen (cons raw rest) = do
    p ← validate_pull_request account_key by_id seen raw
    ps ← validate_pull_requests account_key by_id (p.item.node_id ∷ seen) rest
    ok (p ∷ ps)

  unfoldable pub validate_snapshot : Value → Check Snapshot
  unfolding is_version_one
  validate_snapshot snapshot = do
    body ← require_dict snapshot
    raise_if (not (has_exactly body top_fields)) invalid_fields
    version ← get_field "schema_version" body
    raise_if (not (is_version_one version)) unsupported_schema
    source_at ← parse_timestamp rules (← get_field "generated_at" body)
    account ← require_dict (← get_field "account" body)
    raise_if (not (has_exactly account ("login" ∷ []))) invalid_fields
    login ← require_string (← get_field "login" account)
    raw_repositories ← require_list (← get_field "repositories" body)
    raw_issues ← require_list (← get_field "issues" body)
    raw_pull_requests ← require_list (← get_field "pull_requests" body)
    let account_key = casefold login
    repositories ← validate_repositories account_key [] raw_repositories
    let by_id = index_by_id repositories []
    let seen = seen_after (λ (r : Repository). r.node_id) repositories []
    issues ← validate_issues account_key by_id seen raw_issues
    let seen' = seen_after (λ (i : Issue). i.item.node_id) issues seen
    pull_requests ← validate_pull_requests account_key by_id seen' raw_pull_requests
    ok (record {
      source_at = source_at;
      login = login;
      repositories = repositories;
      issues = issues;
      pull_requests = pull_requests;
    })
