-- ===== src/Ingest/Rows/Laws.antt =====
-- backend/ingest.py: what one upsert leaves in a row, and what `last_seen_at` becomes.
use ghpulse.Prelude.{
  String, ◌≡◌, refl, sym, Bool, false, not, ◌||◌, Option, none, some, List, [], ◌∷◌, arith, str_eq,
  eq_iff, contains, if◌then◌else◌, Bool-cases, inl, inr,
}
use ghpulse.Prelude.Dict.{Dict, lookup}
use ghpulse.Prelude.Equality.{Eq, same, bool_eq, int_eq, string_eq, option_eq}
use ghpulse.Snapshot.{Time, Repository}
use ghpulse.Store.{RepositoryRow, IssueRow, PullRequestRow}
use ghpulse.Store.Table.Laws.{stored}
use ghpulse.Ingest.Rows.{
  repository_is_distinct, repository_row, repository_upsert, issue_is_distinct,
  pull_request_is_distinct, refresh,
}

same_eq {ℓ} : {A : Type ℓ} ⦃e : Eq A⦄ (a b : A) → not (same a b) ≡ false → a ≡ b
same_eq ⦃e⦄ a b h = (e.eqb_iff a b).0 (ground arith)

column {ℓ} :
    {A : Type ℓ} ⦃e : Eq A⦄ (a b : A) (rest : Bool)
    → (not (same a b) || rest) ≡ false
    → (a ≡ b) × (rest ≡ false)
column a b rest h = (same_eq a b (ground arith), ground arith)

-- A stored row that is not distinct from the proposed one is that row.
pub issue_same : (old new : IssueRow) → issue_is_distinct old new ≡ false → old ≡ new
unfolding issue_is_distinct
issue_same old new h =
    let h1 = column old.repository_id new.repository_id _ h in
    let h2 = column old.number new.number _ h1.1 in
    let h3 = column old.url new.url _ h2.1 in
    let h4 = column old.is_private new.is_private _ h3.1 in
    let h5 = column old.created_at new.created_at _ h4.1 in
    let h6 = column old.updated_at new.updated_at _ h5.1 in
    let h7 = column old.closed_at new.closed_at _ h6.1 in
    let h8 = column old.state new.state _ h7.1 in
    λ i. record {
      repository_id = h1.0 i;
      number = h2.0 i;
      url = h3.0 i;
      is_private = h4.0 i;
      created_at = h5.0 i;
      updated_at = h6.0 i;
      closed_at = h7.0 i;
      state = h8.0 i;
      state_reason = same_eq old.state_reason new.state_reason h8.1 i;
    }

pub pull_request_same :
    (old new : PullRequestRow) → pull_request_is_distinct old new ≡ false → old ≡ new
unfolding pull_request_is_distinct
pull_request_same old new h =
    let h1 = column old.repository_id new.repository_id _ h in
    let h2 = column old.number new.number _ h1.1 in
    let h3 = column old.url new.url _ h2.1 in
    let h4 = column old.is_private new.is_private _ h3.1 in
    let h5 = column old.created_at new.created_at _ h4.1 in
    let h6 = column old.updated_at new.updated_at _ h5.1 in
    let h7 = column old.closed_at new.closed_at _ h6.1 in
    let h8 = column old.merged_at new.merged_at _ h7.1 in
    let h9 = column old.state new.state _ h8.1 in
    λ i. record {
      repository_id = h1.0 i;
      number = h2.0 i;
      url = h3.0 i;
      is_private = h4.0 i;
      created_at = h5.0 i;
      updated_at = h6.0 i;
      closed_at = h7.0 i;
      merged_at = h8.0 i;
      state = h9.0 i;
      merged = same_eq old.merged new.merged h9.1 i;
    }

-- What a repository's row is after a run that observes it: the proposed row, with the time of its
-- first sighting.
abbrev pub kept : RepositoryRow → Option RepositoryRow → RepositoryRow
kept new none = new
kept new (some old) = record new { first_seen_at = old.first_seen_at }

abbrev pub kept_if : Option RepositoryRow → Option RepositoryRow → Option RepositoryRow
kept_if none found = none
kept_if (some new) found = some (kept new found)

repository_same :
    (at : Time) (old new : RepositoryRow)
    → repository_is_distinct old new ≡ false
    → new.last_seen_at ≡ at
    → record old { last_seen_at = at } ≡ kept new (some old)
unfolding repository_is_distinct
repository_same at old new h seen =
    let h1 = column old.name_with_owner new.name_with_owner _ h in
    let h2 = column old.owner_login new.owner_login _ h1.1 in
    let h3 = column old.url new.url _ h2.1 in
    let h4 = column old.is_private new.is_private _ h3.1 in
    λ i. record {
      name_with_owner = h1.0 i;
      owner_login = h2.0 i;
      url = h3.0 i;
      is_private = h4.0 i;
      is_external = same_eq old.is_external new.is_external h4.1 i;
      first_seen_at = old.first_seen_at;
      last_seen_at = sym seen i;
    }

-- After the `UPDATE` of `last_seen_at`, written or not, the row is the kept one.
pub refreshed :
    (at : Time) (r : Repository) (found : Option RepositoryRow)
    → record (stored (repository_upsert at) (repository_row at r) found) { last_seen_at = at }
      ≡ kept (repository_row at r) found
refreshed at r none = refl
refreshed at r (some old) = elim (Bool-cases (repository_is_distinct old (repository_row at r))) [
  | inl d ↦ rw d
  | inr d ↦ rw d (repository_same at old (repository_row at r) d refl)
]

abbrev pub touched : Time → Bool → Option RepositoryRow → Option RepositoryRow
touched at b none = none
touched at b (some r) = some (if b then record r { last_seen_at = at } else r)

pub lookup-refresh :
    (at : Time) (seen : List String) (k : String) (t : Dict RepositoryRow)
    → lookup k (refresh at seen t) ≡ touched at (contains k seen) (lookup k t)
unfolding refresh lookup
lookup-refresh at seen k [] = refl
lookup-refresh at seen k ((j, r) ∷ t) = elim (Bool-cases (str_eq j k)) [
  | inl e ↦ rw e (ground (arith, eq_iff j k))
  | inr e ↦ rw e (lookup-refresh at seen k t)
]
