-- ===== src/Snapshot/Sound/Common.antt =====
-- backend/ingest.py, `validate_item`: the part that both kinds of item share.
use ghpulse.Prelude.{
  String, ◌≡◌, false, Option, some, List, contains, arith, ok, Ensures, Ensures-bind, Ensures-guard,
  Ensures-ok,
}
use ghpulse.Prelude.Int.{ℤ, pos, ◌≤ℤ◌}
use ghpulse.Prelude.Dict.{lookup}
use ghpulse.Snapshot.{Value, Fields, TextRules, Item, Repository}
use ghpulse.Snapshot.Validate.{ById, require_number, require_repository, validate_common}

require_number-pos : (v : Value) {n : ℤ} → require_number v ≡ ok n → pos 1 ≤ℤ n
unfolding require_number
require_number-pos v e = ground arith

require_repository-found :
    (o : Option Repository) {r : Repository} → require_repository o ≡ ok r → o ≡ some r
unfolding require_repository
require_repository-found o e = ground arith

module _ (rules : TextRules) (fields : List String) (account_key : String) (by_id : ById)
    (seen : List String) where
  pub record IsCommon (c : Item) : Type 0 where
    pub unseen : contains c.node_id seen ≡ false
    pub known : (r : Repository) × (lookup c.repository_id by_id ≡ some r)
    pub positive : pos 1 ≤ℤ c.number

  pub validate_common-IsCommon :
      (item : Fields) → Ensures IsCommon (validate_common rules fields account_key by_id seen item)
  unfolding validate_common
  validate_common-IsCommon item = Ensures-guard _ _ λ _. Ensures-bind λ _ _.
      Ensures-bind λ node_id _. Ensures-guard _ _ λ fresh. Ensures-bind λ _ _.
        Ensures-bind λ repository_id _. Ensures-bind λ repo found. Ensures-bind λ _ _.
          Ensures-bind λ _ _. Ensures-guard _ _ λ _. Ensures-bind λ _ _. Ensures-bind λ _ _.
            Ensures-guard _ _ λ _. Ensures-bind λ _ _. Ensures-guard _ _ λ _. Ensures-bind λ _ _.
              Ensures-guard _ _ λ _. Ensures-bind λ v _. Ensures-bind λ number positive.
                Ensures-bind λ _ _. Ensures-bind λ _ _. Ensures-bind λ _ _. Ensures-bind λ _ _.
                  Ensures-bind λ _ _. Ensures-bind λ _ _. Ensures-bind λ _ _. Ensures-bind λ _ _.
                    Ensures-bind λ _ _. Ensures-bind λ _ _. Ensures-bind λ _ _. Ensures-bind λ _ _.
                      Ensures-ok _ _ (record {
                        unseen = fresh;
                        known = (repo, require_repository-found _ found);
                        positive = require_number-pos v positive;
                      })
