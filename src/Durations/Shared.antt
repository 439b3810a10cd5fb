-- ===== src/Durations/Shared.antt =====
-- scripts/ci/compare_durations.py: the verdict depends on the tests that both builds have.
use ghpulse.Prelude.{
  ℕ, String, ◌≡◌, refl, sym, ap, ◌∙◌, false, none, List, [], ◌∷◌, arith, inl, inr, str_eq, eq_iff,
  ◌==◌, Bool-cases,
}
use ghpulse.Prelude.Dict.{Dict, lookup, insert, lookup-insert}
use ghpulse.Durations.{shared_times, total_was, compare_shared, compare, Budget, is_over, exit_code}

lookup-none_head :
    (n k : String) (was : ℕ) (base : Dict ℕ)
    → lookup n ((k, was) ∷ base) ≡ none
    → (str_eq k n ≡ false) × (lookup n base ≡ none)
unfolding lookup
lookup-none_head n k was base h = ground arith

module _ (n : String) (t : ℕ) where
  lookup-insert_other :
      (k : String) (d : Dict ℕ) → str_eq k n ≡ false → lookup k (insert n t d) ≡ lookup k d
  lookup-insert_other k d h = lookup-insert n k t d ∙ ground (arith, eq_iff n k, eq_iff k n)

  shared_times-insert_head :
      (base head : Dict ℕ)
      → lookup n base ≡ none
      → shared_times base (insert n t head) ≡ shared_times base head
  unfolding shared_times
  shared_times-insert_head [] head missing = refl
  shared_times-insert_head ((k, was) ∷ base) head missing =
      let (other, rest) = lookup-none_head n k was base missing in
      rw (shared_times, lookup-insert_other k head other, shared_times-insert_head base head rest)
        refl

  shared_times-insert_base :
      (base head : Dict ℕ)
      → lookup n head ≡ none
      → shared_times (insert n t base) head ≡ shared_times base head
  unfolding shared_times insert
  shared_times-insert_base [] head missing = rw missing refl
  shared_times-insert_base ((k, was) ∷ base) head missing = elim (Bool-cases (str_eq k n)) [
    | inl e ↦
        let same_name = (eq_iff k n).0 e in
        let missing_k = ap (λ (m : String). lookup m head) same_name ∙ missing in
        rw (e, missing, missing_k) refl
    | inr e ↦ rw (e, shared_times-insert_base base head missing) refl
  ]

-- The exit code is a function of the shared times.
verdict : Budget → List (ℕ × ℕ) → ℕ
verdict budget pairs = exit_code budget (compare_shared [] [] pairs)

exit_code-compare :
    (budget : Budget) (base head : Dict ℕ)
    → exit_code budget (compare base head) ≡ verdict budget (shared_times base head)
unfolding compare verdict exit_code is_over
exit_code-compare budget base head = go (shared_times base head)
  where
    go :
        (pairs : List (ℕ × ℕ))
        → exit_code budget (compare_shared base head pairs)
          ≡ exit_code budget (compare_shared [] [] pairs)
    go [] = refl
    go (pair ∷ pairs) = elim (Bool-cases (total_was (pair ∷ pairs) == 0)) [
      | inl e ↦ rw e refl
      | inr e ↦ rw e refl
    ]

lookup-insert_missing :
    (n m : String) (t : ℕ) (d : Dict ℕ)
    → str_eq n m ≡ false
    → lookup m d ≡ none
    → lookup m (insert n t d) ≡ none
lookup-insert_missing n m t d other missing = lookup-insert n m t d ∙ rw (other, missing) refl

-- Tests that one build lacks cannot move the exit code: adding one to the head that the base lacks,
-- and another to the base that the head lacks, or changing its time there, leaves it as it was.
pub exit_code-compare-insert :
    (budget : Budget) (base head : Dict ℕ) (n m : String) (t u : ℕ)
    → str_eq n m ≡ false
    → lookup n base ≡ none
    → lookup m head ≡ none
    → exit_code budget (compare (insert m u base) (insert n t head))
      ≡ exit_code budget (compare base head)
exit_code-compare-insert budget base head n m t u other new_head new_base =
    exit_code-compare budget (insert m u base) (insert n t head)
    ∙ ap (verdict budget) (
        shared_times-insert_base m u base (insert n t head)
          (lookup-insert_missing n m t head other new_base)
        ∙ shared_times-insert_head n t base head new_head)
    ∙ sym (exit_code-compare budget base head)
