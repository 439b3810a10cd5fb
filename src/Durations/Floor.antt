-- ===== src/Durations/Floor.antt =====
-- scripts/ci/compare_durations.py, `fold_rounds`: the floor of a test's times over the rounds.
use ghpulse.Prelude.{
  ℕ, ◌≤◌, String, ◌≡◌, refl, sym, ap, ◌∙◌, false, Option, none, some, List, [], ◌∷◌, ◌⊎◌, inl, inr,
  arith, All, leb, str_eq, eq_iff, ok, >>=-eq-ok, Option-cases, Bool-cases,
}
use ghpulse.Prelude.Dict.{Dict, lookup}
use ghpulse.Durations.{
  ComparisonError, Report, parse_all, smaller, min_over, keep_time, non_empty, common_times,
  fold_parsed, fold_rounds,
}

-- Some member of a list.
abbrev pub Any {ℓ} : {A : Type ℓ} → (A → Type 0) → List A → Type 0
Any P [] = ⊥
Any P (x ∷ xs) = P x ⊎ Any P xs

-- None, where a round lacks the test; else a time of the test in one round, and at most that in any.
abbrev pub IsFloor : String → List (Dict ℕ) → Option ℕ → Type 0
IsFloor n rounds none = Any (λ round. lookup n round ≡ none) rounds
IsFloor n rounds (some t) =
    All (λ round. (u : ℕ) × (lookup n round ≡ some u) × (t ≤ u)) rounds
    × Any (λ round. lookup n round ≡ some t) rounds

module _ (n : String) where
  -- What the loop over the rounds makes of a time: the same, with the time it starts from.
  abbrev IsLeast : ℕ → List (Dict ℕ) → Option ℕ → Type 0
  IsLeast t rounds none = Any (λ round. lookup n round ≡ none) rounds
  IsLeast t rounds (some m) =
      (m ≤ t)
      × All (λ round. (u : ℕ) × (lookup n round ≡ some u) × (m ≤ u)) rounds
      × ((m ≡ t) ⊎ Any (λ round. lookup n round ≡ some m) rounds)

  IsLeast-round :
      (t u : ℕ) (round : Dict ℕ) (rounds : List (Dict ℕ)) (r : Option ℕ)
      → lookup n round ≡ some u
      → IsLeast (smaller t u) rounds r
      → IsLeast t (round ∷ rounds) r
  IsLeast-round t u round rounds none found missing = inr missing
  IsLeast-round t u round rounds (some m) found (least, rest, met) = (
    ground arith,
    ((u, found, ground arith), rest),
    elim met [
      | inl e ↦ elim (Bool-cases (leb t u)) [
        | inl h ↦ inl (ground arith)
        | inr h ↦ inr (inl (found ∙ ap some (ground arith)))
      ]
      | inr later ↦ inr (inr later)
    ],
  )

  min_over_missing :
      (t : ℕ) (round : Dict ℕ) (rounds : List (Dict ℕ))
      → lookup n round ≡ none
      → min_over n t (round ∷ rounds) ≡ none
  unfolding min_over
  min_over_missing t round rounds missing = rw (min_over, missing) refl

  min_over_found :
      (t u : ℕ) (round : Dict ℕ) (rounds : List (Dict ℕ))
      → lookup n round ≡ some u
      → min_over n t (round ∷ rounds) ≡ min_over n (smaller t u) rounds
  unfolding min_over
  min_over_found t u round rounds found = rw (min_over, found) refl

  min_over-IsLeast : (t : ℕ) (rounds : List (Dict ℕ)) → IsLeast t rounds (min_over n t rounds)
  unfolding min_over
  min_over-IsLeast t [] = (omega arith, tt, inl refl)
  min_over-IsLeast t (round ∷ rounds) = elim (Option-cases (lookup n round)) [
    | inl missing ↦ rw (min_over_missing t round rounds missing) (inl missing)
    | inr (u, found) ↦ rw (min_over_found t u round rounds found) (
        IsLeast-round t u round rounds (min_over n (smaller t u) rounds) found
          (min_over-IsLeast (smaller t u) rounds))
  ]

  min_over-none :
      (t u : ℕ) (rounds : List (Dict ℕ)) → min_over n t rounds ≡ none → min_over n u rounds ≡ none
  unfolding min_over
  min_over-none t u [] e = cc e
  min_over-none t u (round ∷ rounds) e = elim (Option-cases (lookup n round)) [
    | inl missing ↦ min_over_missing u round rounds missing
    | inr (v, found) ↦
        min_over_found u v round rounds found
        ∙ min_over-none (smaller t v) (smaller u v) rounds
            (sym (min_over_found t v round rounds found) ∙ e)
  ]

  -- The time that a fold over the rounds has for the test, from the first round's.
  abbrev folded : Option ℕ → List (Dict ℕ) → Option ℕ
  folded none rounds = none
  folded (some t) rounds = min_over n t rounds

  folded-none :
      (t : ℕ) (found : Option ℕ) (rounds : List (Dict ℕ))
      → min_over n t rounds ≡ none
      → folded found rounds ≡ none
  folded-none t none rounds e = refl
  folded-none t (some u) rounds e = min_over-none t u rounds e

  lookup-keep_time :
      (t : ℕ) (found : Option ℕ) (rounds : List (Dict ℕ)) (times : Dict ℕ)
      → lookup n times ≡ folded found rounds
      → lookup n (keep_time n (min_over n t rounds) times) ≡ min_over n t rounds
  unfolding lookup
  lookup-keep_time t found rounds times e = elim (Option-cases (min_over n t rounds)) [
    | inl missing ↦ rw missing (e ∙ folded-none t found rounds missing)
    | inr (m, least) ↦ rw (least, (eq_iff n n).1 refl) refl
  ]

  lookup-keep_time_other :
      (k : String) (r : Option ℕ) (times : Dict ℕ)
      → str_eq k n ≡ false
      → lookup n (keep_time k r times) ≡ lookup n times
  unfolding lookup
  lookup-keep_time_other k none times h = refl
  lookup-keep_time_other k (some t) times h = rw h refl

  lookup-common_times :
      (first : Dict ℕ) (rounds : List (Dict ℕ))
      → lookup n (common_times first rounds) ≡ folded (lookup n first) rounds
  unfolding common_times lookup
  lookup-common_times [] rounds = refl
  lookup-common_times ((k, t) ∷ first) rounds = elim (Bool-cases (str_eq k n)) [
    | inl e ↦
        let same_name = (eq_iff k n).0 e in
        rw (e, same_name)
          (lookup-keep_time t (lookup n first) rounds (common_times first rounds)
            (lookup-common_times first rounds))
    | inr e ↦ rw e (
        lookup-keep_time_other k (min_over k t rounds) (common_times first rounds) e
        ∙ lookup-common_times first rounds)
  ]

  folded-IsFloor :
      (first : Dict ℕ) (rounds : List (Dict ℕ)) (found : Option ℕ)
      → lookup n first ≡ found
      → IsFloor n (first ∷ rounds) (folded found rounds)
  folded-IsFloor first rounds none e = inl e
  folded-IsFloor first rounds (some t) e =
      least_of_all t (min_over n t rounds) e (min_over-IsLeast t rounds)
    where
      least_of_all :
          (t : ℕ) (r : Option ℕ)
          → lookup n first ≡ some t
          → IsLeast t rounds r
          → IsFloor n (first ∷ rounds) r
      least_of_all t none e missing = inr missing
      least_of_all t (some m) e (least, rest, inl met) =
          (((t, e, least), rest), inl (e ∙ ap some (sym met)))
      least_of_all t (some m) e (least, rest, inr met) = (((t, e, least), rest), inr met)

pub non_empty-ok : (times d : Dict ℕ) (e : ComparisonError) → non_empty times e ≡ ok d → times ≡ d
non_empty-ok [] d e h = cc h
non_empty-ok (entry ∷ times) d e h = cc h

pub fold_parsed-IsFloor :
    (rounds : List (Dict ℕ)) (d : Dict ℕ) (n : String)
    → fold_parsed rounds ≡ ok d
    → IsFloor n rounds (lookup n d)
unfolding fold_parsed
fold_parsed-IsFloor [] d n h = cc h
fold_parsed-IsFloor (first ∷ rounds) d n h =
    let same_times = non_empty-ok (common_times first rounds) d _ h in
    rw (← same_times, lookup-common_times n first rounds)
      (folded-IsFloor n first rounds (lookup n first) refl)

-- Over the rounds that the reports parse to.
pub fold_rounds-of_rounds :
    (read_seconds : String → Option ℕ) (reports : List Report) (d : Dict ℕ) (n : String)
    → fold_rounds read_seconds reports ≡ ok d
    → (rounds : List (Dict ℕ)) × (parse_all read_seconds reports ≡ ok rounds)
      × IsFloor n rounds (lookup n d)
unfolding fold_rounds
fold_rounds-of_rounds read_seconds reports d n h =
    let (rounds, parsed, folded) = >>=-eq-ok _ _ h in
    (rounds, parsed, fold_parsed-IsFloor rounds d n folded)
