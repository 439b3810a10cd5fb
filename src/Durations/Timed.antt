-- ===== src/Durations/Timed.antt =====
-- scripts/ci/compare_durations.py, `parse_junit` and `fold_rounds`: the floor of a test's times, told
-- by the testcases of the reports.
use ghpulse.Prelude.{
  ℕ, ◌≤◌, String, ◌≡◌, refl, ◌∙◌, true, false, ◌||◌, Option, none, some, List, [], ◌∷◌, ◌⊎◌, inl,
  inr, arith, All, contains, str_eq, eq_iff, ok, >>=-eq-ok, Bool-cases,
}
use ghpulse.Prelude.Dict.{Dict, lookup, lookup-insert, lookup-empty}
use ghpulse.Durations.{
  Testcase, Report, node_id, is_not_passed, add_time, seconds_of, add_case, add_cases, parse_junit,
  parse_all, fold_rounds,
}
use ghpulse.Durations.Floor.{Any, IsFloor, non_empty-ok, fold_rounds-of_rounds}

-- A child of a testcase that does not tell a failure, an error or a skip.
abbrev pub IsOrdinary : String → Type 0
IsOrdinary tag =
    (str_eq tag "failure" ≡ false) × (str_eq tag "error" ≡ false) × (str_eq tag "skipped" ≡ false)

module _ (read_seconds : String → Option ℕ) (n : String) where
  -- A testcase of the test that passed, with a time that reads.
  pub record IsTimed (t : ℕ) (case : Testcase) : Type 0 where
    pub named : node_id case ≡ n
    pub passed : All IsOrdinary case.children
    pub timed : (raw : String) × (case.time ≡ some raw) × (read_seconds raw ≡ some t)

  abbrev pub IsUntimed : Testcase → Type 0
  IsUntimed case = (t : ℕ) → IsTimed t case → ⊥

  -- The last such testcase has this time.
  pub data LastTime (t : ℕ) : List Testcase → Type 0 where
    here :
        {case : Testcase} {cases : List Testcase}
        → IsTimed t case
        → All IsUntimed cases
        → LastTime t (case ∷ cases)
    later : {cases : List Testcase} (case : Testcase) → LastTime t cases → LastTime t (case ∷ cases)

  all_plain :
      (tags : List String)
      → (contains "failure" tags || (contains "error" tags || contains "skipped" tags)) ≡ false
      → All IsOrdinary tags
  all_plain [] h = tt
  all_plain (tag ∷ tags) h = (ground arith, all_plain tags (ground arith))

  told_otherwise :
      (tags : List String)
      → (contains "failure" tags || (contains "error" tags || contains "skipped" tags)) ≡ true
      → All IsOrdinary tags
      → ⊥
  told_otherwise [] h a = cc h
  told_otherwise (tag ∷ tags) h (o, a) = told_otherwise tags (ground (arith, o)) a

  read_time :
      (time : Option String) (t : ℕ)
      → seconds_of read_seconds time ≡ some t
      → (raw : String) × (time ≡ some raw) × (read_seconds raw ≡ some t)
  read_time none t e = cc e
  read_time (some raw) t e = (raw, refl, e)

  -- What one testcase does to the time of the test.
  abbrev Adds : Testcase → Option ℕ → Option ℕ → Type 0
  Adds case before after =
      ((t : ℕ) × IsTimed t case × (after ≡ some t)) ⊎ (IsUntimed case × (after ≡ before))

  module _ (case : Testcase) (times : Dict ℕ) where
    passed-Adds :
        (seconds : Option ℕ)
        → All IsOrdinary case.children
        → seconds_of read_seconds case.time ≡ seconds
        → Adds case (lookup n times) (lookup n (add_time (node_id case) seconds times))
    passed-Adds none passed read = inr (
      λ t timed.
          let (raw, given, reads) = timed.timed in
          let found : seconds_of read_seconds case.time ≡ some t = rw given reads in
          cc (read, found),
      refl,
    )
    passed-Adds (some t) passed read = elim (Bool-cases (str_eq (node_id case) n)) [
      | inl e ↦ inl (
        t,
        record {
          named = (eq_iff (node_id case) n).0 e;
          passed = passed;
          timed = read_time case.time t read;
        },
        rw lookup-insert (rw e refl),
      )
      | inr e ↦ inr (
        λ u timed. let e' = (eq_iff (node_id case) n).1 timed.named in cc (e, e'),
        rw lookup-insert (rw e refl),
      )
    ]

    add_case-Adds : Adds case (lookup n times) (lookup n (add_case read_seconds case times))
    unfolding add_case is_not_passed
    add_case-Adds = elim (Bool-cases (is_not_passed case)) [
      | inl e ↦ rw e (inr (λ t timed. told_otherwise case.children e timed.passed, refl))
      | inr e ↦ rw e (passed-Adds _ (all_plain case.children e) refl)
    ]

  -- What a list of testcases makes of the time of the test.
  abbrev Reads : List Testcase → Option ℕ → Option ℕ → Type 0
  Reads cases before after =
      ((t : ℕ) × LastTime t cases × (after ≡ some t)) ⊎ (All IsUntimed cases × (after ≡ before))

  Reads-first :
      (case : Testcase) (cases : List Testcase) (before between after : Option ℕ)
      → Adds case before between
      → Reads cases between after
      → Reads (case ∷ cases) before after
  Reads-first case cases before between after a (inl (t, last, e)) = inl (t, later case last, e)
  Reads-first case cases before between after (inl (t, timed, e)) (inr (rest, e')) =
      inl (t, here timed rest, e' ∙ e)
  Reads-first case cases before between after (inr (untimed, e)) (inr (rest, e')) =
      inr ((untimed, rest), e' ∙ e)

  add_cases-Reads :
      (cases : List Testcase) (times : Dict ℕ)
      → Reads cases (lookup n times) (lookup n (add_cases read_seconds cases times))
  unfolding add_cases
  add_cases-Reads [] times = inr (tt, refl)
  add_cases-Reads (case ∷ cases) times =
      Reads-first case cases _ (lookup n (add_case read_seconds case times)) _
        (add_case-Adds case times) (add_cases-Reads cases (add_case read_seconds case times))

  -- A report that has a time of the test, and one that has none.
  abbrev pub HasTime : ℕ → Report → Type 0
  HasTime t report = (cases : List Testcase) × (report ≡ some cases) × LastTime t cases

  abbrev pub HasNone : Report → Type 0
  HasNone report = (cases : List Testcase) × (report ≡ some cases) × All IsUntimed cases

  parse_junit-Reads :
      (report : Report) (round : Dict ℕ)
      → parse_junit read_seconds report ≡ ok round
      → ((t : ℕ) × HasTime t report × (lookup n round ≡ some t))
        ⊎ (HasNone report × (lookup n round ≡ none))
  unfolding parse_junit
  parse_junit-Reads none round e = cc e
  parse_junit-Reads (some cases) round e =
      let same_times = non_empty-ok (add_cases read_seconds cases []) round _ e in
      rw (← same_times) (elim (add_cases-Reads cases []) [
        | inl (t, last, found) ↦ inl (t, (cases, refl, last), found)
        | inr (untimed, missing) ↦ inr ((cases, refl, untimed), missing ∙ lookup-empty n)
      ])

  -- None, where a report has no time of the test; else the time of one report, and at most that of any.
  abbrev pub IsFloorOf : List Report → Option ℕ → Type 0
  IsFloorOf reports none = Any HasNone reports
  IsFloorOf reports (some t) =
      All (λ report. (u : ℕ) × HasTime u report × (t ≤ u)) reports × Any (HasTime t) reports

  -- The reports with the rounds they parse to.
  data Parsed : List Report → List (Dict ℕ) → Type 0 where
    all_parsed : Parsed [] []
    parsed :
        {reports : List Report} {rounds : List (Dict ℕ)} (report : Report) (round : Dict ℕ)
        → parse_junit read_seconds report ≡ ok round
        → Parsed reports rounds
        → Parsed (report ∷ reports) (round ∷ rounds)

  parse_all-Parsed :
      (reports : List Report) (rounds : List (Dict ℕ))
      → parse_all read_seconds reports ≡ ok rounds
      → Parsed reports rounds
  unfolding parse_all
  parse_all-Parsed [] rounds e = let none_left : [] ≡ rounds = cc e in rw (← none_left) all_parsed
  parse_all-Parsed (report ∷ reports) rounds e =
      let (round, first, rest) = >>=-eq-ok (parse_junit read_seconds report) _ e in
      let (later_rounds, others, done) = >>=-eq-ok (parse_all read_seconds reports) _ rest in
      let split : (round ∷ later_rounds) ≡ rounds = cc done in
      rw (← split) (parsed report round first (parse_all-Parsed reports later_rounds others))

  -- A property of rounds that tells one of reports.
  module _ (P : Dict ℕ → Type 0) (Q : Report → Type 0)
      (tells : (report : Report) (round : Dict ℕ)
        → parse_junit read_seconds report ≡ ok round
        → P round
        → Q report) where
    Any-Parsed :
        {reports : List Report} {rounds : List (Dict ℕ)}
        → Parsed reports rounds
        → Any P rounds
        → Any Q reports
    Any-Parsed all_parsed a = a
    Any-Parsed (parsed report round e rest) (inl p) = inl (tells report round e p)
    Any-Parsed (parsed report round e rest) (inr a) = inr (Any-Parsed rest a)

    All-Parsed :
        {reports : List Report} {rounds : List (Dict ℕ)}
        → Parsed reports rounds
        → All P rounds
        → All Q reports
    All-Parsed all_parsed a = tt
    All-Parsed (parsed report round e rest) (p, a) = (tells report round e p, All-Parsed rest a)

  tells_none :
      (report : Report) (round : Dict ℕ)
      → parse_junit read_seconds report ≡ ok round
      → lookup n round ≡ none
      → HasNone report
  tells_none report round e missing = elim (parse_junit-Reads report round e) [
    | inl (t, has, found) ↦ cc (found, missing)
    | inr (lacks, _) ↦ lacks
  ]

  tells_time :
      (t : ℕ) (report : Report) (round : Dict ℕ)
      → parse_junit read_seconds report ≡ ok round
      → lookup n round ≡ some t
      → HasTime t report
  tells_time t report round e found = elim (parse_junit-Reads report round e) [
    | inl (u, has, found') ↦ let same : u ≡ t = cc (found, found') in rw (← same) has
    | inr (_, missing) ↦ cc (found, missing)
  ]

  tells_bound :
      (t : ℕ) (report : Report) (round : Dict ℕ)
      → parse_junit read_seconds report ≡ ok round
      → (u : ℕ) × (lookup n round ≡ some u) × (t ≤ u)
      → (u : ℕ) × HasTime u report × (t ≤ u)
  tells_bound t report round e (u, found, least) = (u, tells_time u report round e found, least)

  IsFloor-reports :
      {reports : List Report} {rounds : List (Dict ℕ)} (folded : Option ℕ)
      → Parsed reports rounds
      → IsFloor n rounds folded
      → IsFloorOf reports folded
  IsFloor-reports none p missing = Any-Parsed _ _ tells_none p missing
  IsFloor-reports (some t) p (least, met) =
      (All-Parsed _ _ (tells_bound t) p least, Any-Parsed _ _ (tells_time t) p met)

  -- What a fold over the reports returns has a time for a test exactly if every report has a
  -- testcase of it that has no failure, error or skipped child and a time that reads as a number;
  -- and the time is then the least, over the reports, of the time that the last such testcase of
  -- a report has.
  pub fold_rounds-IsFloorOf :
      (reports : List Report) (d : Dict ℕ)
      → fold_rounds read_seconds reports ≡ ok d
      → IsFloorOf reports (lookup n d)
  fold_rounds-IsFloorOf reports d e =
      let (rounds, all, floor) = fold_rounds-of_rounds read_seconds reports d n e in
      IsFloor-reports (lookup n d) (parse_all-Parsed reports rounds all) floor
