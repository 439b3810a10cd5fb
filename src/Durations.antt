-- ===== src/Durations.antt =====
-- scripts/ci/compare_durations.py: the comparison of two builds' test times. A time is a whole number
-- of some unit, which `float` reads exactly, and the budget a fraction, so that the ratio of totals
-- is compared by products. XML and `float` are not part of the program: a report is given by its
-- testcases. `sorted` is not modelled: the totals and the counts do not depend on the order. The
-- table of single tests and the rendered text are left out.
pub mod Floor
pub mod Shared
pub mod Timed
mod Tests
use Prim.Native.String.{◌++◌}
use ghpulse.Prelude.{
  ℕ, zero, suc, ◌+◌, ◌*◌, String, Bool, true, false, not, ◌||◌, Option, none, some, List, [], ◌∷◌,
  contains, length, str_eq, ltb, leb, ◌==◌, is_none, if◌then◌else◌, Result, ok, err, ◌>>=◌,
}
use ghpulse.Prelude.Dict.{Dict, lookup, insert}

pub data ComparisonError : Type 0 where
  not_parseable no_passing_testcases no_reports nothing_comparable : ComparisonError
  no_shared_test no_usable_timings : ComparisonError

-- A `testcase` element: its attributes, where a missing one of the first two reads as the empty
-- text, and the tags of its children.
pub record Testcase : Type 0 where
  pub classname : String
  pub name : String
  pub children : List String
  pub time : Option String

-- What `ET.parse` makes of a file: none if it raises.
abbrev pub Report : Type 0
Report = Option (List Testcase)

unfoldable pub node_id : Testcase → String
node_id case = if str_eq case.classname "" then case.name else case.classname ++ ("::" ++ case.name)

-- `any(case.find(tag) is not None for tag in NOT_PASSED)`
unfoldable pub is_not_passed : Testcase → Bool
is_not_passed case =
    contains "failure" case.children
    || (contains "error" case.children || contains "skipped" case.children)

abbrev non_empty : Dict ℕ → ComparisonError → Result ComparisonError (Dict ℕ)
non_empty [] e = err e
non_empty (entry ∷ times) e = ok (entry ∷ times)

abbrev pub add_time : String → Option ℕ → Dict ℕ → Dict ℕ
add_time n none times = times
add_time n (some t) times = insert n t times

module _ (read_seconds : String → Option ℕ) where
  -- `float(raw)` where the attribute is there
  abbrev pub seconds_of : Option String → Option ℕ
  seconds_of none = none
  seconds_of (some raw) = read_seconds raw

  unfoldable pub add_case : Testcase → Dict ℕ → Dict ℕ
  add_case case times =
      if is_not_passed case then times else add_time (node_id case) (seconds_of case.time) times

  unfoldable pub add_cases : List Testcase → Dict ℕ → Dict ℕ
  unfolding add_case
  add_cases [] times = times
  add_cases (case ∷ cases) times = add_cases cases (add_case case times)

  unfoldable pub parse_junit : Report → Result ComparisonError (Dict ℕ)
  parse_junit none = err not_parseable
  parse_junit (some cases) = non_empty (add_cases cases []) no_passing_testcases

  -- `[parse_junit(Path(p)) for p in paths]`
  unfoldable pub parse_all : List Report → Result ComparisonError (List (Dict ℕ))
  parse_all [] = ok []
  parse_all (report ∷ reports) = do
    times ← parse_junit report
    rest ← parse_all reports
    ok (times ∷ rest)

abbrev pub smaller : ℕ → ℕ → ℕ
smaller t u = if leb t u then t else u

-- The least of `t` and the times in the other rounds: none if the test is missing in one.
unfoldable pub min_over : String → ℕ → List (Dict ℕ) → Option ℕ
min_over n t [] = some t
min_over n t (round ∷ rounds) = elim (lookup n round) [
  | none ↦ none
  | some u ↦ min_over n (smaller t u) rounds
]

abbrev keep_time : String → Option ℕ → Dict ℕ → Dict ℕ
keep_time n none times = times
keep_time n (some t) times = (n, t) ∷ times

-- `{nid: min(r[nid] for r in rounds) for nid in common}`, over the first round's tests.
unfoldable pub common_times : Dict ℕ → List (Dict ℕ) → Dict ℕ
common_times [] rounds = []
common_times ((n, t) ∷ first) rounds = keep_time n (min_over n t rounds) (common_times first rounds)

unfoldable pub fold_parsed : List (Dict ℕ) → Result ComparisonError (Dict ℕ)
fold_parsed [] = err no_reports
fold_parsed (first ∷ rounds) = non_empty (common_times first rounds) nothing_comparable

unfoldable pub fold_rounds : (String → Option ℕ) → List Report → Result ComparisonError (Dict ℕ)
fold_rounds read_seconds reports = parse_all read_seconds reports >>= fold_parsed

-- What `compare` returns, less the table of single tests; the ratio is that of the totals.
pub record Comparison : Type 0 where
  pub shared : ℕ
  pub base_only : List String
  pub head_only : List String
  pub base_total : ℕ
  pub head_total : ℕ

abbrev shared_pair : ℕ → Option ℕ → List (ℕ × ℕ) → List (ℕ × ℕ)
shared_pair was none pairs = pairs
shared_pair was (some now) pairs = (was, now) ∷ pairs

-- The two times of each test that both builds have.
unfoldable pub shared_times : Dict ℕ → Dict ℕ → List (ℕ × ℕ)
shared_times [] head = []
shared_times ((n, was) ∷ base) head = shared_pair was (lookup n head) (shared_times base head)

-- `sorted(set(xs) - set(ys))`
unfoldable pub names_only : Dict ℕ → Dict ℕ → List String
names_only [] other = []
names_only ((n, t) ∷ times) other =
    let rest = names_only times other in if is_none (lookup n other) then n ∷ rest else rest

unfoldable pub total_was : List (ℕ × ℕ) → ℕ
total_was [] = 0
total_was ((was, now) ∷ rest) = was + total_was rest

unfoldable pub total_now : List (ℕ × ℕ) → ℕ
total_now [] = 0
total_now ((was, now) ∷ rest) = now + total_now rest

abbrev compare_shared : Dict ℕ → Dict ℕ → List (ℕ × ℕ) → Result ComparisonError Comparison
compare_shared base head [] = err no_shared_test
compare_shared base head (pair ∷ pairs) =
    if total_was (pair ∷ pairs) == 0
    then err no_usable_timings
    else ok (record {
      shared = length (pair ∷ pairs);
      base_only = names_only base head;
      head_only = names_only head base;
      base_total = total_was (pair ∷ pairs);
      head_total = total_now (pair ∷ pairs);
    })

unfoldable pub compare : Dict ℕ → Dict ℕ → Result ComparisonError Comparison
compare base head = compare_shared base head (shared_times base head)

-- `--max-regression`, as a fraction
pub record Budget : Type 0 where
  pub numerator : ℕ
  pub denominator : ℕ

-- `head_total / base_total - 1.0 > max_regression`
unfoldable pub is_over : Budget → Comparison → Bool
is_over budget r =
    ltb (r.base_total * (budget.denominator + budget.numerator)) (r.head_total * budget.denominator)

-- The exit code of `main`.
unfoldable pub exit_code : Budget → Result ComparisonError Comparison → ℕ
exit_code budget (err e) = 2
exit_code budget (ok r) = if is_over budget r then 1 else 0

unfoldable pub run_comparison : (String → Option ℕ) → Budget → List Report → List Report → ℕ
run_comparison read_seconds budget base head = exit_code budget (do
  base_times ← fold_rounds read_seconds base
  head_times ← fold_rounds read_seconds head
  compare base_times head_times)
