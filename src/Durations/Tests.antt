-- ===== src/Durations/Tests.antt =====
-- scripts/ci/compare_durations.py: two rounds of one build, and two builds that share one test.
use ghpulse.Prelude.{ℕ, String, ◌≡◌, refl, Option, some, List, [], ◌∷◌, ok, ◌>>=◌}
use ghpulse.Prelude.Dict.{lookup, insert}
use ghpulse.Snapshot.Require.{text_length}
use ghpulse.Durations.{
  Testcase, Report, node_id, is_not_passed, add_cases, parse_junit, parse_all, min_over,
  common_times, fold_parsed, fold_rounds, shared_times, total_was, total_now, compare, Budget,
  is_over, exit_code,
}
use ghpulse.Durations.Shared.{exit_code-compare-insert}
use ghpulse.Durations.Timed.{IsFloorOf, fold_rounds-IsFloorOf}

-- Times in unary.
read : String → Option ℕ
unfolding text_length
read s = some (text_length s)

abbrev case : String → String → Testcase
case name time = record { classname = ""; name = name; children = []; time = some time }

abbrev skipped_case : Testcase
skipped_case = record { classname = ""; name = "b"; children = "skipped" ∷ []; time = some "x" }

abbrev two_rounds : List Report
two_rounds =
    some (case "a" "xxx" ∷ case "b" "x" ∷ []) ∷ some (case "a" "xx" ∷ skipped_case ∷ []) ∷ []

two_rounds_folded : fold_rounds read two_rounds ≡ ok (("a", 2) ∷ [])
unfolding fold_rounds parse_all parse_junit add_cases is_not_passed node_id fold_parsed common_times
    min_over lookup insert read ◌>>=◌
two_rounds_folded = refl

fold_rounds-IsFloorOf_example : IsFloorOf read "a" two_rounds (lookup "a" (("a", 2) ∷ []))
fold_rounds-IsFloorOf_example =
    fold_rounds-IsFloorOf read "a" two_rounds (("a", 2) ∷ []) two_rounds_folded

abbrev budget : Budget
budget = record { numerator = 3; denominator = 10 }

-- A slowdown by two fifths is over a budget of three tenths.
slower : exit_code budget (compare (("a", 10) ∷ []) (("a", 14) ∷ [])) ≡ 1
unfolding exit_code compare shared_times total_was total_now is_over lookup
slower = refl

exit_code-compare-insert_example :
    exit_code budget (compare (insert "old" 90 (("a", 10) ∷ [])) (insert "new" 5 (("a", 14) ∷ [])))
    ≡ exit_code budget (compare (("a", 10) ∷ []) (("a", 14) ∷ []))
unfolding lookup
exit_code-compare-insert_example =
    exit_code-compare-insert budget (("a", 10) ∷ []) (("a", 14) ∷ []) "new" "old" 5 90 refl refl
      refl
