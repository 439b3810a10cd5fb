-- ===== src/Store/Schema.antt =====
-- backend/schema.sql: the column checks of `issues` and `pull_requests`, and the range of `INTEGER`.
use Prim.Native.Char.{code}
use ghpulse.Prelude.{
  ℕ, String, Bool, true, false, not, ◌&&◌, ◌||◌, Option, none, some, str_eq, leb, ◌==◌, is_none,
}
use ghpulse.Prelude.Int.{ℤ, pos, leb_ℤ}
use ghpulse.Snapshot.Require.{text_length}
use ghpulse.Store.{IssueRow, PullRequestRow}

-- The greatest `INTEGER`.
abbrev pub max_integer : ℕ
max_integer = 2147483647

unfoldable pub fits_integer : ℤ → Bool
fits_integer n = leb_ℤ n (pos max_integer)

-- `btrim(s) = ''`
unfoldable pub is_spaces : String → Bool
is_spaces String.[] = true
is_spaces (String.◌∷◌ c s) = code c == 32 && is_spaces s

-- `issues_state_reason_shape_check`
unfoldable pub reason_shape_check : Option String → Bool
reason_shape_check none = true
reason_shape_check (some s) = (leb 1 (text_length s) && leb (text_length s) 64) && not (is_spaces s)

reason_in_final : Option String → Bool
reason_in_final none = false
reason_in_final (some s) = str_eq s "COMPLETED" || str_eq s "NOT_PLANNED"

reason_reopened : Option String → Bool
reason_reopened none = false
reason_reopened (some s) = str_eq s "REOPENED"

-- `issues_state_reason_state_check`
unfoldable pub reason_state_check : String → Option String → Bool → Bool
unfolding reason_in_final reason_reopened
reason_state_check state reason unclosed =
    (str_eq state "OPEN" && (unclosed && not (reason_in_final reason)))
    || (str_eq state "CLOSED"
        && (not unclosed && (not (is_none reason) && not (reason_reopened reason))))

-- Every check of an issue's row.
unfoldable pub issue_checks : IssueRow → Bool
issue_checks r =
    (leb_ℤ (pos 1) r.number && not r.is_private)
    && ((str_eq r.state "OPEN" || str_eq r.state "CLOSED")
        && (reason_shape_check r.state_reason
            && reason_state_check r.state r.state_reason (is_none r.closed_at)))

-- Every check of a pull request's row.
unfoldable pub pull_request_checks : PullRequestRow → Bool
pull_request_checks r =
    (leb_ℤ (pos 1) r.number && not r.is_private)
    && ((str_eq r.state "OPEN" || (str_eq r.state "CLOSED" || str_eq r.state "MERGED"))
        && ((str_eq r.state "OPEN"
              && (not r.merged && (is_none r.closed_at && is_none r.merged_at)))
            || ((str_eq r.state "CLOSED" && (not r.merged && not (is_none r.closed_at)))
                || (str_eq r.state "MERGED"
                    && (r.merged && (not (is_none r.closed_at) && not (is_none r.merged_at)))))))
