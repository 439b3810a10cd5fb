-- ===== src/Login.antt =====
-- backend/login.py: the limit on failed logins by address. Times are numbers in one unit, in which the
-- window is 300; the comparison `now - t < 300` is written without the subtraction.
pub mod Limit
pub mod Post
pub mod Tests
use ghpulse.Prelude.{
  ℕ, ◌+◌, String, Bool, true, false, List, [], ◌∷◌, ◌++◌, str_eq, leb, ltb, length, if◌then◌else◌,
}

abbrev pub login_max_failures : ℕ
login_max_failures = 5

abbrev pub login_window_seconds : ℕ
login_window_seconds = 300

-- `_LOGIN_FAILURES`, whose missing keys read as empty lists.
abbrev pub Failures : Type 0
Failures = String → List ℕ

abbrev pub no_failures : Failures
no_failures ip = []

abbrev pub set_attempts : String → List ℕ → Failures → Failures
set_attempts ip attempts failures other = if str_eq ip other then attempts else failures other

-- `[t for t in attempts if now - t < _LOGIN_WINDOW_SECONDS]`
unfoldable pub recent : ℕ → List ℕ → List ℕ
recent now [] = []
recent now (t ∷ ts) =
    let rest = recent now ts in if ltb now (t + login_window_seconds) then t ∷ rest else rest

unfoldable pub check_login_rate_limit : ℕ → String → Failures → Bool × Failures
check_login_rate_limit now ip failures =
    let attempts = recent now (failures ip) in
    (leb login_max_failures (length attempts), set_attempts ip attempts failures)

unfoldable pub record_login_failure : ℕ → String → Failures → Failures
record_login_failure now ip failures =
    set_attempts ip (recent now (failures ip) ++ (now ∷ [])) failures
