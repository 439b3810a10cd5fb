-- ===== src/Login/Tests.antt =====
-- backend/login.py: five failures of one address, and a sixth attempt.
use ghpulse.Prelude.{◌≡◌, true, List, [], ◌∷◌, arith}
use ghpulse.Login.{recent, check_login_rate_limit}
use ghpulse.Login.Limit.{Call, failed, replay, check_login_rate_limit-replay}

abbrev five : List Call
five = failed 5 "a" ∷ failed 4 "a" ∷ failed 3 "a" ∷ failed 2 "a" ∷ failed 1 "a" ∷ []

check_login_rate_limit-replay_example : (check_login_rate_limit 6 "a" (replay five)).0 ≡ true
unfolding recent
check_login_rate_limit-replay_example =
    check_login_rate_limit-replay "a" 6 five
      (omega arith, (omega arith, (omega arith, (omega arith, (omega arith, tt))))) (omega arith)
