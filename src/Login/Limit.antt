-- ===== src/Login/Limit.antt =====
-- backend/login.py: the limit against the log of the calls.
use ghpulse.Prelude.{
  ℕ, ◌+◌, ◌≤◌, String, false, ◌≡◌, refl, sym, ap, List, [], ◌∷◌, ◌++◌, str_eq, eq_iff, leb, ltb,
  length, if◌then◌else◌, arith, Bool-cases, inl, inr,
}
use ghpulse.Login.{
  login_max_failures, login_window_seconds, Failures, no_failures, recent, check_login_rate_limit,
  record_login_failure,
}

-- A call at a time, for an address.
pub data Call : Type 0 where
  checked failed : ℕ → String → Call

abbrev pub time_of : Call → ℕ
time_of (checked t ip) = t
time_of (failed t ip) = t

-- The log has the latest call first.
abbrev pub last_time : List Call → ℕ
last_time [] = 0
last_time (c ∷ cs) = time_of c

abbrev pub IsOrdered : List Call → Type 0
IsOrdered [] = Unit
IsOrdered (c ∷ cs) = (last_time cs ≤ time_of c) × IsOrdered cs

abbrev run : Call → Failures → Failures
run (checked t ip) failures = (check_login_rate_limit t ip failures).1
run (failed t ip) failures = record_login_failure t ip failures

abbrev pub replay : List Call → Failures
replay [] = no_failures
replay (c ∷ cs) = run c (replay cs)

-- The failures of an address in a log, whatever their age.
abbrev pub failures_of : String → List Call → List ℕ
failures_of ip [] = []
failures_of ip (checked t other ∷ cs) = failures_of ip cs
failures_of ip (failed t other ∷ cs) =
    let before = failures_of ip cs in if str_eq other ip then before ++ (t ∷ []) else before

pub recent-append :
    (now : ℕ) (xs ys : List ℕ) → recent now (xs ++ ys) ≡ recent now xs ++ recent now ys
unfolding recent
recent-append now [] ys = refl
recent-append now (x ∷ xs) ys = elim (Bool-cases (ltb now (x + login_window_seconds))) [
  | inl e ↦ rw (e, recent-append now xs ys) refl
  | inr e ↦ rw (e, recent-append now xs ys) refl
]

-- What is too old stays too old.
pub recent-recent : (t now : ℕ) (xs : List ℕ) → t ≤ now → recent now (recent t xs) ≡ recent now xs
unfolding recent
recent-recent t now [] later = refl
recent-recent t now (x ∷ xs) later = elim (Bool-cases (ltb t (x + login_window_seconds))) [
  | inl e ↦ rw (e, recent-recent t now xs later) refl
  | inr e ↦
      let old : ltb now (x + login_window_seconds) ≡ false = ground arith in
      rw (e, old, recent-recent t now xs later) refl
]

recent-replay :
    (ip : String) (now : ℕ) (log : List Call)
    → IsOrdered log
    → last_time log ≤ now
    → recent now (replay log ip) ≡ recent now (failures_of ip log)
unfolding check_login_rate_limit record_login_failure
recent-replay ip now [] ordered later = refl
recent-replay ip now (checked t other ∷ cs) (earlier, ordered) later =
    let before = recent-replay ip now cs ordered (omega arith) in
    elim (Bool-cases (str_eq other ip)) [
      | inl e ↦
          let same_ip = (eq_iff other ip).0 e in
          rw (e, same_ip, recent-recent t now (replay cs ip) later) before
      | inr e ↦ rw e before
    ]
recent-replay ip now (failed t other ∷ cs) (earlier, ordered) later =
    let before = recent-replay ip now cs ordered (omega arith) in
    elim (Bool-cases (str_eq other ip)) [
      | inl e ↦
          let same_ip = (eq_iff other ip).0 e in
          rw (e, same_ip, recent-append, recent-recent t now (replay cs ip) later, before)
            (sym (recent-append now (failures_of ip cs) (t ∷ [])))
      | inr e ↦ rw e before
    ]

-- After any log of calls in order of time, a login from an address is refused exactly if at least
-- five failures of this address were recorded within the window before.
pub check_login_rate_limit-replay :
    (ip : String) (now : ℕ) (log : List Call)
    → IsOrdered log
    → last_time log ≤ now
    → (check_login_rate_limit now ip (replay log)).0
      ≡ leb login_max_failures (length (recent now (failures_of ip log)))
unfolding check_login_rate_limit
check_login_rate_limit-replay ip now log ordered later =
    ap (λ (attempts : List ℕ). leb login_max_failures (length attempts))
      (recent-replay ip now log ordered later)
