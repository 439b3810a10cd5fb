-- ===== src/Login/Post/Bounded.antt =====
-- backend/login.py: how many wrong passwords an address can try within a window.
use ghpulse.Prelude.{
  ℕ, suc, ◌+◌, ◌≤◌, ◌<◌, String, Bool, true, false, not, ◌||◌, ◌&&◌, ◌≡◌, refl, ◌∙◌, Option, none,
  some, List, [], ◌∷◌, str_eq, eq_iff, ltb, length, length-append, Result, ok, err, if◌then◌else◌,
  arith, Bool-cases, inl, inr,
}
use ghpulse.Prelude.Int.{ℤ, pos, leb_ℤ}
use ghpulse.Session.{Failure, Platform}
use ghpulse.Session.Users.{Users, ensure_user_session_secret}
use ghpulse.Auth.{PasswordRules, verify_web_password}
use ghpulse.Login.{
  Failures, login_max_failures, login_window_seconds, recent, check_login_rate_limit,
  record_login_failure,
}
use ghpulse.Login.Limit.{recent-append, recent-recent}
use ghpulse.Login.Post.{
  Attempt, Desk, Response, invalid_credentials, client_ip, form_user, login_config, has_password,
  password_config, open_session, grant, decide, authenticate, login_post,
}
use ghpulse.Login.Post.Outcome.{is_limited, checked}

abbrev pub is_rejection : Result Failure Response → Bool
is_rejection (ok invalid_credentials) = true
is_rejection _ = false

-- A check of the limit leaves what is recent at a later time.
recent-checked :
    (now t : ℕ) (ip client : String) (failures : Failures)
    → t ≤ now
    → recent now ((check_login_rate_limit t client failures).1 ip) ≡ recent now (failures ip)
unfolding check_login_rate_limit
recent-checked now t ip client failures later = elim (Bool-cases (str_eq client ip)) [
  | inl e ↦
      let same_ip = (eq_iff client ip).0 e in
      rw (e, same_ip) (recent-recent t now (failures ip) later)
  | inr e ↦ rw e refl
]

recent-one : (now t : ℕ) → now < t + login_window_seconds → recent now (t ∷ []) ≡ t ∷ []
unfolding recent
recent-one now t within =
    let kept : ltb now (t + login_window_seconds) ≡ true = ground arith in rw kept refl

-- A failure recorded within the window adds one.
recent-recorded :
    (now t : ℕ) (ip client : String) (failures : Failures)
    → t ≤ now
    → now < t + login_window_seconds
    → length (recent now (record_login_failure t client failures ip)) ≡ (
        if str_eq client ip
        then suc (length (recent now (failures ip)))
        else length (recent now (failures ip)))
unfolding record_login_failure
recent-recorded now t ip client failures later within = elim (Bool-cases (str_eq client ip)) [
  | inl e ↦
      let same_ip = (eq_iff client ip).0 e in
      rw
        (
          e,
          same_ip,
          recent-append,
          recent-recent t now (failures ip) later,
          length-append,
          recent-one now t within,
        )
        (omega arith)
  | inr e ↦ rw e refl
]

module _ (platform : Platform) (rules : PasswordRules) where
  module _ (a : Attempt) (desk : Desk) where
    abbrev counted : Desk
    counted = record desk { failures = checked platform rules a desk }

    -- Only a rejection records a failure.
    abbrev Records : Result Failure Response × Desk → Type 0
    Records (r, desk') = desk'.failures ≡ (
        if is_rejection r
        then record_login_failure a.failed_at (client_ip a.client) counted.failures
        else counted.failures)

    open_session-Records :
        (uid : ℤ) (users : Users) (secret : Option String)
        → let (response, desk') =
            open_session platform rules a uid (record counted { users = users }) secret in
          Records (ok response, desk')
    open_session-Records uid users none = refl
    open_session-Records uid users (some secret) = elim (Bool-cases (str_eq secret "")) [
      | inl e ↦ rw e refl
      | inr e ↦ rw e refl
    ]

    decide-Records :
        (uid : ℤ) (r : Result Failure Bool) → Records (decide platform rules a uid counted r)
    unfolding grant
    decide-Records uid (err e) = refl
    decide-Records uid (ok match) =
        elim (Bool-cases (
          leb_ℤ uid (pos 0)
          || (not (has_password platform rules (login_config platform rules desk.users uid))
              || not match))) [
                | inl e ↦ rw e refl
                | inr e ↦ rw e (
                    let found = ensure_user_session_secret platform a.fresh desk.users uid in
                    open_session-Records uid found.0 found.1)
              ]

    authenticate-Records : Records (authenticate platform rules a counted)
    unfolding authenticate
    authenticate-Records =
        let uid = form_user platform rules a.user_id in
        decide-Records uid (
          verify_web_password rules
            (password_config platform rules (login_config platform rules desk.users uid))
            a.password)

    abbrev Limits : Result Failure Response × Desk → Type 0
    Limits (r, desk') =
        (is_rejection r ≡ true → is_limited platform rules a desk ≡ false) × Records (r, desk')

    login_post-Limits : Limits (login_post platform rules a desk)
    unfolding login_post authenticate check_login_rate_limit
    login_post-Limits = elim (Bool-cases (is_limited platform rules a desk)) [
      | inl e ↦ rw e (λ h. cc h, refl)
      | inr e ↦ rw e (λ h. refl, authenticate-Records)
    ]

  -- The requests of a run, the latest first, and the desk after them.
  pub after : Desk → List Attempt → Desk
  after desk [] = desk
  after desk (a ∷ earlier) = (login_post platform rules a (after desk earlier)).1

  -- How many of them an address made and the handler rejected.
  pub rejections : String → Desk → List Attempt → ℕ
  unfolding after
  rejections ip desk [] = 0
  rejections ip desk (a ∷ earlier) =
      let before = rejections ip desk earlier in
      if str_eq (client_ip a.client) ip
        && is_rejection (login_post platform rules a (after desk earlier)).0
      then suc before
      else before

  -- The requests come one after another.
  abbrev pub last_time : ℕ → List Attempt → ℕ
  last_time start [] = start
  last_time start (a ∷ earlier) = a.failed_at

  abbrev pub IsOrdered : ℕ → List Attempt → Type 0
  IsOrdered start [] = Unit
  IsOrdered start (a ∷ earlier) =
      (last_time start earlier ≤ a.checked_at)
      × (a.checked_at ≤ a.failed_at)
      × IsOrdered start earlier

  start-le : (start : ℕ) (run : List Attempt) → IsOrdered start run → start ≤ last_time start run
  start-le start [] ordered = omega arith
  start-le start (a ∷ earlier) (after_last, lasts, ordered) =
      omega (arith, start-le start earlier ordered)

  module _ (ip : String) (desk : Desk) (start : ℕ) where
    abbrev remembered : ℕ → List Attempt → ℕ
    remembered now earlier = length (recent now ((after desk earlier).failures ip))

    step :
        (now : ℕ) (a : Attempt) (earlier : List Attempt)
        → a.checked_at ≤ now
        → a.failed_at ≤ now
        → now < a.failed_at + login_window_seconds
        → remembered now (a ∷ earlier) ≡ (
            if str_eq (client_ip a.client) ip
              && is_rejection (login_post platform rules a (after desk earlier)).0
            then suc (remembered now earlier)
            else remembered now earlier)
    unfolding after
    step now a earlier h k l =
        let (_, recorded) = login_post-Limits a (after desk earlier) in
        let r = (login_post platform rules a (after desk earlier)).0 in
        let same =
          recent-checked now a.checked_at ip (client_ip a.client) (after desk earlier).failures h in
        elim (Bool-cases (is_rejection r)) [
          | inl e ↦
              rw (recorded, e)
                (recent-recorded now a.failed_at ip (client_ip a.client)
                    (checked platform rules a (after desk earlier)) k l
                  ∙ elim (Bool-cases (str_eq (client_ip a.client) ip)) [
                    | inl f ↦ rw (f, same) refl
                    | inr f ↦ rw (f, same) refl
                  ])
          | inr e ↦
              rw (recorded, e)
                (elim (Bool-cases (str_eq (client_ip a.client) ip)) [
                  | inl f ↦ rw (f, same) refl
                  | inr f ↦ rw (f, same) refl
                ])
        ]

    -- Whoever is rejected was under the limit.
    room :
        (a : Attempt) (earlier : List Attempt)
        → (str_eq (client_ip a.client) ip
            && is_rejection (login_post platform rules a (after desk earlier)).0)
          ≡ true
        → remembered a.checked_at earlier < login_max_failures
    room a earlier e =
        let same_ip : client_ip a.client ≡ ip = (eq_iff (client_ip a.client) ip).0 (ground arith) in
        let rejected : is_rejection (login_post platform rules a (after desk earlier)).0 ≡ true =
          ground arith in
        let open_to = (login_post-Limits a (after desk earlier)).0 rejected in
        rw (← same_ip) (ground arith)

    -- While all requests stand in one window, every rejection is remembered, and the sixth is not made.
    within :
        (now : ℕ) (run : List Attempt)
        → IsOrdered start run
        → last_time start run ≤ now
        → now < start + login_window_seconds
        → (rejections ip desk run ≤ remembered now run)
          × (rejections ip desk run ≤ login_max_failures)
    unfolding rejections
    within now [] ordered later soon = (omega arith, omega arith)
    within now (a ∷ earlier) (after_last, lasts, ordered) later soon =
        let begun = start-le start earlier ordered in
        let (kept, few) = within now earlier ordered (omega arith) soon in
        let (kept_before, _) = within a.checked_at earlier ordered after_last (omega arith) in
        let remembers = step now a earlier (omega arith) later (omega arith) in
        elim (Bool-cases (
          str_eq (client_ip a.client) ip
          && is_rejection (login_post platform rules a (after desk earlier)).0)) [
            | inl e ↦ rw (e) (
                let below = room a earlier e in
                let one_more = (rw e at remembers) in (omega arith, omega arith))
            | inr e ↦ rw (e) (let as_before = (rw e at remembers) in (omega arith, few))
          ]

    -- Whatever logins come one after another from a start, as long as the last ends less than 300
    -- units of time after it, the handler rejects at most five of one address for their
    -- credentials, whatever failures stood in the list before.
    pub rejections_bounded :
        (run : List Attempt)
        → IsOrdered start run
        → last_time start run < start + login_window_seconds
        → rejections ip desk run ≤ login_max_failures
    rejections_bounded run ordered soon =
        (within (last_time start run) run ordered (omega arith) soon).1
