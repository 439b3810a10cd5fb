-- ===== src/Login/Post/Outcome.antt =====
-- backend/login.py, `login_post`: what every response says of the request and of the desk.
use ghpulse.Prelude.{
  ℕ, String, Bool, true, false, not, ◌||◌, ◌≡◌, refl, Option, none, some, List, str_eq, leb, length,
  Result, ok, err, if◌then◌else◌, arith, Bool-cases, inl, inr, Option-cases,
}
use ghpulse.Prelude.Int.{ℤ, pos, leb_ℤ}
use ghpulse.Snapshot.{Fields}
use ghpulse.Session.{Failure, Platform}
use ghpulse.Session.Token.{make_session_token}
use ghpulse.Session.Users.{Users, load_user_config, ensure_user_session_secret, Config}
use ghpulse.Session.Users.Login.{ensure_user_session_secret-given}
use ghpulse.Auth.{PasswordRules, has_web_password, verify_web_password}
use ghpulse.Login.{
  Failures, login_max_failures, recent, check_login_rate_limit, record_login_failure,
}
use ghpulse.Login.Post.{
  Attempt, Desk, Response, too_many_attempts, invalid_credentials, signed_in, signed_out, client_ip,
  form_user, login_config, has_password, password_config, grant, decide, authenticate, login_post,
}

stored_row :
    (users : Users) (uid : ℤ) (config : Fields)
    → load_user_config users uid ≡ some config
    → (row : Config) × (users uid ≡ some row)
unfolding load_user_config
stored_row users uid config stored = elim (Option-cases (users uid)) [
  | inl e ↦ ground arith
  | inr found ↦ found
]

module _ (platform : Platform) (rules : PasswordRules) (password : String) where
  -- Behind a config that is looked up only for a positive number.
  accepted_config :
      (found : Option Fields) (none_asked match : Bool)
      → let asked : Option Fields = if none_asked then none else found in
        verify_web_password rules (password_config platform rules asked) password ≡ ok match
        → (none_asked || (not (has_password platform rules asked) || not match)) ≡ false
        → (config : Fields) × (found ≡ some config)
          × (none_asked ≡ false)
          × (has_web_password rules config ≡ true)
          × (verify_web_password rules config password ≡ ok true)
  unfolding has_password password_config
  accepted_config found true match verified admits = cc admits
  accepted_config none false match verified admits = cc admits
  accepted_config (some config) false true verified admits =
      elim (Bool-cases (has_web_password rules config)) [
        | inl h ↦ (config, refl, refl, h, ground arith)
        | inr h ↦ absurd (ground arith)
      ]
  accepted_config (some config) false false verified admits = absurd (ground arith)

module _ (platform : Platform) (rules : PasswordRules) (a : Attempt) (desk : Desk) where
  abbrev pub attempts : List ℕ
  attempts = recent a.checked_at (desk.failures (client_ip a.client))

  abbrev pub is_limited : Bool
  is_limited = leb login_max_failures (length attempts)

  abbrev pub uid : ℤ
  uid = form_user platform rules a.user_id

  abbrev pub checked : Failures
  checked = (check_login_rate_limit a.checked_at (client_ip a.client) desk.failures).1

  -- A login that succeeds is under the limit, names a user with a positive number whose config has a
  -- password that the one given matches, and its cookie is a token of this user under the secret
  -- that was ensured, which is not empty.
  pub record IsSignedIn (token : String) (desk' : Desk) : Type 0 where
    pub unlimited : is_limited ≡ false
    pub positive : leb_ℤ uid (pos 0) ≡ false
    pub config : Fields
    pub stored : load_user_config desk.users uid ≡ some config
    pub has : has_web_password rules config ≡ true
    pub matches : verify_web_password rules config a.password ≡ ok true
    pub secret : String
    pub ensured :
        ensure_user_session_secret platform a.fresh desk.users uid ≡ (desk'.users, some secret)
    pub given : str_eq secret "" ≡ false
    pub signed : token ≡ make_session_token platform a.issued_at a.nonce uid secret
    pub counted : desk'.failures ≡ checked

  abbrev valid : Result Failure Bool
  valid =
      verify_web_password rules
        (password_config platform rules (login_config platform rules desk.users uid)) a.password

  abbrev pub refuses : Bool → Bool
  refuses match =
      leb_ℤ uid (pos 0)
      || (not (has_password platform rules (login_config platform rules desk.users uid))
          || not match)

  abbrev pub Answers : Result Failure Response × Desk → Type 0
  Answers (ok too_many_attempts, desk') =
      (is_limited ≡ true) × (desk'.users ≡ desk.users) × (desk'.failures ≡ checked)
  Answers (ok invalid_credentials, desk') =
      (is_limited ≡ false)
      × ((match : Bool) × (valid ≡ ok match) × (refuses match ≡ true))
      × (desk'.users ≡ desk.users)
      × (desk'.failures ≡ record_login_failure a.failed_at (client_ip a.client) checked)
  Answers (ok (signed_in token), desk') = IsSignedIn token desk'
  Answers (ok signed_out, desk') = ⊥
  Answers (err e, desk') =
      (is_limited ≡ false)
      × (valid ≡ err e)
      × (desk'.users ≡ desk.users)
      × (desk'.failures ≡ checked)

  abbrev counted : Desk
  counted = record desk { failures = checked }

  module _ (unlimited : is_limited ≡ false) (given : str_eq a.fresh "" ≡ false) where
    grant-Answers :
        (config : Fields)
        → load_user_config desk.users uid ≡ some config
        → leb_ℤ uid (pos 0) ≡ false
        → has_web_password rules config ≡ true
        → verify_web_password rules config a.password ≡ ok true
        → Answers
            (ok (grant platform rules a uid counted).0, (grant platform rules a uid counted).1)
    unfolding grant
    grant-Answers config stored positive has matches =
        let (row, known) = stored_row desk.users uid config stored in
        let (users', secret, ensured, nonempty) =
          ensure_user_session_secret-given platform a.fresh desk.users uid row known given in
        rw (ensured, nonempty)
          record {
            unlimited = unlimited;
            positive = positive;
            config = config;
            stored = stored;
            has = has;
            matches = matches;
            secret = secret;
            ensured = ensured;
            given = nonempty;
            signed = refl;
            counted = refl;
          }

    accepted :
        (match : Bool)
        → valid ≡ ok match
        → refuses match ≡ false
        → (config : Fields) × (load_user_config desk.users uid ≡ some config)
          × (leb_ℤ uid (pos 0) ≡ false)
          × (has_web_password rules config ≡ true)
          × (verify_web_password rules config a.password ≡ ok true)
    unfolding login_config
    accepted match verified admits =
        accepted_config platform rules a.password (load_user_config desk.users uid)
          (leb_ℤ uid (pos 0)) match verified admits

    decide-Answers :
        (r : Result Failure Bool) → valid ≡ r → Answers (decide platform rules a uid counted r)
    decide-Answers (err e) verified = (unlimited, verified, refl, refl)
    decide-Answers (ok match) verified = elim (Bool-cases (refuses match)) [
      | inl e ↦ rw e (unlimited, (match, verified, e), refl, refl)
      | inr e ↦ rw e (
          let (config, stored, positive, has, matches) = accepted match verified e in
          grant-Answers config stored positive has matches)
    ]

    authenticate-Answers : Answers (authenticate platform rules a counted)
    unfolding authenticate
    authenticate-Answers = decide-Answers valid refl

  -- For a fresh secret that is not empty, every way out of a login: it is refused exactly by the
  -- limit of its address, and then changes nothing but the list of old failures. A login that is
  -- rejected has a number that is not positive, or no stored password, or a password that does
  -- not match, leaves the users, and records one failure. A login that succeeds is under the
  -- limit, names a user with a positive number whose stored password matches, and its cookie is a
  -- token of this user under the secret that was ensured. A login that raises does so in the
  -- check of the password, and leaves the users and records no failure.
  pub login_post-Answers : str_eq a.fresh "" ≡ false → Answers (login_post platform rules a desk)
  unfolding login_post check_login_rate_limit
  login_post-Answers given = elim (Bool-cases is_limited) [
    | inl e ↦ rw e (e, refl, refl)
    | inr e ↦ rw e (authenticate-Answers e given)
  ]
