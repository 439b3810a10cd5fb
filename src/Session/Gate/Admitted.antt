-- ===== src/Session/Gate/Admitted.antt =====
-- backend/session.py, `auth_middleware`: the requests that reach a route.
use ghpulse.Prelude.{
  Bool, true, false, ◌≡◌, refl, ap, ◌∙◌, ◌⊎◌, inl, inr, Option, none, some, contains, str_eq,
  Result, ok, >>=-eq-ok, Bool-cases,
}
use ghpulse.Prelude.Int.{ℤ}
use ghpulse.Prelude.Equality.{same, int_eq}
use text.Mathlib.Text.{starts_with}
use ghpulse.Session.{Failure, Platform}
use ghpulse.Session.Token.Accepted.{compare_digest-eq}
use ghpulse.Session.Users.{guest_user_id, resolve_session_user_id}
use ghpulse.Session.Gate.{
  Request, Identity, Verdict, passed, Process, public_paths, check_origin, origin_verdict,
  token_verdict, session_verdict, admin_denied, identified, guest_denied, cookie_user,
  session_denied, auth_middleware,
}

module _ (platform : Platform) (process : Process) (request : Request) where
  -- The three ways in: a public path; an administrator's path with the token that is configured; and
  -- a session whose user is known, and who is not a guest if the path is an export.
  abbrev pub IsAdmitted : Option Identity → Type 0
  IsAdmitted identity =
      ((contains request.path public_paths ≡ true) × (identity ≡ none))
      ⊎ (((starts_with request.path "/admin/" ≡ true)
            × (request.x_admin_token ≡ process.admin_token)
            × (str_eq process.admin_token "" ≡ false)
            × (check_origin platform request ≡ ok true)
            × (identity ≡ none))
          ⊎ ((user_id : ℤ) × (starts_with request.path "/admin/" ≡ false)
              × (check_origin platform request ≡ ok true)
              × (resolve_session_user_id platform process.guest_secret process.users process.now
                    request.cookie
                  ≡ ok (some user_id))
              × (identity
                  ≡ some (record { user_id = user_id; is_guest = same user_id guest_user_id }))
              × ((user_id ≡ guest_user_id) → starts_with request.path "/api/export" ≡ false)))

  origin_passes :
      (b : Bool) (identity : Option Identity)
      → ◌≡◌ {A = Result Failure Verdict}
          (ok (origin_verdict platform none b))
          (ok (passed identity))
      → (b ≡ true) × (identity ≡ none)
  origin_passes true identity h = (refl, cc h)
  origin_passes false identity h = cc h

  token_passes :
      (b : Bool) (identity : Option Identity)
      → token_verdict platform request b ≡ ok (passed identity)
      → (b ≡ true) × (check_origin platform request ≡ ok true) × (identity ≡ none)
  token_passes false identity h = cc h
  token_passes true identity h =
      let (same_origin, found, verdict) = >>=-eq-ok _ _ h in
      let (holds, e) = origin_passes same_origin identity verdict in (refl, found ∙ ap ok holds, e)

  admin_admits :
      (identity : Option Identity)
      → admin_denied platform process request ≡ ok (passed identity)
      → (request.x_admin_token ≡ process.admin_token)
        × (str_eq process.admin_token "" ≡ false)
        × (check_origin platform request ≡ ok true)
        × (identity ≡ none)
  unfolding admin_denied
  admin_admits identity h = elim (Bool-cases (str_eq process.admin_token "")) [
    | inl e ↦ cc (simp e at h)
    | inr e ↦
        let (b, compared, verdict) = >>=-eq-ok _ _ (simp e at h) in
        let (holds, origin, e') = token_passes b identity verdict in
        (compare_digest-eq _ _ (compared ∙ ap ok holds), e, origin, e')
  ]

  abbrev IsResolved : Option Identity → ℤ → Type 0
  IsResolved identity user_id =
      (check_origin platform request ≡ ok true)
      × (resolve_session_user_id platform process.guest_secret process.users process.now
            request.cookie
          ≡ ok (some user_id))
      × (identity ≡ some (record { user_id = user_id; is_guest = same user_id guest_user_id }))
      × ((user_id ≡ guest_user_id) → starts_with request.path "/api/export" ≡ false)

  cookie_resolves :
      (user_id : ℤ)
      → cookie_user platform process request.cookie ≡ ok (some user_id)
      → resolve_session_user_id platform process.guest_secret process.users process.now
          request.cookie
        ≡ ok (some user_id)
  unfolding cookie_user
  cookie_resolves user_id h = elim (Bool-cases (str_eq request.cookie "")) [
    | inl e ↦ cc (simp e at h)
    | inr e ↦ simp e at h
  ]

  identified_passes :
      (user : Option ℤ) (identity : Option Identity)
      → ◌≡◌ {A = Result Failure Verdict}
          (ok (identified platform request.path user))
          (ok (passed identity))
      → (user_id : ℤ) × (user ≡ some user_id)
        × (identity ≡ some (record { user_id = user_id; is_guest = same user_id guest_user_id }))
        × ((user_id ≡ guest_user_id) → starts_with request.path "/api/export" ≡ false)
  unfolding identified guest_denied
  identified_passes none identity h = cc h
  identified_passes (some user_id) identity h = elim (Bool-cases (same user_id guest_user_id)) [
    | inl e ↦ elim (Bool-cases (starts_with request.path "/api/export")) [
      | inl e' ↦ cc (simp (e, e') at h)
      | inr e' ↦ (user_id, refl, rw e (cc (simp (e, e') at h)), λ q. e')
    ]
    | inr e ↦ (
      user_id,
      refl,
      rw e (cc (simp e at h)),
      λ q. cc ((int_eq.eqb_iff user_id guest_user_id).1 q),
    )
  ]

  session_passes :
      (b : Bool) (identity : Option Identity)
      → session_verdict platform process request b ≡ ok (passed identity)
      → (b ≡ true)
        × ((user_id : ℤ) × (cookie_user platform process request.cookie ≡ ok (some user_id))
            × (identity
                ≡ some (record { user_id = user_id; is_guest = same user_id guest_user_id }))
            × ((user_id ≡ guest_user_id) → starts_with request.path "/api/export" ≡ false))
  session_passes false identity h = cc h
  session_passes true identity h =
      let (user, found, verdict) = >>=-eq-ok _ _ h in
      let (user_id, known, e, allowed) = identified_passes user identity verdict in
      (refl, (user_id, found ∙ ap ok known, e, allowed))

  session_user :
      (identity : Option Identity)
      → session_denied platform process request ≡ ok (passed identity)
      → (user_id : ℤ) × IsResolved identity user_id
  unfolding session_denied
  session_user identity h =
      let (b, origin, verdict) = >>=-eq-ok _ _ h in
      let (holds, (user_id, found, e, allowed)) = session_passes b identity verdict in
      (user_id, (origin ∙ ap ok holds, cookie_resolves user_id found, e, allowed))

  public_identity :
      (identity : Option Identity)
      → ◌≡◌ {A = Result Failure Verdict} (ok (passed none)) (ok (passed identity))
      → identity ≡ none
  public_identity identity h = cc h

  -- A request reaches its route only with a public path, or as an administrator's request with the
  -- configured token that is not empty and an origin that is accepted, or with an accepted origin and
  -- a cookie that resolves to a user: the identity set is this user's, and a guest's path is no
  -- export.
  pub auth_middleware-IsAdmitted :
      (identity : Option Identity)
      → auth_middleware platform process request ≡ ok (passed identity)
      → IsAdmitted identity
  unfolding auth_middleware
  auth_middleware-IsAdmitted identity h = elim (Bool-cases (contains request.path public_paths)) [
    | inl e ↦ inl (e, public_identity identity (simp e at h))
    | inr e ↦ elim (Bool-cases (starts_with request.path "/admin/")) [
      | inl e' ↦
          let (token, given, origin, k) = admin_admits identity (simp (e, e') at h) in
          inr (inl (e', token, given, origin, k))
      | inr e' ↦
          let (user_id, (origin, user, k, allowed)) = session_user identity (simp (e, e') at h) in
          inr (inr (user_id, e', origin, user, k, allowed))
    ]
  ]
