-- ===== src/Session/Token/Accepted.antt =====
-- backend/session.py: what a token that `verify_session_token` accepts carries.
use ghpulse.Prelude.{
  String, Bool, true, false, ◌≡◌, refl, sym, ap, ◌∙◌, Option, none, some, str_eq, eq_iff,
  if◌then◌else◌, Result, ok, arith, Bool-cases, Option-cases, inl, inr, >>=-eq-ok, ◌&&◌,
}
use ghpulse.Prelude.Int.{ℤ, pos, ◌+ℤ◌, ◌-ℤ◌, ltb_ℤ, ◌≤ℤ◌}
use ghpulse.Session.{Failure, Platform, compare_digest, is_ascii}
use ghpulse.Session.Token.{
  Token, parse_session_token, payload, verify_parsed, verify_session_token, session_cookie_max_age,
}

pub compare_digest-eq : (a b : String) → compare_digest a b ≡ ok true → a ≡ b
unfolding compare_digest
compare_digest-eq a b h = elim (Bool-cases (is_ascii a && is_ascii b)) [
  | inl e ↦ elim (Bool-cases (str_eq a b)) [
    | inl e' ↦ (eq_iff a b).0 e'
    | inr e' ↦ cc (simp (e, e') at h)
  ]
  | inr e ↦ cc (simp e at h)
]

-- The token parses to the user, is signed under the secret, and is neither from the future nor old.
abbrev pub IsSigned : Platform → ℤ → String → String → ℤ → Token → Type 0
IsSigned platform now token secret uid t =
    (parse_session_token platform token ≡ some t)
    × (t.user_id ≡ uid)
    × (t.sig ≡ platform.hmac_hex secret (payload platform t.user_id t.issued_at t.nonce))
    × (t.issued_at ≤ℤ now +ℤ pos 60)
    × (now -ℤ t.issued_at ≤ℤ pos session_cookie_max_age)

module _ (platform : Platform) (now : ℤ) (secret : String) (uid : ℤ) (t : Token) where
  abbrev IsValid : Type 0
  IsValid =
      (t.user_id ≡ uid)
      × (t.sig ≡ platform.hmac_hex secret (payload platform t.user_id t.issued_at t.nonce))
      × (t.issued_at ≤ℤ now +ℤ pos 60)
      × (now -ℤ t.issued_at ≤ℤ pos session_cookie_max_age)

  digest_passed :
      (b : Bool)
      → ◌≡◌ {A = Result Failure (Option ℤ)}
          (ok (if b then some t.user_id else none))
          (ok (some uid))
      → (b ≡ true) × (t.user_id ≡ uid)
  digest_passed true h = (refl, cc h)
  digest_passed false h = cc h

  verify_parsed-IsValid : verify_parsed platform now secret t ≡ ok (some uid) → IsValid
  unfolding verify_parsed
  verify_parsed-IsValid h = elim (Bool-cases (ltb_ℤ (now +ℤ pos 60) t.issued_at)) [
    | inl e ↦ cc (simp e at h)
    | inr e ↦ elim (Bool-cases (ltb_ℤ (pos session_cookie_max_age) (now -ℤ t.issued_at))) [
      | inl e' ↦ cc (simp (e, e') at h)
      | inr e' ↦
          let (b, compared, result) = >>=-eq-ok _ _ (simp (e, e') at h) in
          let (passed, same_user) = digest_passed b result in
          (
            same_user,
            sym (compare_digest-eq _ _ (compared ∙ ap ok passed)),
            ground arith,
            ground arith,
          )
    ]
  ]

module _ (platform : Platform) (now : ℤ) (token secret : String) (uid : ℤ) where
  without_token :
      parse_session_token platform token ≡ none
      → verify_session_token platform now token secret ≡ ok none
  unfolding verify_session_token
  without_token e = rw (verify_session_token, e) refl

  with_token :
      (t : Token)
      → parse_session_token platform token ≡ some t
      → verify_session_token platform now token secret ≡ verify_parsed platform now secret t
  unfolding verify_session_token
  with_token t e = rw (verify_session_token, e) refl

  -- A token is accepted for a user only if it parses to a token of this user whose signature is the
  -- digest of its own payload under the secret, issued at most a minute ahead of the clock and at
  -- most seven days before it.
  pub verify_session_token-IsSigned :
      verify_session_token platform now token secret ≡ ok (some uid)
      → (t : Token) × IsSigned platform now token secret uid t
  verify_session_token-IsSigned h = elim (Option-cases (parse_session_token platform token)) [
    | inl e ↦ cc (sym (without_token e) ∙ h)
    | inr (t, e) ↦
        let (u, sig, early, late) =
          verify_parsed-IsValid platform now secret uid t (sym (with_token t e) ∙ h) in
        (t, (e, u, sig, early, late))
  ]
