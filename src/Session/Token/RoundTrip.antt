-- ===== src/Session/Token/RoundTrip.antt =====
-- backend/session.py: a token that `make_session_token` made, read back by `verify_session_token`.
use Prim.Native.Char.{code}
use Prim.Native.String.{◌++◌}
use text.Mathlib.TextLemmas.{nil-append, cons-append, append_assoc}
use ghpulse.Prelude.{
  String, Bool, true, false, ◌&&◌, ◌||◌, ◌≡◌, refl, ap, ◌∙◌, none, some, [], ◌∷◌, str_eq, eq_iff,
  ◌==◌, if◌then◌else◌, ok, ◌>>=◌, arith,
}
use ghpulse.Prelude.Int.{ℤ, pos, ◌+ℤ◌, ◌-ℤ◌, leb_ℤ}
use ghpulse.Session.{Platform, compare_digest, is_ascii}
use ghpulse.Session.Token.{
  push, split_dots, parse_parts, parse_session_token, payload, make_session_token, verify_parsed,
  verify_session_token, session_cookie_max_age,
}

unfoldable pub has_dot : String → Bool
has_dot String.[] = false
has_dot (String.◌∷◌ c s) = (code c == b'.') || has_dot s

-- What Python documents of `int`, `str` and `hexdigest`.
pub record IsDocumented (platform : Platform) : Type 0 where
  pub read-show : (n : ℤ) → platform.read_int (platform.show_int n) ≡ some n
  pub show_dotless : (n : ℤ) → has_dot (platform.show_int n) ≡ false
  pub hmac_dotless : (secret text : String) → has_dot (platform.hmac_hex secret text) ≡ false
  pub hmac_ascii : (secret text : String) → is_ascii (platform.hmac_hex secret text) ≡ true
  pub hmac_given : (secret text : String) → str_eq (platform.hmac_hex secret text) "" ≡ false

split_dots-dotless : (s : String) → has_dot s ≡ false → split_dots s ≡ s ∷ []
unfolding split_dots has_dot push
split_dots-dotless String.[] h = refl
split_dots-dotless (String.◌∷◌ c s) h =
    let r = split_dots-dotless s (ground arith) in
    let e : (code c == 46) ≡ false = ground arith in rw (e, r) refl

split_dots-join :
    (s t : String) → has_dot s ≡ false → split_dots (s ++ ("." ++ t)) ≡ s ∷ split_dots t
unfolding split_dots has_dot push
split_dots-join String.[] t h = rw (nil-append, cons-append, nil-append) refl
split_dots-join (String.◌∷◌ c s) t h =
    let e : (code c == 46) ≡ false = ground arith in
    rw (cons-append c s ("." ++ t), e, split_dots-join s t (ground arith)) refl

digest_matches : (d : String) → is_ascii d ≡ true → compare_digest d d ≡ ok true
unfolding compare_digest
digest_matches d h = rw (h, (eq_iff d d).1 refl) refl

-- Whether a token issued at one second is accepted at another.
abbrev pub is_fresh : ℤ → ℤ → Bool
is_fresh issued_at now =
    leb_ℤ issued_at (now +ℤ pos 60) && leb_ℤ (now -ℤ issued_at) (pos session_cookie_max_age)

module _ (platform : Platform) (documented : IsDocumented platform) where
  split_dots-token :
      (a b n h : String)
      → has_dot a ≡ false
      → has_dot b ≡ false
      → has_dot n ≡ false
      → has_dot h ≡ false
      → split_dots ((a ++ ("." ++ (b ++ ("." ++ n)))) ++ ("." ++ h)) ≡ a ∷ b ∷ n ∷ h ∷ []
  split_dots-token a b n h da db dn dh =
      ap split_dots (
        append_assoc a _ _
        ∙ ap (λ x. a ++ x)
            (append_assoc "." _ _
              ∙ ap (λ x. "." ++ x) (append_assoc b _ _ ∙ ap (λ x. b ++ x) (append_assoc "." _ _))))
      ∙ rw
          (
            split_dots-join a _ da,
            split_dots-join b _ db,
            split_dots-join n h dn,
            split_dots-dotless h dh,
          )
          refl

  pub parse_session_token-make :
      (now : ℤ) (nonce secret : String) (uid : ℤ)
      → has_dot nonce ≡ false
      → str_eq nonce "" ≡ false
      → parse_session_token platform (make_session_token platform now nonce uid secret)
        ≡ some (record {
          user_id = uid;
          issued_at = now;
          nonce = nonce;
          sig = platform.hmac_hex secret (payload platform uid now nonce);
        })
  unfolding parse_session_token make_session_token payload parse_parts
  parse_session_token-make now nonce secret uid dotless given =
      rw
        (
          split_dots-token (platform.show_int uid) (platform.show_int now) nonce _
              (documented.show_dotless uid) (documented.show_dotless now) dotless
              (documented.hmac_dotless secret (payload platform uid now nonce)),
          parse_parts,
          documented.read-show uid,
          documented.read-show now,
          given,
          documented.hmac_given secret (payload platform uid now nonce),
        )
        refl

  -- For a nonce that is not empty and has no dot: a token made under a secret names its user
  -- under the same secret if it is fresh, that is issued at most a minute ahead of the clock
  -- and at most seven days before it, and nobody otherwise.
  pub verify_session_token-make :
      (issued_at now : ℤ) (nonce secret : String) (uid : ℤ)
      → has_dot nonce ≡ false
      → str_eq nonce "" ≡ false
      → verify_session_token platform now
          (make_session_token platform issued_at nonce uid secret)
          secret
        ≡ ok (if is_fresh issued_at now then some uid else none)
  unfolding verify_session_token verify_parsed ◌>>=◌
  verify_session_token-make issued_at now nonce secret uid dotless given =
      rw
        (
          verify_session_token,
          parse_session_token-make issued_at nonce secret uid dotless given,
          digest_matches (platform.hmac_hex secret (payload platform uid issued_at nonce))
              (documented.hmac_ascii secret _),
        )
        (ground arith)
