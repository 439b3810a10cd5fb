-- ===== src/Session/Users/Login.antt =====
-- backend/session.py: the secret that a login ensures, against the check of the session it opens.
use ghpulse.Prelude.{
  String, Bool, true, false, ◌≡◌, refl, ap, ◌∙◌, Option, none, some, str_eq, eq_iff, if◌then◌else◌,
  ok, Bool-cases, inl, inr,
}
use ghpulse.Prelude.Int.{ℤ}
use ghpulse.Prelude.Equality.{same, int_eq}
use ghpulse.Snapshot.{Value, null, bool, int, float, str, arr, obj, Fields, end, field, find}
use ghpulse.Session.{Platform}
use ghpulse.Session.Token.{make_session_token}
use ghpulse.Session.Token.RoundTrip.{
  IsDocumented, has_dot, is_fresh, parse_session_token-make, verify_session_token-make,
}
use ghpulse.Session.Users.{
  Config, no_config, config, Users, guest_user_id, secret_key, load_user_config, set_field,
  coalesced, stored_secret, ensure_user_session_secret, resolve_session_user_id, str_of,
  json_text_of,
}

-- A stored secret that is absent, null or a text.
abbrev pub is_text_or_null : Option Value → Bool
is_text_or_null none = true
is_text_or_null (some null) = true
is_text_or_null (some (str s)) = true
is_text_or_null (some v) = false

pub find-set_field : (k : String) (v : Value) (fs : Fields) → find k (set_field k v fs) ≡ some v
unfolding find set_field
find-set_field k v end = rw ((eq_iff k k).1 refl) refl
find-set_field k v (field j w fs) = elim (Bool-cases (str_eq j k)) [
  | inl e ↦ rw (e, e) refl
  | inr e ↦ rw (e, e, find-set_field k v fs) refl
]

-- The text of the stored secret as `ensure_user_session_secret` reads it.
abbrev existing : Platform → Config → String
existing platform row = platform.strip (json_text_of platform (find secret_key (coalesced row)))

with_fresh : String → Users → ℤ → Config → Users
with_fresh fresh users uid row id =
    if same id uid
    then some (config (set_field secret_key (str fresh) (coalesced row)))
    else users id

module _ (platform : Platform) (fresh : String) (users : Users) (uid : ℤ) (row : Config)
    (known : users uid ≡ some row) where
  ensure-fresh :
      str_eq (existing platform row) "" ≡ true
      → ensure_user_session_secret platform fresh users uid
        ≡ (with_fresh fresh users uid row, some fresh)
  unfolding ensure_user_session_secret with_fresh
  ensure-fresh e = rw (ensure_user_session_secret, known, e) refl

  ensure-existing :
      str_eq (existing platform row) "" ≡ false
      → ensure_user_session_secret platform fresh users uid ≡ (users, some (existing platform row))
  unfolding ensure_user_session_secret
  ensure-existing e = rw (ensure_user_session_secret, known, e) refl

  -- A login finds or makes a secret that is not empty.
  pub ensure_user_session_secret-given :
      str_eq fresh "" ≡ false
      → (users' : Users) × (secret : String) × (ensure_user_session_secret platform fresh users uid
          ≡ (users', some secret))
        × (str_eq secret "" ≡ false)
  ensure_user_session_secret-given given = elim (Bool-cases (str_eq (existing platform row) "")) [
    | inl e ↦ (with_fresh fresh users uid row, fresh, ensure-fresh e, given)
    | inr e ↦ (users, existing platform row, ensure-existing e, e)
  ]

fresh_row :
    (fresh : String) (users : Users) (uid : ℤ) (row : Config)
    → with_fresh fresh users uid row uid
      ≡ some (config (set_field secret_key (str fresh) (coalesced row)))
unfolding with_fresh
fresh_row fresh users uid row = rw ((int_eq.eqb_iff uid uid).1 refl) refl

module _ (platform : Platform) (strip_empty : platform.strip "" ≡ "") where
  blank : str_eq (platform.strip "") "" ≡ true
  blank = rw strip_empty refl

  -- Both readings of a stored secret that is not blank agree.
  same_text :
      (v : Option Value)
      → is_text_or_null v ≡ true
      → str_eq (platform.strip (json_text_of platform v)) "" ≡ false
      → platform.strip (str_of platform v) ≡ platform.strip (json_text_of platform v)
  same_text none text present = refl
  same_text (some null) text present = cc (blank, present)
  same_text (some (str s)) text present = refl
  same_text (some (bool b)) text present = cc text
  same_text (some (int n)) text present = cc text
  same_text (some (float f)) text present = cc text
  same_text (some (arr xs)) text present = cc text
  same_text (some (obj fs)) text present = cc text

  stored_existing :
      (row : Config)
      → is_text_or_null (find secret_key (coalesced row)) ≡ true
      → str_eq (existing platform row) "" ≡ false
      → (fs : Fields) × (row ≡ config fs) × (stored_secret platform fs ≡ existing platform row)
  unfolding find stored_secret
  stored_existing (config fs) text present = (fs, refl, same_text (find secret_key fs) text present)
  stored_existing no_config text present = cc (blank, present)

module _ (platform : Platform) (documented : IsDocumented platform)
    (strip_empty : platform.strip "" ≡ "") (guest_secret fresh : String) (users : Users)
    (uid issued_at now : ℤ) (nonce : String) (given : str_eq nonce "" ≡ false)
    (dotless : has_dot nonce ≡ false) (user : same uid guest_user_id ≡ false) where
  -- What a session of the user made under a secret resolves to.
  abbrev Resolves : Users → String → Type 0
  Resolves users' secret =
      resolve_session_user_id platform guest_secret users' now
        (make_session_token platform issued_at nonce uid secret)
      ≡ ok (if is_fresh issued_at now then some uid else none)

  resolves :
      (users' : Users) (fs : Fields) (secret : String)
      → users' uid ≡ some (config fs)
      → stored_secret platform fs ≡ secret
      → str_eq secret "" ≡ false
      → Resolves users' secret
  unfolding resolve_session_user_id load_user_config
  resolves users' fs secret row stored present =
      rw
        (
          resolve_session_user_id,
          parse_session_token-make platform documented issued_at nonce secret uid dotless given,
          user,
          row,
          stored,
          present,
        )
        (verify_session_token-make platform documented issued_at now nonce secret uid dotless given)

  stored_fresh :
      (secret : String) (row : Config)
      → platform.strip secret ≡ secret
      → stored_secret platform (set_field secret_key (str secret) (coalesced row)) ≡ secret
  unfolding stored_secret
  stored_fresh secret row stripped =
      rw (stored_secret, find-set_field secret_key (str secret) (coalesced row)) stripped

  module _ (row : Config) (known : users uid ≡ some row)
      (text : is_text_or_null (find secret_key (coalesced row)) ≡ true)
      (fresh_stripped : platform.strip fresh ≡ fresh) (fresh_given : str_eq fresh "" ≡ false) where
    -- For a user of the table who is not the guest and whose stored secret is absent, null or
    -- a text, a fresh secret without outer blanks and a nonce without a dot, both not empty:
    -- the secret that a login ensures exists, and a token made under it resolves to the user
    -- if it is fresh, and to nobody otherwise.
    pub ensure_user_session_secret-Resolves :
        let (users', found) = ensure_user_session_secret platform fresh users uid in
        (secret : String) × (found ≡ some secret) × Resolves users' secret
    ensure_user_session_secret-Resolves = elim (Bool-cases (str_eq (existing platform row) "")) [
      | inl e ↦ rw (ensure-fresh platform fresh users uid row known e) (
        fresh,
        refl,
        resolves (with_fresh fresh users uid row) _ fresh (fresh_row fresh users uid row)
            (stored_fresh fresh row fresh_stripped) fresh_given,
      )
      | inr e ↦ rw (ensure-existing platform fresh users uid row known e) (
          let (fs, r, stored) = stored_existing platform strip_empty row text e in
          (
            existing platform row,
            refl,
            resolves users fs (existing platform row) (known ∙ ap some r) stored e,
          ))
    ]
