-- ===== src/Session/Users.antt =====
-- backend/session.py: the secrets in the auth database's users table, and the user of a token.
pub mod Login
use ghpulse.Prelude.{
  String, Bool, true, false, Option, none, some, str_eq, if◌then◌else◌, Result, ok,
}
use ghpulse.Prelude.Int.{ℤ, pos}
use ghpulse.Prelude.Equality.{same, int_eq}
use ghpulse.Snapshot.{Value, null, str, Fields, end, field, find}
use ghpulse.Session.{Failure, Platform}
use ghpulse.Session.Token.{parse_session_token, verify_session_token, make_session_token}

-- The `config` column of each user: none without a row, and null when the column is NULL.
pub data Config : Type 0 where
  no_config : Config
  config : Fields → Config

abbrev pub Users : Type 0
Users = ℤ → Option Config

abbrev pub guest_user_id : ℤ
guest_user_id = pos 0

abbrev pub secret_key : String
secret_key = "web_session_secret"

-- `row[0] if row else None`
abbrev fields_of : Option Config → Option Fields
fields_of none = none
fields_of (some no_config) = none
fields_of (some (config fs)) = some fs

unfoldable pub load_user_config : Users → ℤ → Option Fields
load_user_config users user_id = fields_of (users user_id)

-- `jsonb_set(COALESCE(config, '{}'), '{key}', value, true)`
unfoldable pub set_field : String → Value → Fields → Fields
set_field k v end = field k v end
set_field k v (field j w fs) = if str_eq j k then field j v fs else field j w (set_field k v fs)

abbrev pub coalesced : Config → Fields
coalesced no_config = end
coalesced (config fs) = fs

module _ (platform : Platform) where
  -- `str(config.get(key, ""))`
  abbrev pub str_of : Option Value → String
  str_of none = ""
  str_of (some null) = "None"
  str_of (some (str s)) = s
  str_of (some v) = platform.str_value v

  -- `str(config ->> key or "")`
  abbrev pub json_text_of : Option Value → String
  json_text_of none = ""
  json_text_of (some null) = ""
  json_text_of (some (str s)) = s
  json_text_of (some v) = platform.json_text v

  -- The secret that a session is checked with; the empty text when there is none.
  unfoldable pub stored_secret : Fields → String
  stored_secret fs = platform.strip (str_of (find secret_key fs))

  -- The row lock makes the call atomic; `fresh` is what `secrets.token_urlsafe` returned.
  unfoldable pub ensure_user_session_secret : (fresh : String) → Users → ℤ → Users × Option String
  ensure_user_session_secret fresh users user_id = elim (users user_id) [
    | none ↦ (users, none)
    | some row ↦
        let fs = coalesced row in
        let existing = platform.strip (json_text_of (find secret_key fs)) in
        if str_eq existing ""
        then (
          (λ id.
              if same id user_id
              then some (config (set_field secret_key (str fresh) fs))
              else users id),
          some fresh,
        )
        else (users, some existing)
  ]

  unfoldable pub make_guest_session_token :
      (guest_secret : String) (now : ℤ) (nonce : String) → String
  make_guest_session_token guest_secret now nonce =
      make_session_token platform now nonce guest_user_id guest_secret

  unfoldable pub resolve_session_user_id :
      (guest_secret : String) → Users → (now : ℤ) → String → Result Failure (Option ℤ)
  resolve_session_user_id guest_secret users now token = elim (parse_session_token platform token) [
    | none ↦ ok none
    | some parsed ↦
        if same parsed.user_id guest_user_id
        then verify_session_token platform now token guest_secret
        else elim (load_user_config users parsed.user_id) [
          | none ↦ ok none
          | some fs ↦
              let secret = stored_secret fs in
              if str_eq secret "" then ok none else verify_session_token platform now token secret
        ]
  ]
