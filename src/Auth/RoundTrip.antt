-- ===== src/Auth/RoundTrip.antt =====
-- backend/auth.py: a password that `set_web_password` stored, checked by `verify_web_password`.
use ghpulse.Prelude.{
  ℕ, String, true, false, ◌≡◌, refl, ◌∙◌, some, List, str_eq, eq_iff, ok, ◌>>=◌, Bool-cases, inl,
  inr, arith,
}
use ghpulse.Snapshot.{Value, str, Fields, end, field, find}
use ghpulse.Session.{compare_digest, is_ascii}
use ghpulse.Session.Users.{set_field}
use ghpulse.Session.Users.Login.{find-set_field}
use ghpulse.Auth.{
  PasswordRules, web_password_hash_key, web_password_salt_key, pbkdf2_iterations, is_truthy,
  has_web_password, pbkdf2, set_web_password, verify_stored, verify_web_password,
}

-- What Python documents of `hexdigest`.
pub record IsDocumented (rules : PasswordRules) : Type 0 where
  pub digest_ascii :
      (password salt : List ℕ) (n : ℕ) → is_ascii (rules.pbkdf2_hmac_hex password salt n) ≡ true
  pub digest_given :
      (password salt : List ℕ) (n : ℕ) → str_eq (rules.pbkdf2_hmac_hex password salt n) "" ≡ false

find-set_field_other :
    (j k : String) (v : Value) (fs : Fields)
    → str_eq k j ≡ false
    → find j (set_field k v fs) ≡ find j fs
unfolding find set_field
find-set_field_other j k v end other = rw other refl
find-set_field_other j k v (field i w fs) other = elim (Bool-cases (str_eq i k)) [
  | inl e ↦
      let apart : str_eq i j ≡ false = ground (arith, eq_iff i k, eq_iff i j, eq_iff k j) in
      rw (e, apart) refl
  | inr e ↦ rw (e, find-set_field_other j k v fs other) refl
]

module _ (rules : PasswordRules) (documented : IsDocumented rules) (salt_hex : String)
    (config : Fields) (password attempt : String) (salt encoded tried : List ℕ)
    (salt_given : str_eq salt_hex "" ≡ false) (decoded : rules.from_hex salt_hex ≡ some salt)
    (first : rules.encode password ≡ some encoded)
    (second : rules.encode attempt ≡ some tried) where
  abbrev stored : Fields
  stored =
      set_field web_password_hash_key (str (rules.pbkdf2_hmac_hex encoded salt pbkdf2_iterations))
        (set_field web_password_salt_key (str salt_hex) config)

  set_web_password-stored : set_web_password rules salt_hex config password ≡ ok stored
  unfolding set_web_password pbkdf2 ◌>>=◌
  set_web_password-stored = rw (decoded, first) refl

  found_hash :
      find web_password_hash_key stored
      ≡ some (str (rules.pbkdf2_hmac_hex encoded salt pbkdf2_iterations))
  found_hash = find-set_field web_password_hash_key _ _

  found_salt : find web_password_salt_key stored ≡ some (str salt_hex)
  found_salt =
      find-set_field_other web_password_salt_key web_password_hash_key _ _ refl
      ∙ find-set_field web_password_salt_key _ config

  stored-has_web_password : has_web_password rules stored ≡ true
  unfolding has_web_password is_truthy
  stored-has_web_password =
      rw
        (
          has_web_password,
          found_hash,
          found_salt,
          documented.digest_given encoded salt pbkdf2_iterations,
          salt_given,
        )
        refl

  stored-verify_web_password :
      verify_web_password rules stored attempt
      ≡ ok (
          str_eq
            (rules.pbkdf2_hmac_hex tried salt pbkdf2_iterations)
            (rules.pbkdf2_hmac_hex encoded salt pbkdf2_iterations))
  unfolding verify_web_password is_truthy verify_stored pbkdf2 compare_digest ◌>>=◌
  stored-verify_web_password =
      rw
        (
          verify_web_password,
          found_hash,
          found_salt,
          documented.digest_given encoded salt pbkdf2_iterations,
          salt_given,
          decoded,
          second,
          documented.digest_ascii tried salt pbkdf2_iterations,
          documented.digest_ascii encoded salt pbkdf2_iterations,
        )
        refl

  -- For a salt that is not empty and decodes, and passwords that can be encoded: storing a
  -- password succeeds, the config then has a password, and a check of another succeeds exactly if
  -- both have the same digest under the salt.
  pub verify_web_password-set :
      (config' : Fields) × (set_web_password rules salt_hex config password ≡ ok config')
      × (has_web_password rules config' ≡ true)
      × (verify_web_password rules config' attempt
          ≡ ok (
              str_eq
                (rules.pbkdf2_hmac_hex tried salt pbkdf2_iterations)
                (rules.pbkdf2_hmac_hex encoded salt pbkdf2_iterations)))
  verify_web_password-set =
      (stored, set_web_password-stored, stored-has_web_password, stored-verify_web_password)
