-- ===== src/Auth/Tests.antt =====
-- backend/auth.py: a stand-in for Python's hash functions, whose digest tells the length of a password.
use ghpulse.Prelude.{ℕ, String, true, false, ◌≡◌, refl, some, List, [], ◌∷◌, str_eq, ok}
use ghpulse.Snapshot.{Fields, end}
use ghpulse.Snapshot.Require.{text_length}
use ghpulse.Session.{is_ascii}
use ghpulse.Session.Tests.{ones, is_ascii-ones, given}
use ghpulse.Auth.{PasswordRules, has_web_password, set_web_password, verify_web_password}
use ghpulse.Auth.RoundTrip.{IsDocumented, verify_web_password-set}

abbrev digest_of : List ℕ → String
digest_of [] = "d"
digest_of (n ∷ ns) = String.◌∷◌ "d" (ones n)

abbrev pub length_rules : PasswordRules
length_rules = record {
  from_hex = λ text. some (text_length text ∷ []);
  encode = λ text. some (text_length text ∷ []);
  pbkdf2_hmac_hex = λ password salt iterations. digest_of password;
  is_zero = λ literal. str_eq literal "0.0";
}

digest_of-ascii : (ns : List ℕ) → is_ascii (digest_of ns) ≡ true
unfolding is_ascii
digest_of-ascii [] = refl
digest_of-ascii (n ∷ ns) = is_ascii-ones n

digest_of-given : (ns : List ℕ) → str_eq (digest_of ns) "" ≡ false
digest_of-given [] = refl
digest_of-given (n ∷ ns) = given "d" (ones n)

length_rules-IsDocumented : IsDocumented length_rules
length_rules-IsDocumented = record {
  digest_ascii = λ password salt n. digest_of-ascii password;
  digest_given = λ password salt n. digest_of-given password;
}

verify_web_password-set_example :
    (config' : Fields) × (set_web_password length_rules "ab" end "word" ≡ ok config')
    × (has_web_password length_rules config' ≡ true)
    × (verify_web_password length_rules config' "sword"
        ≡ ok (str_eq (digest_of (5 ∷ [])) (digest_of (4 ∷ []))))
verify_web_password-set_example =
    verify_web_password-set length_rules length_rules-IsDocumented "ab" end "word" "sword" (2 ∷ [])
      (4 ∷ []) (5 ∷ []) refl (unfold text_length in refl) (unfold text_length in refl)
      (unfold text_length in refl)
