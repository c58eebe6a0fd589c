-- ===== src/Passwords/Agreement.antt =====
-- The strength meter and the validation of passwordRules.ts agree.
use mystic_auth.Prelude.{
  ℕ, String, ◌≡◌, ◌↔◌, none, List, [], ◌∷◌, ◌++◌, any-append, length-append, arith,
}
use mystic_auth.Passwords.{
  strong, in_range, check_password_rules, evaluate_password_strength, validate_password,
}

-- A password is shown as strong exactly when validation finds nothing wrong with it.
evaluate_password_strength-validate_password :
    (pwd : List ℕ) (t : String → String)
    → (evaluate_password_strength pwd ≡ strong) ↔ (validate_password pwd t ≡ none)
unfolding evaluate_password_strength validate_password check_password_rules
evaluate_password_strength-validate_password [] t = ground arith
evaluate_password_strength-validate_password (unit ∷ units) t = ground arith

-- A valid password stays valid however it is continued.
validate_password-append :
    (pwd more : List ℕ) (t : String → String)
    → validate_password pwd t ≡ none
    → validate_password (pwd ++ more) t ≡ none
unfolding validate_password check_password_rules
validate_password-append pwd more t valid = ground (
  arith,
  length-append pwd more,
  any-append (in_range 65 90) pwd more,
  any-append (in_range 97 122) pwd more,
  any-append (in_range 48 57) pwd more,
)
