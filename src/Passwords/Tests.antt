-- ===== src/Passwords/Tests.antt =====
-- Examples for the password rules.
use mystic_auth.Prelude.{ℕ, ◌≡◌, refl, none, List, [], ◌∷◌}
use mystic_auth.Passwords.{
  medium, check_password_rules, evaluate_password_strength, validate_password,
}

-- "Passw0rd"
abbrev password : List ℕ
password = 80 ∷ 97 ∷ 115 ∷ 115 ∷ 119 ∷ 48 ∷ 114 ∷ 100 ∷ []

password_valid : validate_password password (λ k. k) ≡ none
unfolding validate_password check_password_rules
password_valid = refl

no_digit_medium :
    evaluate_password_strength (80 ∷ 97 ∷ 115 ∷ 115 ∷ 119 ∷ 111 ∷ 114 ∷ 100 ∷ []) ≡ medium
unfolding evaluate_password_strength check_password_rules
no_digit_medium = refl
