-- ===== src/Passwords.antt =====
-- frontend/src/mystic_auth/auth/password_rules/passwordRules.ts. A text is the list of its UTF-16
-- code units, which `length` counts; the three character classes hold ASCII only, so a surrogate is
-- in none of them. The translator `t` is a parameter.
pub mod Agreement
mod Tests
use mystic_auth.Prelude.{
  ℕ, zero, ◌≤◌, String, Bool, true, false, ◌&&◌, ◌==◌, ℕ_eq, Option, none, some, List, [], ◌∷◌, leb,
  length, any, filter, if◌then◌else◌,
}

pub record PasswordRules : Type 0 where
  pub length_rule : Bool
  pub upper_rule : Bool
  pub lower_rule : Bool
  pub number_rule : Bool

pub data PasswordStrength : Type 0 where
  weak medium strong unrated : PasswordStrength

-- `[a-b]` of a regular expression.
abbrev pub in_range : ℕ → ℕ → ℕ → Bool
in_range low high unit = leb low unit && leb unit high

unfoldable pub check_password_rules : List ℕ → PasswordRules
check_password_rules pwd = record {
  length_rule = leb 8 (length pwd);
  upper_rule = any (in_range 65 90) pwd;
  lower_rule = any (in_range 97 122) pwd;
  number_rule = any (in_range 48 57) pwd;
}

abbrev pub passed_rules : PasswordRules → ℕ
passed_rules r =
    length (filter (λ b. b) (r.length_rule ∷ r.upper_rule ∷ r.lower_rule ∷ r.number_rule ∷ []))

abbrev pub strength_of : ℕ → PasswordStrength
strength_of passed = if leb passed 2 then weak else if passed == 3 then medium else strong

unfoldable pub evaluate_password_strength : List ℕ → PasswordStrength
unfolding check_password_rules
evaluate_password_strength [] = unrated
evaluate_password_strength (unit ∷ units) =
    strength_of (passed_rules (check_password_rules (unit ∷ units)))

unfoldable pub validate_password : List ℕ → (String → String) → Option String
unfolding check_password_rules
validate_password pwd t =
    let rules = check_password_rules pwd in
    if rules.length_rule
    then if rules.upper_rule
      then if rules.lower_rule
        then if rules.number_rule then none else some (t "auth:passwordRules.numberError")
        else some (t "auth:passwordRules.lowerError")
      else some (t "auth:passwordRules.upperError")
    else some (t "auth:passwordRules.lengthError")
