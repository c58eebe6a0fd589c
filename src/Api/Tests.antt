-- ===== src/Api/Tests.antt =====
-- Examples for API errors.
use mystic_auth.Prelude.{◌≡◌, refl, true, ◌==◌, String_eq, none, some, ℕ}
use mystic_auth.Api.{
  Translations, Failure, axios_error, text, not_text, extract_api_error_message,
  translate_error_code, is_forbidden_error,
}

abbrev english : Translations ℕ
english = record {
  exists = λ key. key == "errors:locked";
  translate = λ key params. "Your account is locked.";
}

abbrev locked : Failure ℕ
locked = axios_error (
    some (record {
      status = 403;
      data_of = some (record { detail = text "Locked"; code = text "locked"; params = none });
    }))

abbrev invalid : Failure ℕ
invalid = axios_error (
    some (record {
      status = 422;
      data_of = some (record { detail = not_text; code = text "unlisted"; params = none });
    }))

locked_message : extract_api_error_message english locked "Failed" ≡ "Your account is locked."
unfolding extract_api_error_message translate_error_code
locked_message = refl

invalid_message : extract_api_error_message english invalid "Failed" ≡ "Failed"
unfolding extract_api_error_message translate_error_code
invalid_message = refl

locked_is_forbidden : is_forbidden_error locked ≡ true
unfolding is_forbidden_error
locked_is_forbidden = refl
