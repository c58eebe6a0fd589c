-- ===== src/Api.antt =====
-- frontend/src/mystic_auth/api/apiError.ts. The translations (i18next) are a parameter, `exists`
-- and `t`; what a request failed with is an axios error, which has a response or not, or any other
-- value. A value of type unknown is a text, a falsy value that is none, such as undefined, or any
-- other value. The console warning of a development
-- build is left out.
pub mod Messages
pub mod Requests
mod Tests
use Prim.Native.String
use mystic_auth.Prelude.{
  ℕ, String, Bool, true, false, not, ◌&&◌, Option, none, some, ◌==◌, ℕ_eq, String_eq, if◌then◌else◌,
}

pub data Unknown : Type 0 where
  text : String → Unknown
  falsy : Unknown
  not_text : Unknown

-- `{ detail, code?, params? }`
pub record ErrorBody (Params : Type 0) : Type 0 where
  pub detail : Unknown
  pub code : Unknown
  pub params : Option Params

pub record ErrorResponse (Params : Type 0) : Type 0 where
  pub status : ℕ
  pub data_of : Option (ErrorBody Params)

pub data Failure (Params : Type 0) : Type 0 where
  axios_error : Option (ErrorResponse Params) → Failure Params
  other_error : Failure Params

-- `translations`: the keys that exist, and the text of a key.
pub record Translations (Params : Type 0) : Type 0 where
  pub exists : String → Bool
  pub translate : String → Option Params → String

abbrev pub error_key : String → String
error_key code = String.◌++◌ "errors:" code

abbrev pub message_of_detail : Unknown → String → String
message_of_detail not_text fallback = fallback
message_of_detail falsy fallback = fallback
message_of_detail (text detail) fallback = if detail == "" then fallback else detail

abbrev pub translated_or : Option String → String → String
translated_or none next = next
translated_or (some translated) next = if translated == "" then next else translated

module _ {Params : Type 0} where
  unfoldable pub translate_error_code :
      Translations Params → Unknown → Option Params → Option String
  translate_error_code translations not_text params = none
  translate_error_code translations falsy params = none
  translate_error_code translations (text code) params =
      if translations.exists (error_key code)
      then some (translations.translate (error_key code) params)
      else none

  unfoldable pub is_forbidden_error : Failure Params → Bool
  is_forbidden_error other_error = false
  is_forbidden_error (axios_error none) = false
  is_forbidden_error (axios_error (some response)) = response.status == 403

  abbrev pub body_of : Option (ErrorResponse Params) → Option (ErrorBody Params)
  body_of none = none
  body_of (some response) = response.data_of

  abbrev pub message_of_body : Translations Params → Option (ErrorBody Params) → String → String
  message_of_body translations none fallback = fallback
  message_of_body translations (some body) fallback =
      translated_or (translate_error_code translations body.code body.params)
        (message_of_detail body.detail fallback)

  unfoldable pub extract_api_error_message : Translations Params → Failure Params → String → String
  unfolding translate_error_code
  extract_api_error_message translations other_error fallback = fallback
  extract_api_error_message translations (axios_error response) fallback =
      message_of_body translations (body_of response) fallback
