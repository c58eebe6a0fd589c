-- ===== src/Api/Messages.antt =====
-- Where the messages of apiError.ts come from.
use mystic_auth.Prelude.{
  String, false, Option, none, some, ◌==◌, String_eq, ◌≡◌, refl, ◌⊎◌, inl, inr, Bool-cases,
}
use mystic_auth.Api.{
  Unknown, text, falsy, not_text, ErrorBody, Failure, axios_error, other_error, Translations,
  translate_error_code, body_of, message_of_detail, message_of_body, translated_or,
  extract_api_error_message,
}

detail-source :
    (d : Unknown) (fallback : String)
    → (fallback == "") ≡ false
    → ((d ≡ text (message_of_detail d fallback)) ⊎ (message_of_detail d fallback ≡ fallback))
      × ((message_of_detail d fallback == "") ≡ false)
detail-source not_text fallback h = (inr refl, h)
detail-source falsy fallback h = (inr refl, h)
detail-source (text detail) fallback h = elim (Bool-cases (detail == "")) [
  | inl e ↦ rw e (inr refl, h)
  | inr e ↦ rw e (inl refl, e)
]

translated-source :
    (translated : Option String) (d : Unknown) (fallback : String)
    → (fallback == "") ≡ false
    → let message = translated_or translated (message_of_detail d fallback) in
      ((translated ≡ some message) ⊎ ((d ≡ text message) ⊎ (message ≡ fallback)))
      × ((message == "") ≡ false)
translated-source none d fallback h =
    (inr (detail-source d fallback h).0, (detail-source d fallback h).1)
translated-source (some t) d fallback h = elim (Bool-cases (t == "")) [
  | inl e ↦ rw e (inr (detail-source d fallback h).0, (detail-source d fallback h).1)
  | inr e ↦ rw e (inl refl, e)
]

module _ {Params : Type 0} where
  abbrev pub failure_body : Failure Params → Option (ErrorBody Params)
  failure_body other_error = none
  failure_body (axios_error response) = body_of response

  -- Where a message can come from: the translation of the error's code, the text of its detail, or
  -- the fallback of the caller.
  abbrev pub HasSource : Translations Params → Option (ErrorBody Params) → String → String → Type 0
  HasSource translations none fallback message = message ≡ fallback
  HasSource translations (some body) fallback message =
      (translate_error_code translations body.code body.params ≡ some message)
      ⊎ ((body.detail ≡ text message) ⊎ (message ≡ fallback))

  body-source :
      (translations : Translations Params) (body : Option (ErrorBody Params)) (fallback : String)
      → (fallback == "") ≡ false
      → HasSource translations body fallback (message_of_body translations body fallback)
        × ((message_of_body translations body fallback == "") ≡ false)
  body-source translations none fallback h = (refl, h)
  body-source translations (some body) fallback h =
      translated-source (translate_error_code translations body.code body.params) body.detail
        fallback h

  -- With a fallback that is not empty, the message of any failure is not empty, and it is the
  -- translation of the failure's code, the text of its detail, or the fallback; a failure without a
  -- body has the fallback.
  extract_api_error_message-HasSource :
      (translations : Translations Params) (failure : Failure Params) (fallback : String)
      → (fallback == "") ≡ false
      → let message = extract_api_error_message translations failure fallback in
        HasSource translations (failure_body failure) fallback message × ((message == "") ≡ false)
  unfolding extract_api_error_message
  extract_api_error_message-HasSource translations other_error fallback h = (refl, h)
  extract_api_error_message-HasSource translations (axios_error response) fallback h =
      body-source translations (body_of response) fallback h
