-- ===== src/Api/Requests/Tests.antt =====
-- Examples for the requests.
use Prim.Native.Nat.{ℕ}
use Prim.Native.String.{String}
use mystic_auth.Prelude.{
  true, false, ◌≡◌, ◌≢◌, refl, ap, some, [], ◌∷◌, map, ◌==◌, ℕ_eq, String_eq, ==_iff, split_at,
  if◌then◌else◌, Bool-cases, inl, inr, arith,
}
use mystic_auth.Api.Requests.{fields, rollback_policy_api}
use mystic_auth.Api.Requests.Calls.{ApiCall, revoke_user_passkey, request_of, endpoint}
use mystic_auth.Api.Requests.Served.{has_percent, PlainText, request_of-endpoint}

abbrev sample_encode : String → String
sample_encode s = if s == "a/b@example.com" then "a%2Fb%40example.com" else s

abbrev sample_decode : String → String
sample_decode s = if s == "a%2Fb%40example.com" then "a/b@example.com" else s

abbrev sample_number : ℕ → String
sample_number n = if n == 12 then "12" else "0"

sample_decode-plain : (s : String) → has_percent s ≡ false → sample_decode s ≡ s
sample_decode-plain s h = elim (Bool-cases (s == "a%2Fb%40example.com")) [
  | inl e ↦ absurd (escaped (ap has_percent ((==_iff s "a%2Fb%40example.com").0 e)))
  | inr e ↦ rw e refl
]
  where
    escaped : has_percent s ≢ true
    escaped e = ground arith

sample_PlainText : PlainText sample_decode sample_number
sample_PlainText = record {
  decode_plain = sample_decode-plain;
  number_slash = λ n. elim (Bool-cases (n == 12)) [ inl e ↦ rw e refl | inr e ↦ rw e refl ];
  number_percent = λ n. elim (Bool-cases (n == 12)) [ inl e ↦ rw e refl | inr e ↦ rw e refl ];
}

abbrev revoke_passkey : ApiCall String
revoke_passkey = revoke_user_passkey "a/b@example.com" 12

slash_kept_inside :
    (request_of sample_encode sample_number revoke_passkey).url
    ≡ "/users/a%2Fb%40example.com/passkeys/12"
unfolding request_of
slash_kept_inside = refl

empty_reason :
    (rollback_policy_api {P = String} sample_encode sample_number "editors" 12 (some "")).body
    ≡ fields []
unfolding rollback_policy_api
empty_reason = refl

request_of-endpoint_example :
    map sample_decode (split_at 47 (request_of sample_encode sample_number revoke_passkey).url)
    ≡ "" ∷ "users" ∷ "a/b@example.com" ∷ "passkeys" ∷ "12" ∷ []
unfolding endpoint
request_of-endpoint_example =
    request_of-endpoint sample_encode sample_decode sample_number sample_PlainText revoke_passkey
      (tt, ((refl, refl), (tt, (tt, tt))))
