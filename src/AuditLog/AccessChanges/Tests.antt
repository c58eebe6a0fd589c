-- ===== src/AuditLog/AccessChanges/Tests.antt =====
-- Examples for the details of a change of access.
use mystic_auth.Prelude.{
  String, String_eq, ◌==◌, ◌≡◌, refl, some, List, [], ◌∷◌, map, if◌then◌else◌,
}
use mystic_auth.Api.{text, not_text}
use mystic_auth.AuditLog.AccessChanges.{
  SecurityEntry, string_value, security_access_change_details, security_access_change_summary,
}
use mystic_auth.AuditLog.AccessChanges.Details.{has_summary, has_details, has_summary-has_details}

abbrev granted : SecurityEntry
granted = record {
  user_email = some "a@x.org";
  event_type = "permission_granted";
  event_metadata = some (λ key. if key == "action" then text "users:read" else not_text);
}

abbrev key_only : String → List (String × String) → String
key_only key options = key

two_details :
    map (λ d. d.value) (security_access_change_details (λ s. s) key_only granted)
    ≡ "a@x.org" ∷ "users:read" ∷ []
unfolding security_access_change_details string_value
two_details = refl

granted_has_both :
    has_summary (security_access_change_summary (λ s. s) key_only granted)
    ≡ has_details (security_access_change_details (λ s. s) key_only granted)
granted_has_both = has_summary-has_details (λ s. s) key_only granted
