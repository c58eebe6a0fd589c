-- ===== src/AuditLog/AccessChanges.antt =====
-- frontend/src/mystic_auth/audit_log/security_log/securityAccessChangeDetails.ts. The translations
-- and `trim` are parameters. Metadata gives the value of a key, which is not a text where the key
-- is missing.
pub mod Details
mod Tests
use mystic_auth.Prelude.{
  String, Bool, true, false, Option, none, some, get_or, List, [], ◌∷◌, ◌++◌, ◌==◌, String_eq,
  if◌then◌else◌,
}
use mystic_auth.Api.{Unknown, text, falsy, not_text}

pub record ChangeDetail : Type 0 where
  pub label : String
  pub value : String

-- Of `SecurityAuditLogEntryRead`, the fields that are read.
pub record SecurityEntry : Type 0 where
  pub user_email : Option String
  pub event_type : String
  pub event_metadata : Option (String → Unknown)

-- The event types of the two switches.
pub data ChangeEvent : Type 0 where
  policy_assigned policy_revoked policy_action_revoked : ChangeEvent
  permission_granted permission_revoked user_role_changed : ChangeEvent

abbrev pub change_event : String → Option ChangeEvent
change_event e =
    if e == "policy_assigned"
    then some policy_assigned
    else (if e == "policy_revoked"
        then some policy_revoked
        else (if e == "policy_action_revoked"
            then some policy_action_revoked
            else (if e == "permission_granted"
                then some permission_granted
                else (if e == "permission_revoked"
                    then some permission_revoked
                    else (if e == "user_role_changed" then some user_role_changed else none)))))

module _ (trim : String → String) where
  unfoldable pub string_value : Unknown → Option String
  string_value not_text = none
  string_value falsy = none
  string_value (text s) = if trim s == "" then none else some s

  module _ (t : String → List (String × String) → String) where
    abbrev pub detail_of : String → Option String → List ChangeDetail
    detail_of label none = []
    detail_of label (some value) =
        if value == "" then [] else record { label = label; value = value } ∷ []

    abbrev pub target : Option String → List ChangeDetail
    target user_email = detail_of (t "security.drawer.targetUser" []) user_email

    abbrev pub field : (String → Unknown) → String → String → List ChangeDetail
    field m label key = detail_of label (string_value (m key))

    abbrev pub actor : (String → Unknown) → String → List ChangeDetail
    actor m key = field m (t "security.drawer.actor" []) key

    abbrev pub details_of : Option String → (String → Unknown) → ChangeEvent → List ChangeDetail
    details_of email m policy_assigned =
        target email
        ++ (actor m "assigned_by" ++ field m (t "security.drawer.policy" []) "policy_name")
    details_of email m policy_revoked =
        target email
        ++ (actor m "revoked_by" ++ field m (t "security.drawer.policy" []) "policy_name")
    details_of email m policy_action_revoked =
        target email
        ++ (actor m "revoked_by"
            ++ (field m (t "security.drawer.policy" []) "policy_name"
                ++ field m (t "security.drawer.action" []) "action"))
    details_of email m permission_granted =
        target email
        ++ (actor m "granted_by"
            ++ (field m (t "security.drawer.action" []) "action"
                ++ field m (t "security.drawer.resourceType" []) "resource_type"))
    details_of email m permission_revoked =
        target email
        ++ (actor m "revoked_by"
            ++ (field m (t "security.drawer.action" []) "action"
                ++ field m (t "security.drawer.resourceType" []) "resource_type"))
    details_of email m user_role_changed =
        target email
        ++ (actor m "changed_by"
            ++ (field m (t "security.drawer.oldRole" []) "old_role"
                ++ field m (t "security.drawer.newRole" []) "new_role"))

    abbrev pub details_for :
        Option String → (String → Unknown) → Option ChangeEvent → List ChangeDetail
    details_for email m none = []
    details_for email m (some event) = details_of email m event

    abbrev pub details_with : SecurityEntry → Option (String → Unknown) → List ChangeDetail
    details_with entry none = []
    details_with entry (some m) = details_for entry.user_email m (change_event entry.event_type)

    unfoldable pub security_access_change_details : SecurityEntry → List ChangeDetail
    unfolding string_value
    security_access_change_details entry = details_with entry entry.event_metadata

    -- `stringValue(entry.event_metadata?.key) ?? "-"`
    abbrev pub value_or_dash : Option (String → Unknown) → String → String
    value_or_dash none key = "-"
    value_or_dash (some m) key = get_or (string_value (m key)) "-"

    abbrev pub summary_of : Option (String → Unknown) → ChangeEvent → String
    summary_of m policy_assigned = t "security.details.policyAssigned" (
        ("policyName", value_or_dash m "policy_name")
        ∷ ("actor", value_or_dash m "assigned_by")
        ∷ [])
    summary_of m policy_revoked = t "security.details.policyRevoked" (
        ("policyName", value_or_dash m "policy_name")
        ∷ ("actor", value_or_dash m "revoked_by")
        ∷ [])
    summary_of m policy_action_revoked = t "security.details.policyActionRevoked" (
        ("action", value_or_dash m "action")
        ∷ ("policyName", value_or_dash m "policy_name")
        ∷ ("actor", value_or_dash m "revoked_by")
        ∷ [])
    summary_of m permission_granted = t "security.details.permissionGranted" (
        ("action", value_or_dash m "action")
        ∷ ("resourceType", value_or_dash m "resource_type")
        ∷ ("actor", value_or_dash m "granted_by")
        ∷ [])
    summary_of m permission_revoked = t "security.details.permissionRevoked" (
        ("action", value_or_dash m "action")
        ∷ ("resourceType", value_or_dash m "resource_type")
        ∷ ("actor", value_or_dash m "revoked_by")
        ∷ [])
    summary_of m user_role_changed = t "security.details.roleChanged" (
        ("oldRole", value_or_dash m "old_role")
        ∷ ("newRole", value_or_dash m "new_role")
        ∷ ("actor", value_or_dash m "changed_by")
        ∷ [])

    abbrev pub summary_for :
        List ChangeDetail → Option (String → Unknown) → Option ChangeEvent → Option String
    summary_for [] m event = none
    summary_for (d ∷ ds) m none = none
    summary_for (d ∷ ds) m (some event) = some (summary_of m event)

    unfoldable pub security_access_change_summary : SecurityEntry → Option String
    unfolding security_access_change_details
    security_access_change_summary entry =
        summary_for (security_access_change_details entry) entry.event_metadata
          (change_event entry.event_type)
