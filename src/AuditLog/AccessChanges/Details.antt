-- ===== src/AuditLog/AccessChanges/Details.antt =====
-- When an entry of the security log has details and a summary of a change of access.
use mystic_auth.Prelude.{String, Bool, true, false, ◌≡◌, refl, Option, none, some, List, [], ◌∷◌}
use mystic_auth.Api.{Unknown}
use mystic_auth.AuditLog.AccessChanges.{
  ChangeDetail, SecurityEntry, ChangeEvent, change_event, details_of, details_for, summary_for,
  security_access_change_details, security_access_change_summary,
}

abbrev pub has_details : List ChangeDetail → Bool
has_details [] = false
has_details (d ∷ ds) = true

abbrev pub has_summary : Option String → Bool
has_summary none = false
has_summary (some s) = true

module _ (trim : String → String) (t : String → List (String × String) → String) where
  summary_for-has_summary :
      (ds : List ChangeDetail) (m : Option (String → Unknown)) (event : ChangeEvent)
      → has_summary (summary_for trim t ds m (some event)) ≡ has_details ds
  summary_for-has_summary [] m event = refl
  summary_for-has_summary (d ∷ ds) m event = refl

  with_metadata :
      (email : Option String) (m : String → Unknown) (event : Option ChangeEvent)
      → has_summary (summary_for trim t (details_for trim t email m event) (some m) event)
        ≡ has_details (details_for trim t email m event)
  with_metadata email m none = refl
  with_metadata email m (some event) =
      summary_for-has_summary (details_of trim t email m event) (some m) event

  without_metadata :
      (entry : SecurityEntry) (m : Option (String → Unknown))
      → entry.event_metadata ≡ m
      → has_summary (security_access_change_summary trim t entry)
        ≡ has_details (security_access_change_details trim t entry)
  unfolding security_access_change_summary security_access_change_details
  without_metadata entry none h = rw h refl
  without_metadata entry (some m) h =
      rw h (with_metadata entry.user_email m (change_event entry.event_type))

  -- An entry has a summary of its change of access exactly when it has a detail to show: the two
  -- switches agree on the types of events.
  pub has_summary-has_details :
      (entry : SecurityEntry)
      → has_summary (security_access_change_summary trim t entry)
        ≡ has_details (security_access_change_details trim t entry)
  has_summary-has_details entry = without_metadata entry entry.event_metadata refl
