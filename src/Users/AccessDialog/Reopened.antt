-- ===== src/Users/AccessDialog/Reopened.antt =====
-- How the state of the access dialog moves.
use mystic_auth.Prelude.{
  String, true, false, not, ◌≡◌, refl, List, ◌==◌, String_eq, ==_iff, has, has-add, has-delete,
  arith, if◌then◌else◌, Bool-cases, inl, inr,
}
use mystic_auth.Users.AccessDialog.{
  AccessDialogTab, DialogState, initial_dialog, render_dialog, toggled, toggle_policy_open,
  toggle_perm_group,
}

abbrev opened_at : AccessDialogTab → DialogState
opened_at tab = record (initial_dialog true) { tab = tab }

-- Whatever state the dialog was left in, closing and opening it shows its initial state with the tab
-- that the opening asks for; further renders of the open dialog change nothing.
render_dialog-reopened :
    (d : DialogState) (closing opening later : AccessDialogTab)
    → let reopened = render_dialog true opening (render_dialog false closing d) in
      (reopened ≡ record (initial_dialog true) { tab = opening })
      × (render_dialog true later reopened ≡ reopened)
unfolding render_dialog
render_dialog-reopened d closing opening later = elim (Bool-cases d.prev_is_open) [
  | inl e ↦ rw e (refl, refl)
  | inr e ↦ rw e (refl, refl)
]

has-toggled :
    (s : List String) (x y : String)
    → has (toggled s x) y ≡ (if x == y then not (has s y) else has s y)
has-toggled s x y = ground (arith, has-add s x y, has-delete s x y, ==_iff x y)

-- The chevron of a policy or of a group turns that one, and leaves every other as it is.
pub toggle_policy_open-perm_group :
    (d : DialogState) (x y : String)
    → (has (toggle_policy_open x d).pol_open y
        ≡ (if x == y then not (has d.pol_open y) else has d.pol_open y))
      × (has (toggle_perm_group x d).perm_closed_groups y
          ≡ (if x == y then not (has d.perm_closed_groups y) else has d.perm_closed_groups y))
unfolding toggle_policy_open toggle_perm_group
toggle_policy_open-perm_group d x y =
    (has-toggled d.pol_open x y, has-toggled d.perm_closed_groups x y)
