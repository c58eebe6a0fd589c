-- ===== src/Users/AccessHandlers/Undone.antt =====
-- Undo of userAccessDialogHandlers.ts against a backend that accepts every request.
use mystic_auth.Prelude.{
  String, Bool, true, false, not, ◌&&◌, ◌≡◌, ◌∙◌, ap, Option, none, some, List, [], ◌∷◌, ◌==◌,
  String_eq, ==_iff, ==_refl, Result, resolved, if◌then◌else◌, arith,
}
use mystic_auth.Ui.Toaster.{info, success}
use mystic_auth.Ui.Toaster.Orderly.{IsOrderly}
use mystic_auth.Ui.Undo.{Screen, created_id, toast_of, show, finish, click}
use mystic_auth.Ui.Undo.Shown.{click-created, click-updated, find_toast-create}
use mystic_auth.Users.AccessHandlers.{
  AccessRequest, assign_policy, revoke_policy, revoke_policy_action, grant_permission,
  revoke_permission, toggle_policy, toggle_direct_permission, undo_label, policy_revoked,
  policy_assigned, CurrentGrant, permission_revoked, permission_granted, loading_toast,
}

-- Who has which policy, and with which conditions a direct grant.
pub record Access (C : Type 0) : Type 0 where
  pub has_policy : String → String → Bool
  pub grant_of : String → String → String → Option (Option C)

module _ {C : Type 0} (detach : String → String → String → Access C → Access C) where
  abbrev pub set_policy : String → String → Bool → Access C → Access C
  set_policy email name held w = record w {
    has_policy = λ e n. if email == e && name == n then held else w.has_policy e n;
  }

  abbrev pub set_grant : String → String → String → Option (Option C) → Access C → Access C
  set_grant email action resource_type grant w = record w {
    grant_of = λ e a r.
        if email == e && (action == a && resource_type == r) then grant else w.grant_of e a r;
  }

  -- A backend that accepts every request; what it does to take one action out of a user's policy is
  -- not said.
  abbrev pub serve : AccessRequest C → Access C → Access C
  serve (assign_policy email name) w = set_policy email name true w
  serve (revoke_policy email name) w = set_policy email name false w
  serve (revoke_policy_action email name action) w = detach email name action w
  serve (grant_permission email action resource_type conditions) w =
      set_grant email action resource_type (some conditions) w
  serve (revoke_permission email action resource_type) w =
      set_grant email action resource_type none w

  abbrev pub accepting : AccessRequest C → Access C → Result String Unit × Access C
  accepting request w = (resolved tt, serve request w)

  -- Setting a policy back to what it was.
  set_policy-back :
      (email name e n : String) (held was : Bool) (w : Access C)
      → w.has_policy email name ≡ was
      → (set_policy email name was (set_policy email name held w)).has_policy e n ≡ w.has_policy e n
  set_policy-back email name e n held was w h = ground (arith, ==_iff email e, ==_iff name n, h)

  set_grant-back :
      (email action resource_type e a r : String) (between was : Option (Option C)) (w : Access C)
      → w.grant_of email action resource_type ≡ was
      → (set_grant email action resource_type was
            (set_grant email action resource_type between w)).grant_of
          e a r
        ≡ w.grant_of e a r
  set_grant-back email action resource_type e a r between was w h =
      ground (arith, ==_iff email e, ==_iff action a, ==_iff resource_type r, h)

  -- What a toggle makes of a grant: none if there was one, one without conditions if not.
  abbrev pub flipped : CurrentGrant C → CurrentGrant C
  flipped none = some none
  flipped (some conditions) = none

  module _ {S : Type 0} (t : String → List (String × String) → String) where
    -- Where the backend accepts the request of the toggle and that of the Undo, and makes or takes
    -- back exactly the assignment asked for: a policy of a named user whose assignment the screen
    -- shows as it is, toggled and then undone by a click on the toast that has reported it, is again
    -- assigned to exactly the users that it was assigned to, and so is every other policy; in between
    -- its assignment is the opposite. The toaster is in order, as it is after any calls.
    toggle_policy-undone :
        (user_email policy_name : String) (was_assigned : Bool) (w : Access C)
        (screen : Screen (AccessRequest C) S)
        → (user_email == "") ≡ false
        → w.has_policy user_email policy_name ≡ was_assigned
        → IsOrderly screen.toaster
        → let toggled =
            finish accepting
              (toggle_policy t (some user_email) policy_name was_assigned screen)
              w in
          let undone = click accepting (created_id screen.toaster) toggled in
          (toggled.1.has_policy user_email policy_name ≡ not was_assigned)
          × ((e n : String) → undone.1.has_policy e n ≡ w.has_policy e n)
    unfolding toggle_policy
    toggle_policy-undone user_email policy_name true w screen named h o = rw named (
      ground (arith, ==_refl user_email, ==_refl policy_name),
      λ e n.
          ap (λ done. done.1.has_policy e n)
            (click-created (undo_label t) (toast_of (policy_revoked t policy_name) info) _ accepting
              (set_policy user_email policy_name false w) screen o)
          ∙ set_policy-back user_email policy_name e n false true w h,
    )
    toggle_policy-undone user_email policy_name false w screen named h o = rw named (
      ground (arith, ==_refl user_email, ==_refl policy_name),
      λ e n.
          ap (λ done. done.1.has_policy e n)
            (click-created (undo_label t) (toast_of (policy_assigned t policy_name) success) _
              accepting (set_policy user_email policy_name true w) screen o)
          ∙ set_policy-back user_email policy_name e n true false w h,
    )

    -- Where the backend accepts the request of the toggle and that of the Undo, and makes or takes
    -- back exactly the grant asked for: a direct grant of a named user that the screen shows as it is,
    -- toggled and then undone by a click on the toast that has reported the pending request, is again
    -- what it was, its conditions included, and so is every other grant; in between it is revoked, or
    -- granted without conditions. The toaster is in order, as it is after any calls.
    pub toggle_direct_permission-undone :
        (user_email action resource_type : String) (current : CurrentGrant C) (w : Access C)
        (screen : Screen (AccessRequest C) S)
        → (user_email == "") ≡ false
        → w.grant_of user_email action resource_type ≡ current
        → IsOrderly screen.toaster
        → let toggled =
            finish accepting
              (toggle_direct_permission t (some user_email) action resource_type current screen)
              w in
          let undone = click accepting (created_id screen.toaster) toggled in
          (toggled.1.grant_of user_email action resource_type ≡ flipped current)
          × ((e a r : String) → undone.1.grant_of e a r ≡ w.grant_of e a r)
    unfolding toggle_direct_permission
    toggle_direct_permission-undone user_email action resource_type (some conditions) w screen named
          h o =
        let pending =
          loading_toast
            (t "users:accessDialog.permissionRevokingToast" (("action", action) ∷ [])) in
        rw named (
          ground (arith, ==_refl user_email, ==_refl action, ==_refl resource_type),
          λ e a r.
              ap (λ done. done.1.grant_of e a r)
                (click-updated (undo_label t) (toast_of (permission_revoked t action) info) _
                  accepting (set_grant user_email action resource_type none w)
                  (created_id screen.toaster) _ (show pending screen)
                  (find_toast-create pending screen.toaster o))
              ∙ set_grant-back user_email action resource_type e a r none (some conditions) w h,
        )
    toggle_direct_permission-undone user_email action resource_type none w screen named h o =
        let pending =
          loading_toast
            (t "users:accessDialog.permissionGrantingToast" (("action", action) ∷ [])) in
        rw named (
          ground (arith, ==_refl user_email, ==_refl action, ==_refl resource_type),
          λ e a r.
              ap (λ done. done.1.grant_of e a r)
                (click-updated (undo_label t) (toast_of (permission_granted t action) success) _
                  accepting (set_grant user_email action resource_type (some none) w)
                  (created_id screen.toaster) _ (show pending screen)
                  (find_toast-create pending screen.toaster o))
              ∙ set_grant-back user_email action resource_type e a r (some none) none w h,
        )
