-- ===== src/Policies/Form/Actions.antt =====
-- The actions of the policy form against what the backend stores, and a change of the resource
-- type that takes actions away.
use mystic_auth.Prelude.{
  ℕ, ◌-◌, ◌≤◌, String, Bool, not, ◌≡◌, refl, sym, ◌∙◌, ap, Option, some, List, [], ◌∷◌, String_eq,
  ==_refl, Result, arith, inl, inr, Bool-cases, Option-cases, ltb, length, filter, length-filter-le,
  has, has-filter, ◌&&◌, ◌⊎◌,
}
use mystic_auth.Ui.Toaster.{success, error}
use mystic_auth.Ui.Toaster.Orderly.{IsOrderly}
use mystic_auth.Ui.Undo.{
  Undo, Screen, with_undo, show_with_undo, press_undo, created_id, toast_of, on_page, finish, click,
}
use mystic_auth.Ui.Undo.Shown.{click-created, click-plain}
use mystic_auth.Users.AccessRows.{PermissionCatalogEntry}
use mystic_auth.Policies.{PolicyRead}
use mystic_auth.Policies.PageHandlers.{
  PolicyUpdate, set_actions, handle_actions_change, granted_or_revoked, lasting, label_of, or_else,
  find_not_in, is_some_text,
}
use mystic_auth.Policies.PageHandlers.Undone.{Stored, serve, backend}
use mystic_auth.Policies.Form.{
  PolicyForm, change_actions, roll_back, handle_resource_type_change, kept_actions,
  set_type_and_actions, cleared_toast, undo_type_change, valid_for_new_type,
}

module _ (t : String → List (String × String) → String) (format : String → String)
    (refuses : PolicyUpdate → Option String) (policy : PolicyRead) (next_actions : List String)
    (w : Stored) (before : Screen PolicyUpdate PolicyForm) where
  abbrev is_grant : Bool
  is_grant = is_some_text (find_not_in next_actions before.page.values.actions)

  abbrev label : Option String
  label = label_of format (
      or_else (find_not_in next_actions before.page.values.actions)
        (find_not_in before.page.values.actions next_actions))

  -- A change of the actions on the form, and the request that the page makes of it, to its end.
  abbrev pub actions_changed : Screen PolicyUpdate PolicyForm × Stored
  actions_changed =
      let form = before.page in
      finish (backend refuses)
        (handle_actions_change t format (some policy) next_actions (roll_back form)
          form.values.actions (change_actions next_actions form)
          (on_page (change_actions next_actions form) before))
        w

  -- The actions on the form are those that the backend stores.
  abbrev pub InStep : Screen PolicyUpdate PolicyForm × Stored → Type 0
  InStep s = s.0.page.values.actions ≡ s.1.actions_of policy.name

  InStep-along : (s u : Screen PolicyUpdate PolicyForm × Stored) → s ≡ u → InStep u → InStep s
  InStep-along s u e h =
      ap (λ r. r.0.page.values.actions) e ∙ h ∙ ap (λ r. r.1.actions_of policy.name) (sym e)

  abbrev changed : Screen PolicyUpdate PolicyForm
  changed = on_page (change_actions next_actions before.page) before

  -- The Undo that is offered, and its toast.
  abbrev offered_undo : Undo PolicyUpdate PolicyForm
  offered_undo = record {
    first = roll_back before.page;
    request = some (set_actions policy.name before.page.values.actions);
    done = toast_of (granted_or_revoked t (not is_grant) label policy.name) success;
    failed = change_actions next_actions before.page;
  }

  undone-InStep : InStep (
      finish
        (backend refuses)
        (press_undo (created_id before.toaster) offered_undo (
          show_with_undo
            (with_undo
              (t "policies:page.undo" [])
              (lasting (toast_of (granted_or_revoked t is_grant label policy.name) success)))
            offered_undo
            changed))
        (serve (set_actions policy.name next_actions) w))
  unfolding change_actions roll_back
  undone-InStep =
      elim (Option-cases (refuses (set_actions policy.name before.page.values.actions))) [
        | inl e ↦ rw e (ground (arith, ==_refl policy.name))
        | inr (message, e) ↦ rw e (ground (arith, ==_refl policy.name))
      ]

  -- If the form shows the stored actions, it does so again after a change of the actions and its
  -- request, and once more after a click on the toast that this leaves and the request of its Undo,
  -- whichever of the two requests the backend rejects.
  pub actions_changed-InStep :
      before.page.values.actions ≡ w.actions_of policy.name
      → IsOrderly before.toaster
      → InStep actions_changed
        × InStep (click (backend refuses) (created_id before.toaster) actions_changed)
  unfolding handle_actions_change change_actions roll_back
  actions_changed-InStep h o =
      elim (Option-cases (refuses (set_actions policy.name next_actions))) [
        | inr (message, e) ↦ rw e (
          h,
          InStep-along _ _
              (click-plain (backend refuses) (toast_of message error) w
                (on_page (roll_back before.page) changed) refl o)
              h,
        )
        | inl e ↦ rw e (
          ground (arith, ==_refl policy.name),
          InStep-along _ _
              (click-created (t "policies:page.undo" [])
                (lasting (toast_of (granted_or_revoked t is_grant label policy.name) success))
                offered_undo (backend refuses) (serve (set_actions policy.name next_actions) w)
                changed o)
              undone-InStep,
        )
      ]

filter-kept :
    {A : Type 0} (p : A → Bool) (xs : List A) → length xs ≤ length (filter p xs) → filter p xs ≡ xs
filter-kept p [] h = refl
filter-kept p (x ∷ xs) h = elim (Bool-cases (p x)) [
  | inl e ↦
      let k : length xs ≤ length (filter p xs) = ground (arith, e, h) in
      rw e (ap (λ ys. x ∷ ys) (filter-kept p xs k))
  | inr e ↦ absurd (ground (arith, e, h, length-filter-le p xs))
]

module _ {W : Type 0} (t : String → List (String × ℕ) → String)
    (server : PolicyUpdate → W → Result String Unit × W) where
  -- After a change of the resource type, the actions left are those selected before that some entry
  -- of the catalog allows for the new type; and either these are all the actions selected before,
  -- or a click on the toast brings back the resource type and the actions, without a request.
  pub handle_resource_type_change-Undoable :
      (catalog : List PermissionCatalogEntry) (value : String)
      (screen : Screen PolicyUpdate PolicyForm) (w : W)
      → IsOrderly screen.toaster
      → let changed = handle_resource_type_change t catalog value screen in
        let undone = click server (created_id screen.toaster) (changed, w) in
        ((a : String)
          → has changed.page.values.actions a
            ≡ (has screen.page.values.actions a && has (valid_for_new_type catalog value) a))
        × ((changed.page.values.actions ≡ screen.page.values.actions)
            ⊎ ((undone.0.page.values ≡ screen.page.values) × (undone.1 ≡ w)))
  unfolding handle_resource_type_change kept_actions
  handle_resource_type_change-Undoable catalog value screen w o =
      let actions = screen.page.values.actions in
      let p = λ (a : String). has (valid_for_new_type catalog value) a in
      let cleared = length actions - length (filter p actions) in
      let back =
        click-created (t "policies:page.undo" []) (cleared_toast t cleared)
          (undo_type_change screen.page.values) server w
          (on_page (set_type_and_actions value (filter p actions)) screen) o in
      elim (Bool-cases (ltb 0 cleared)) [
        | inr e ↦ rw e (has-filter p actions, inl (filter-kept p actions (ground (arith, e))))
        | inl e ↦
            rw e (has-filter p actions, inr (ap (λ r. r.0.page.values) back, ap (λ r. r.1) back))
      ]
