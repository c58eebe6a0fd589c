-- ===== src/Policies/Form/Unsaved.antt =====
-- When usePolicyFormState.ts takes the form for changed.
use mystic_auth.Prelude.{
  String, true, false, not, ◌≡◌, refl, ap, Option, some, List, [], ◌∷◌, String_eq, ==_refl, arith,
}
use mystic_auth.Policies.Form.{
  Snapshot, PolicyForm, EditedPolicy, Exit, same_texts, same_snapshot, is_dirty, initial_values,
  render, change_actions, request_exit,
}

same_texts_refl : (xs : List String) → same_texts xs xs ≡ true
same_texts_refl [] = refl
same_texts_refl (x ∷ xs) = ground (arith, ==_refl x, same_texts_refl xs)

same_snapshot_refl : (s : Snapshot) → same_snapshot s s ≡ true
same_snapshot_refl s = ground (
  arith,
  ==_refl s.name,
  ==_refl s.description,
  same_texts_refl s.actions,
  ==_refl s.resource_type,
  ==_refl s.conditions_text,
)

-- A form that has just been opened counts as unchanged, and closes without asking.
pub render-request_exit :
    (policy : Option EditedPolicy) (form : PolicyForm) (exit : Exit)
    → form.prev_is_open ≡ false
    → request_exit exit (render true policy form) ≡ (render true policy form, some exit)
unfolding request_exit is_dirty render
render-request_exit policy form exit h = rw h (rw (same_snapshot_refl (initial_values policy)) refl)

-- A change of the actions makes the form count as unchanged whatever else has been edited: the name,
-- the description, the resource type and the conditions that are not saved are then discarded
-- without asking when the form is left.
pub change_actions-request_exit :
    (next_actions : List String) (form : PolicyForm) (exit : Exit)
    → let changed = change_actions next_actions form form in
      (is_dirty changed ≡ false) × (request_exit exit changed ≡ (changed, some exit))
unfolding request_exit is_dirty change_actions
change_actions-request_exit next_actions form exit =
    let same = same_snapshot_refl (record form.values { actions = next_actions }) in
    (ap not same, rw same refl)
