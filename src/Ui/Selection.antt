-- ===== src/Ui/Selection.antt =====
-- frontend/src/mystic_auth/ui/DataTable/DataTableSelection.ts. A `Set` of keys is an
-- insertion-ordered list; an optional prop that is undefined is none; an updater is a function on
-- the selected keys at the time it is applied.
pub mod Toggles
pub mod Counts
mod Tests
use mystic_auth.Prelude.{
  ℕ, Bool, true, false, not, ◌&&◌, Option, none, some, get_or, List, [], map, Eq, ◌==◌, ℕ_eq, ltb,
  length, filter, all, has, add, delete, add_all, delete_all, if◌then◌else◌,
}

module _ {K : Type 0} ⦃e : Eq K⦄ where
  -- `keys?.has(k)`
  abbrev pub has_optional : Option (List K) → K → Bool
  has_optional none k = false
  has_optional (some keys) k = has keys k

  unfoldable pub all_keys_on_screen :
      {T : Type 0} → (T → K) → Option (List T) → Option (List K) → List K
  all_keys_on_screen row_key rows disabled_keys =
      filter (λ k. not (has_optional disabled_keys k)) (map row_key (get_or rows []))

  unfoldable pub selected_on_screen_count : List K → Option (List K) → ℕ
  selected_on_screen_count on_screen selected_keys =
      length (filter (λ k. has_optional selected_keys k) on_screen)

  unfoldable pub is_all_selected : List K → Option (List K) → Bool
  unfolding selected_on_screen_count
  is_all_selected on_screen selected_keys =
      ltb 0 (length on_screen)
      && selected_on_screen_count on_screen selected_keys == length on_screen

  unfoldable pub is_some_selected : List K → Option (List K) → Bool
  unfolding is_all_selected
  is_some_selected on_screen selected_keys =
      ltb 0 (selected_on_screen_count on_screen selected_keys)
      && not (is_all_selected on_screen selected_keys)

  -- The updater of `toggleRow`.
  unfoldable pub toggle_row : K → List K → List K
  toggle_row key prev = if has prev key then delete prev key else add prev key

  -- The updater of `toggleAll`.
  unfoldable pub toggle_all : List K → List K → List K
  toggle_all on_screen prev =
      if ltb 0 (length on_screen) && all (λ k. has prev k) on_screen
      then delete_all prev on_screen
      else add_all prev on_screen

  -- The updater of `clearSelection`.
  unfoldable pub clear_selection : List K → List K → List K
  clear_selection on_screen prev = delete_all prev on_screen
