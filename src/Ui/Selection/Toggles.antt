-- ===== src/Ui/Selection/Toggles.antt =====
-- What the toggles of DataTableSelection.ts select and leave alone.
use mystic_auth.Prelude.{
  Bool, true, false, not, ◌&&◌, ◌≡◌, refl, ◌∙◌, Option, some, List, [], ◌∷◌, Eq, ◌==◌, ltb, ==_iff,
  arith, length, filter, all, has, has-filter, has-add, has-delete, has-add_all, has-delete_all,
  if◌then◌else◌, map, get_or,
}
use mystic_auth.Ui.Selection.{all_keys_on_screen, toggle_row, toggle_all, clear_selection}

module _ {K : Type 0} ⦃e : Eq K⦄ where
  -- Toggling a row flips whether its key is selected, and changes no other key.
  has-toggle_row :
      (key k : K) (prev : List K)
      → has (toggle_row key prev) k ≡ (if key == k then not (has prev k) else has prev k)
  unfolding toggle_row
  has-toggle_row key k prev =
      ground (arith, has-add prev key k, has-delete prev key k, ==_iff key k)

  abbrev all_on : List K → List K → Bool
  all_on on_screen prev = ltb 0 (length on_screen) && all (λ k. has prev k) on_screen

  -- The header checkbox selects every key on screen, or, where all of them are selected, none; the
  -- selection of keys off screen stays as it is.
  pub has-toggle_all :
      (on_screen prev : List K) (k : K)
      → has (toggle_all on_screen prev) k
        ≡ (if has on_screen k then not (all (λ k. has prev k) on_screen) else has prev k)
  unfolding toggle_all
  has-toggle_all [] prev k = refl
  has-toggle_all (k0 ∷ ks) prev k =
      ground (arith, has-delete_all prev (k0 ∷ ks) k, has-add_all prev (k0 ∷ ks) k)

  -- After "Clear selection" no key on screen is selected, and the others are as before.
  pub has-clear_selection :
      (on_screen prev : List K) (k : K)
      → has (clear_selection on_screen prev) k ≡ (has prev k && not (has on_screen k))
  unfolding clear_selection
  has-clear_selection on_screen prev k = has-delete_all prev on_screen k

  -- The keys of disabled rows are never on screen, so selecting or clearing all leaves them as they
  -- are.
  disabled_keys_kept :
      {T : Type 0} (row_key : T → K) (rows : Option (List T)) (disabled prev : List K) (k : K)
      → has disabled k ≡ true
      → let on_screen = all_keys_on_screen row_key rows (some disabled) in
        (has (toggle_all on_screen prev) k ≡ has prev k)
        × (has (clear_selection on_screen prev) k ≡ has prev k)
  unfolding all_keys_on_screen
  disabled_keys_kept row_key rows disabled prev k h =
      let shown = filter (λ k. not (has disabled k)) (map row_key (get_or rows [])) in
      let absent : has shown k ≡ false =
        has-filter (λ k. not (has disabled k)) (map row_key (get_or rows [])) k ∙ ground arith in
      (
        has-toggle_all shown prev k ∙ rw absent,
        has-clear_selection shown prev k ∙ rw absent (ground arith),
      )
