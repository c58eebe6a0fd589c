-- ===== src/Ui/Selection/Tests.antt =====
-- Examples for the selection of a table of three rows, one of them disabled.
use mystic_auth.Prelude.{
  ℕ, true, false, ◌≡◌, refl, Option, some, List, [], ◌∷◌, ℕ_eq, has, add, delete,
}
use mystic_auth.Ui.Selection.{all_keys_on_screen, toggle_all, clear_selection}
use mystic_auth.Ui.Selection.Toggles.{has-toggle_all, has-clear_selection}

abbrev rows : Option (List ℕ)
rows = some (1 ∷ 2 ∷ 3 ∷ [])

abbrev shown : List ℕ
shown = 1 ∷ 2 ∷ []

on_screen : all_keys_on_screen (λ r. r) rows (some (3 ∷ [])) ≡ shown
unfolding all_keys_on_screen
on_screen = refl

selected_then_cleared : toggle_all shown (toggle_all shown (7 ∷ 2 ∷ [])) ≡ 7 ∷ []
unfolding toggle_all add delete
selected_then_cleared = refl

has-toggle_all_example : has {A = ℕ} (toggle_all shown (7 ∷ 2 ∷ [])) 1 ≡ true
has-toggle_all_example = has-toggle_all shown (7 ∷ 2 ∷ []) 1

has-clear_selection_example : has {A = ℕ} (clear_selection shown (7 ∷ 2 ∷ [])) 2 ≡ false
has-clear_selection_example = has-clear_selection shown (7 ∷ 2 ∷ []) 2
