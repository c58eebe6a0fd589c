-- ===== src/Ui/Selection/Counts.antt =====
-- What the header checkbox of DataTableSelection.ts shows, against the selected keys themselves.
use mystic_auth.Prelude.{
  Bool, not, ◌&&◌, ◌≡◌, refl, Option, List, [], ◌∷◌, Eq, ◌==◌, ℕ_eq, ltb, arith, length,
  length-filter-le, filter, all, any,
}
use mystic_auth.Ui.Selection.{
  has_optional, selected_on_screen_count, is_all_selected, is_some_selected,
}

module _ {K : Type 0} where
  length-filter-all : (p : K → Bool) (ks : List K) → (length (filter p ks) == length ks) ≡ all p ks
  length-filter-all p [] = refl
  length-filter-all p (k ∷ ks) = ground (arith, length-filter-all p ks, length-filter-le p ks)

  length-filter-any : (p : K → Bool) (ks : List K) → ltb 0 (length (filter p ks)) ≡ any p ks
  length-filter-any p [] = refl
  length-filter-any p (k ∷ ks) = ground (arith, length-filter-any p ks)

module _ {K : Type 0} ⦃e : Eq K⦄ where
  -- The header checkbox is checked exactly when there are keys on screen and all of them are
  -- selected; it is in between exactly when some key on screen is selected and not all are.
  header_checkbox :
      (on_screen : List K) (selected : Option (List K))
      → (is_all_selected on_screen selected
          ≡ (ltb 0 (length on_screen) && all (has_optional selected) on_screen))
        × (is_some_selected on_screen selected ≡ (
            any (has_optional selected) on_screen && not (all (has_optional selected) on_screen)))
  unfolding is_all_selected is_some_selected selected_on_screen_count
  header_checkbox [] selected = (refl, refl)
  header_checkbox (k ∷ ks) selected = (
    ground (arith, length-filter-all (has_optional selected) (k ∷ ks)),
    ground (
      arith,
      length-filter-all (has_optional selected) (k ∷ ks),
      length-filter-any (has_optional selected) (k ∷ ks),
    ),
  )
