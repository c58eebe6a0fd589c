-- ===== src/Ui/Undo/Shown.antt =====
-- A toast that has just been created or updated is the one that its id finds.
use mystic_auth.Prelude.{
  ℕ, ◌<◌, true, false, ◌≡◌, refl, sym, ◌∙◌, ap, Option, none, some, List, [], ◌∷◌, ◌++◌, map,
  String, lookup, Result, ◌==◌, ℕ_eq, ==_refl, Bool-cases, inl, inr, All, arith, if◌then◌else◌,
}
use mystic_auth.Ui.Toaster.{
  AppToast, Toaster, ToastOptions, Duration, infinite, ms, find_toast, new_toast, replace,
  updated_toast, absent, over, dismiss_each, arm_auto_dismiss, create, update, clear_timer,
}
use mystic_auth.Ui.Toaster.Ids.{All-mono}
use mystic_auth.Ui.Toaster.Orderly.{Filed, IsOrderly, dismiss_each-IsOrderly}
use mystic_auth.Ui.Undo.{
  Undo, Screen, created_id, with_undo, show_with_undo, update_with_undo, press_undo, click_action,
  click_found, offered, show, press, click, finish_click, finish,
}

find_toast-last :
    (id : ℕ) (ts : List AppToast) (t : AppToast)
    → All (λ u. u.id < id) ts
    → (t.id == id) ≡ true
    → find_toast id (ts ++ t ∷ []) ≡ some t
find_toast-last id [] t h e = rw e refl
find_toast-last id (u ∷ ts) t h e =
    let other : (u.id == id) ≡ false = ground (arith, h.0) in
    rw other (find_toast-last id ts t h.1 e)

arm_auto_dismiss-toasts :
    (id : ℕ) (d : Option Duration) (s : Toaster) → (arm_auto_dismiss id d s).toasts ≡ s.toasts
unfolding arm_auto_dismiss
arm_auto_dismiss-toasts id none s = refl
arm_auto_dismiss-toasts id (some infinite) s = refl
arm_auto_dismiss-toasts id (some (ms lifetime)) s = refl

pub find_toast-create :
    (options : ToastOptions) (s : Toaster)
    → IsOrderly s
    → find_toast (created_id s) (create options s).toasts ≡ some (new_toast (created_id s) options)
unfolding create
find_toast-create options s h =
    let d = dismiss_each s.action_toast_ids s in
    let k = dismiss_each-IsOrderly s.action_toast_ids s h in
    ap (λ ts. find_toast d.next_id ts) (arm_auto_dismiss-toasts d.next_id _ _)
    ∙ find_toast-last d.next_id d.toasts (new_toast d.next_id options)
        (All-mono (Filed d.next_id d.exit_timers) (λ u. u.id < d.next_id) (λ t f. f.0) d.toasts
          k.filed)
        (==_refl d.next_id)

find_toast-replace :
    (id : ℕ) (updated existing : AppToast) (ts : List AppToast)
    → (updated.id == id) ≡ true
    → find_toast id ts ≡ some existing
    → find_toast id (map (replace id updated) ts) ≡ some updated
find_toast-replace id updated existing [] e f = ground (arith, f)
find_toast-replace id updated existing (t ∷ ts) e f = elim (Bool-cases (t.id == id)) [
  | inl same ↦ rw same (rw e refl)
  | inr other ↦
      let g : find_toast id ts ≡ some existing =
        ap (λ b. if b then some t else find_toast id ts) (sym other) ∙ f in
      rw other (rw other (find_toast-replace id updated existing ts e g))
]

pub find_toast-update :
    (id : ℕ) (options : ToastOptions) (existing : AppToast) (s : Toaster)
    → find_toast id s.toasts ≡ some existing
    → find_toast id (update id options s).toasts ≡ some (updated_toast id options existing)
unfolding update clear_timer
find_toast-update id options existing s f = rw f (
    ap (λ ts. find_toast id ts) (arm_auto_dismiss-toasts id _ _)
    ∙ find_toast-replace id (updated_toast id options existing) existing s.toasts (==_refl id) f)

module _ {R S : Type 0} (label : String) (options : ToastOptions) (undo : Undo R S) where
  -- The toast that a mutation has created can be clicked, and its own action is taken.
  click_action-created :
      (screen : Screen R S)
      → IsOrderly screen.toaster
      → let id = created_id screen.toaster in
        let shown = show_with_undo (with_undo label options) undo screen in
        click_action id shown ≡ some (press_undo id undo shown)
  unfolding click_action lookup
  click_action-created screen h =
      let id = created_id screen.toaster in
      let shown = show_with_undo (with_undo label options) undo screen in
      ap (λ o. click_found o shown) (find_toast-create (with_undo label options) screen.toaster h)
      ∙ ap (λ b. press id (if b then some undo else lookup id screen.undos) shown) (==_refl id)

  click_action-updated :
      (id : ℕ) (existing : AppToast) (screen : Screen R S)
      → find_toast id screen.toaster.toasts ≡ some existing
      → let shown = update_with_undo id (with_undo label options) undo screen in
        click_action id shown ≡ some (press_undo id undo shown)
  unfolding click_action lookup
  click_action-updated id existing screen f =
      let shown = update_with_undo id (with_undo label options) undo screen in
      ap (λ o. click_found o shown)
        (find_toast-update id (with_undo label options) existing screen.toaster f)
      ∙ ap (λ b. press id (if b then some undo else lookup id screen.undos) shown) (==_refl id)

  module _ {W : Type 0} (backend : R → W → Result String Unit × W) (w : W) where
    abbrev sent : ℕ → Screen R S → Screen R S × W
    sent id shown = finish backend (press_undo id undo shown) w

    pub click-created :
        (screen : Screen R S)
        → IsOrderly screen.toaster
        → let id = created_id screen.toaster in
          let shown = show_with_undo (with_undo label options) undo screen in
          click backend id (shown, w) ≡ sent id shown
    click-created screen h =
        ap (λ c. finish_click backend c (show_with_undo (with_undo label options) undo screen) w)
          (click_action-created screen h)

    pub click-updated :
        (id : ℕ) (existing : AppToast) (screen : Screen R S)
        → find_toast id screen.toaster.toasts ≡ some existing
        → let shown = update_with_undo id (with_undo label options) undo screen in
          click backend id (shown, w) ≡ sent id shown
    click-updated id existing screen f =
        ap
          (λ c.
            finish_click backend c (update_with_undo id (with_undo label options) undo screen) w)
          (click_action-updated id existing screen f)

-- A toast without an action cannot be clicked.
pub click-plain :
    {R S W : Type 0} (backend : R → W → Result String Unit × W) (options : ToastOptions) (w : W)
    (screen : Screen R S)
    → options.action ≡ absent
    → IsOrderly screen.toaster
    → click backend (created_id screen.toaster) (show options screen, w) ≡ (show options screen, w)
unfolding click_action
click-plain backend options w screen plain h =
    ap (λ o. finish_click backend (click_found o (show options screen)) (show options screen) w)
      (find_toast-create options screen.toaster h)
    ∙ ap
        (λ a.
          finish_click backend
            (press (created_id screen.toaster)
              (offered (created_id screen.toaster) (over none a) (show options screen))
              (show options screen))
            (show options screen) w)
        plain
