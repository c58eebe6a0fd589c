-- ===== src/Policies/PageHandlers/Undone.antt =====
-- Undo of the activity switch of policiesPageHandlers.ts, and the backend that the handlers of the
-- policies page and of the policy form are stated against.
use mystic_auth.Prelude.{
  String, Bool, not, ◌≡◌, ◌∙◌, ap, Option, none, some, List, [], ◌==◌, String_eq, ==_iff, ==_refl,
  Result, resolved, rejected, if◌then◌else◌, arith,
}
use mystic_auth.Ui.Toaster.{success}
use mystic_auth.Ui.Toaster.Orderly.{IsOrderly}
use mystic_auth.Ui.Undo.{Screen, created_id, toast_of, finish, click}
use mystic_auth.Ui.Undo.Shown.{click-created}
use mystic_auth.Policies.{PolicyRead}
use mystic_auth.Policies.PageHandlers.{
  PolicyUpdate, set_actions, set_is_active, handle_toggle_active, lasting, activation_title,
}

-- The policies of a backend by name: their actions, and whether they are active.
pub record Stored : Type 0 where
  pub actions_of : String → List String
  pub is_active_of : String → Bool

abbrev pub serve : PolicyUpdate → Stored → Stored
serve (set_actions name actions) w = record w {
  actions_of = λ n. if name == n then actions else w.actions_of n;
}
serve (set_is_active name active) w = record w {
  is_active_of = λ n. if name == n then active else w.is_active_of n;
}

-- A backend that rejects the requests that `refuses` gives a message for, and changes nothing then.
abbrev pub answer_with : Option String → PolicyUpdate → Stored → Result String Unit × Stored
answer_with none update w = (resolved tt, serve update w)
answer_with (some message) update w = (rejected message, w)

module _ (refuses : PolicyUpdate → Option String) where
  abbrev pub backend : PolicyUpdate → Stored → Result String Unit × Stored
  backend update w = answer_with (refuses update) update w

is_active-back :
    (name n : String) (was : Bool) (w : Stored)
    → w.is_active_of name ≡ was
    → (serve
          (set_is_active name (not (not was)))
          (serve (set_is_active name (not was)) w)).is_active_of
        n
      ≡ w.is_active_of n
is_active-back name n was w h = ground (arith, ==_iff name n, h)

module _ {S : Type 0} (t : String → List (String × String) → String)
    (format : String → String) where
  -- A toggle of whether a policy is active, undone by a click on its toast, leaves every policy as
  -- active as it was, if the backend accepts both requests and the screen showed the policy as it is.
  handle_toggle_active-undone :
      (policy : PolicyRead) (on_error : S → S) (w : Stored) (screen : Screen PolicyUpdate S)
      → w.is_active_of policy.name ≡ policy.is_active
      → IsOrderly screen.toaster
      → let accepting = backend (λ update. none) in
        let toggled = finish accepting (handle_toggle_active t format policy on_error screen) w in
        let undone = click accepting (created_id screen.toaster) toggled in
        (toggled.1.is_active_of policy.name ≡ not policy.is_active)
        × ((n : String) → undone.1.is_active_of n ≡ w.is_active_of n)
  unfolding handle_toggle_active
  handle_toggle_active-undone policy on_error w screen h o = (
    ground (arith, ==_refl policy.name),
    λ n.
        ap (λ done. done.1.is_active_of n)
          (click-created (t "policies:page.undo" [])
            (lasting (toast_of (activation_title t (not policy.is_active)) success)) _
            (backend (λ update. none)) (serve (set_is_active policy.name (not policy.is_active)) w)
            screen o)
        ∙ is_active-back policy.name n policy.is_active w h,
  )
