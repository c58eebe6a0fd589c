-- ===== src/Session/Mutations/Signed.antt =====
-- What logins, logouts and the deletion of the account leave in the auth store.
use mathlib.Core.Path.{subst}
use mystic_auth.Prelude.{
  String, true, false, Option, none, some, get_or, [], ◌≡◌, refl, ◌⊎◌, Result, rejected, resolved,
  arith, Bool-cases, inl, inr,
}
use mystic_auth.Session.AuthStore.{AuthState, CurrentUserProfile}
use mystic_auth.Session.{Tab}
use mystic_auth.Session.Events.{clear_my_account_session_caches, login_succeeded}
use mystic_auth.Session.Interceptor.SignedOut.{IsSignedOut}
use mystic_auth.Session.Mutations.{
  Service, logout_api, logout_all_api, delete_my_account_api, on_success, attempt, account_deleted,
  use_logout, use_logout_all, use_delete_my_account,
}
use mystic_auth.Session.Mutations.Accounts.{use_login, use_passkey_login}

-- The store after a login.
pub record IsSignedInAs (profile : CurrentUserProfile) (s : AuthState) : Type 0 where
  pub authenticated : s.is_authenticated ≡ some true
  pub same_name : s.name ≡ some profile.name
  pub same_email : s.email ≡ some profile.email
  pub same_role : s.role ≡ profile.role
  pub same_permissions : s.permissions ≡ get_or profile.permissions []
  pub not_pending : s.permissions_pending ≡ false

login_succeeded-IsSignedInAs :
    (profile : CurrentUserProfile) (t : Tab) → IsSignedInAs profile (login_succeeded profile t).auth
unfolding login_succeeded
login_succeeded-IsSignedInAs profile t = ground arith

clear-IsSignedOut : (t : Tab) → IsSignedOut (clear_my_account_session_caches t).auth
unfolding clear_my_account_session_caches
clear-IsSignedOut t = ground arith

abbrev Ensures : {E A : Type 0} → (A → Tab → Type 0) → Result E A × Tab → Type 0
Ensures P (rejected e, t) = Unit
Ensures P (resolved a, t) = P a t

on_success-Ensures :
    {E A : Type 0} (P : A → Tab → Type 0) (handler : A → Tab → Tab) (r : Result E A × Tab)
    → ((a : A) (t : Tab) → P a (handler a t))
    → Ensures P (on_success handler r)
on_success-Ensures P handler (rejected e, t) h = tt
on_success-Ensures P handler (resolved a, t) h = h a t

-- What a deletion of the account that has been answered leaves.
abbrev DeletedOrAsked :
    {Params Payload Reply : Type 0}
    → Service Params Payload Reply
    → Result String (Option Reply) × Tab
    → Option Reply
    → Tab
    → Type 0
DeletedOrAsked service answered none u = answered ≡ (resolved none, u)
DeletedOrAsked service answered (some reply) u =
    (service.confirmation_required reply ≡ false → IsSignedOut u.auth)
    × (service.confirmation_required reply ≡ true → answered ≡ (resolved (some reply), u))

module _ {Params Payload Reply : Type 0} (service : Service Params Payload Reply) where
  deleted-Ensures :
      (r : Result String (Option Reply) × Tab)
      → Ensures (DeletedOrAsked service r) (on_success (account_deleted service) r)
  deleted-Ensures (rejected e, t) = tt
  deleted-Ensures (resolved none, t) = refl
  deleted-Ensures (resolved (some reply), t) =
      elim (Bool-cases (service.confirmation_required reply)) [
        | inl e ↦ rw e (λ h. cc, λ h. refl)
        | inr e ↦ rw e (λ h. clear-IsSignedOut t, λ h. cc)
      ]

  -- Whatever becomes of the request, a logout, of this session or of all, leaves the tab signed out.
  pub use_logout-IsSignedOut :
      (t : Tab)
      → IsSignedOut (use_logout service t).1.auth × IsSignedOut (use_logout_all service t).1.auth
  unfolding use_logout use_logout_all
  use_logout-IsSignedOut t = (
    clear-IsSignedOut (attempt service "Logout failed" logout_api t).1,
    clear-IsSignedOut (attempt service "Logout all devices failed" logout_all_api t).1,
  )

  -- A deletion of the account that is answered signs the tab out, unless the answer asks for a
  -- confirmation: then the tab is as it was when the answer came.
  use_delete_my_account-answered :
      (payload : Payload) (t : Tab) (reply : Reply) (u : Tab)
      → use_delete_my_account service payload t ≡ (resolved (some reply), u)
      → (service.confirmation_required reply ≡ false → IsSignedOut u.auth)
        × (service.confirmation_required reply ≡ true
            → attempt service "Failed to delete account" (delete_my_account_api payload) t
              ≡ (resolved (some reply), u))
  unfolding use_delete_my_account
  use_delete_my_account-answered payload t reply u e =
      let answered = attempt service "Failed to delete account" (delete_my_account_api payload) t in
      subst (Ensures (DeletedOrAsked service answered)) e (deleted-Ensures answered)

  -- A login that resolves, by password or by passkey, leaves the store signed in as the profile that
  -- it resolves with, with the permissions of that profile and no others.
  pub use_login-IsSignedInAs :
      (payload : Payload) (t : Tab) (profile : CurrentUserProfile) (u : Tab)
      → (use_login service payload t ≡ (resolved profile, u))
        ⊎ (use_passkey_login service t ≡ (resolved profile, u))
      → IsSignedInAs profile u.auth
  unfolding use_login use_passkey_login
  use_login-IsSignedInAs payload t profile u (inl e) =
      subst (Ensures (λ p v. IsSignedInAs p v.auth)) e (
        on_success-Ensures (λ p v. IsSignedInAs p v.auth) login_succeeded _
          login_succeeded-IsSignedInAs)
  use_login-IsSignedInAs payload t profile u (inr e) =
      subst (Ensures (λ p v. IsSignedInAs p v.auth)) e (
        on_success-Ensures (λ p v. IsSignedInAs p v.auth) login_succeeded _
          login_succeeded-IsSignedInAs)
