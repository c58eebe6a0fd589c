-- ===== src/Session/Interceptor/SignedOut.antt =====
-- How the interceptor of setupAuthInterceptor.ts leaves the tab when a request is rejected.
use mathlib.Core.Path.{subst}
use mystic_auth.Prelude.{
  ap, ◌∙◌, ℕ, zero, suc, true, false, ◌≡◌, Option, none, some, [], inl, inr, Bool-cases, arith,
}
use mystic_auth.Session.AuthStore.{AuthState}
use mystic_auth.Session.{Tab}
use mystic_auth.Session.Run.{ran, M, charge, Ensures, Ensures-after}
use mystic_auth.Session.Interceptor.{
  RequestConfig, ApiError, Outcome, resolved, rejected, Network, is_unauthorized, session_over,
  try_refresh, try_rotation, give_up, then_rotation, or_give_up, on_unauthorized, on_rejected,
  on_outcome, send, api,
}

-- The store says "logged out", and keeps nothing of the profile.
pub record IsSignedOut (s : AuthState) : Type 0 where
  pub not_authenticated : s.is_authenticated ≡ some false
  pub no_name : s.name ≡ none
  pub no_email : s.email ≡ none
  pub no_role : s.role ≡ none
  pub no_permissions : s.permissions ≡ []
  pub not_pending : s.permissions_pending ≡ false
  pub no_date : s.authenticated_at ≡ none

-- A request that ends rejected by a 401 has ended the session.
abbrev pub EndsSession : {R : Type 0} → Outcome R → Tab → Type 0
EndsSession (resolved r) t = Unit
EndsSession (rejected e) t = is_unauthorized e.status ≡ true → IsSignedOut t.auth

session_over-IsSignedOut : (t : Tab) → IsSignedOut (session_over t).auth
unfolding session_over
session_over-IsSignedOut t = ground arith

module _ {R : Type 0} (net : Network R) (again : RequestConfig → M (Outcome R)) where
  Ensures-or_give_up :
      (e : ApiError) (o : Option R) (t : Tab) → Ensures EndsSession (or_give_up net again e o t)
  unfolding give_up
  Ensures-or_give_up e none t = λ h. session_over-IsSignedOut t
  Ensures-or_give_up e (some r) t = tt

  Ensures-then_rotation :
      (e : ApiError) (a : Option R × RequestConfig) (t : Tab)
      → Ensures EndsSession (then_rotation net again e a t)
  Ensures-then_rotation e (some r, c) t = tt
  Ensures-then_rotation e (none, c) t =
      Ensures-after EndsSession (try_rotation net again c t) (or_give_up net again e)
        (λ o u. Ensures-or_give_up e o u)

  Ensures-on_unauthorized :
      (e : ApiError) (o : Option RequestConfig) (t : Tab)
      → Ensures EndsSession (on_unauthorized net again e o t)
  Ensures-on_unauthorized e none t = Ensures-or_give_up e none t
  Ensures-on_unauthorized e (some c) t =
      Ensures-after EndsSession (try_refresh net again c t) (then_rotation net again e)
        (λ a u. Ensures-then_rotation e a u)

  Ensures-on_rejected : (e : ApiError) (t : Tab) → Ensures EndsSession (on_rejected net again e t)
  unfolding on_rejected
  Ensures-on_rejected e t = elim (Bool-cases (is_unauthorized e.status)) [
    | inl expired ↦ rw expired (Ensures-on_unauthorized e e.config t)
    | inr other ↦ rw other (λ h. cc)
  ]

  Ensures-on_outcome : (o : Outcome R) (t : Tab) → Ensures EndsSession (on_outcome net again o t)
  Ensures-on_outcome (resolved r) t = tt
  Ensures-on_outcome (rejected e) t = Ensures-on_rejected e t

  on_rejected_other :
      (e : ApiError) (t : Tab)
      → is_unauthorized e.status ≡ false
      → on_rejected net again e t ≡ ran (rejected e) t 0
  unfolding on_rejected
  on_rejected_other e t other = rw other

module _ {R : Type 0} (net : Network R) where
  Ensures-api : (fuel : ℕ) (c : RequestConfig) (t : Tab) → Ensures EndsSession (api net fuel c t)
  unfolding api
  Ensures-api zero c t = tt
  Ensures-api (suc fuel) c t =
      Ensures-after EndsSession (send net c t) (on_outcome net (api net fuel))
        (λ o u. Ensures-on_outcome net (api net fuel) o u)

  -- A request that comes back to its caller rejected by a 401 leaves the tab signed out: the store
  -- says so, and holds no name, email, role, permission or sign-in time.
  pub api-IsSignedOut :
      (fuel : ℕ) (c : RequestConfig) (t u : Tab) (e : ApiError) (n : ℕ)
      → api net fuel c t ≡ ran (rejected e) u n
      → is_unauthorized e.status ≡ true
      → IsSignedOut u.auth
  api-IsSignedOut fuel c t u e n h = subst (Ensures EndsSession) h (Ensures-api fuel c t)

  -- An answer other than 401 goes to the caller as it is: one request is sent, and the interceptor
  -- changes nothing in the tab.
  api-other_status :
      (fuel : ℕ) (c : RequestConfig) (t u : Tab) (e : ApiError)
      → net.exchange c t ≡ (rejected e, u)
      → is_unauthorized e.status ≡ false
      → api net (suc fuel) c t ≡ ran (rejected e) u 1
  unfolding api
  api-other_status fuel c t u e answer other =
      ap (λ a. charge 1 (on_outcome net (api net fuel) a.0 a.1)) answer
      ∙ ap (charge 1) (on_rejected_other net (api net fuel) e u other)
