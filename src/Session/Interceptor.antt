-- ===== src/Session/Interceptor.antt =====
-- frontend/src/mystic_auth/auth/session_lifecycle/setupAuthInterceptor.ts: the silent refresh and
-- retry of requests that are answered by 401. The network, and what else happens in the tab while
-- a request or a promise is awaited, is the parameter `Network`. axios sends a copy of a request's
-- configuration that carries the two flags, so a flag set on the copy is not seen by the caller.
-- Fuel bounds how deep interceptors nest.
pub mod Budget
pub mod Bounds
pub mod SignedOut
pub mod Refresh
pub mod SelfWait
mod Tests
use mathlib.Core.Option.{get_or}
use mystic_auth.Prelude.{
  ℕ, zero, suc, String, Bool, true, false, not, ◌&&◌, ◌||◌, ◌≡◌, ◌⊎◌, Option, none, some, List, [],
  ◌∷◌, ◌==◌, ℕ_eq, any, if◌then◌else◌, includes,
}
use mystic_auth.Ui.Toaster.{error}
use mystic_auth.Session.AuthStore.{set_authenticated}
use mystic_auth.Session.Guards.{is_promise, was_session_recently_rotated}
use mystic_auth.Session.Run.{
  Run, out_of_fuel, never, ran, M, awaited, ◌>>=◌, ◌>>◌, pure, get, modify,
}
use mystic_auth.Session.CrossTab.{Rotated, run_cross_tab_refresh}
use mystic_auth.Session.{
  Tab, command, create_toast, set_null, remove, current_user, sessions, my_policies,
  my_authorization_audit_log, my_security_audit_log,
}

pub record RequestConfig : Type 0 where
  pub url : Option String
  pub retried_after_refresh : Bool
  pub retried_after_rotation : Bool

-- `error.response?.status` and `error.config`.
pub record ApiError : Type 0 where
  pub status : Option ℕ
  pub config : Option RequestConfig

pub data Outcome (R : Type 0) : Type 0 where
  resolved : R → Outcome R
  rejected : ApiError → Outcome R

-- An error names the request that it is about, or none.
abbrev pub IsAbout : {R : Type 0} → RequestConfig → Outcome R → Type 0
IsAbout c (resolved r) = Unit
IsAbout c (rejected e) = (e.config ≡ none) ⊎ (e.config ≡ some c)

-- What the tab awaits. `exchange` is one HTTP request and its answer; `joined` the refresh that
-- another request of this tab has started; `locked` the exclusive Web Lock, once the browser grants
-- it; `settled` the tracked rotation of another request. A wait for another request is none where
-- that request never ends. `tracked_as` is the promise that `trackSessionRotatingRequest` has made of
-- the request at hand, if it has: that promise settles only after the request, its refresh and its
-- retries have ended.
pub record Network (R : Type 0) : Type 0 where
  pub exchange : RequestConfig → Tab → Outcome R × Tab
  pub exchange_config : (c : RequestConfig) (t : Tab) → IsAbout c (exchange c t).0
  pub joined : Tab → Option (Bool × Tab)
  pub locked : Tab → Tab
  pub settled : Tab → Option (Unit {0} × Tab)
  pub tracked_as : Option ℕ

abbrev pub auth_endpoints_excluded_from_refresh : List String
auth_endpoints_excluded_from_refresh =
    "/auth/login" ∷ "/auth/signup" ∷ "/auth/refresh" ∷ "/auth/logout" ∷ "/auth/password-reset"
    ∷ "/auth/verify-account" ∷ "/auth/oauth2" ∷ []

unfoldable pub is_eligible_for_refresh : RequestConfig → Bool
is_eligible_for_refresh c =
    not (any (λ path. includes (get_or c.url "") path) auth_endpoints_excluded_from_refresh)

abbrev pub is_unauthorized : Option ℕ → Bool
is_unauthorized none = false
is_unauthorized (some status) = status == 401

abbrev pub is_live : Option Bool → Bool
is_live none = false
is_live (some b) = b

-- The end of the interceptor: the session is over.
unfoldable pub session_over : Tab → Tab
unfolding set_authenticated
session_over t =
    let signed_out = record t { auth = set_authenticated t.now false t.auth } in
    let cleared = command (remove my_security_audit_log) (
      command (remove my_authorization_audit_log) (
        command (remove my_policies)
          (command (remove sessions) (command (set_null current_user) signed_out)))) in
    if is_live t.auth.is_authenticated
    then create_toast
        (record {
          title = "Your session has expired";
          description = "Please log in again to continue.";
          type_of = error;
        })
        cleared
    else cleared

-- `refreshTokenApi`
abbrev pub refresh_request : RequestConfig
refresh_request = record {
  url = some "/auth/refresh/";
  retried_after_refresh = false;
  retried_after_rotation = false;
}

abbrev pub answer_of : {R : Type 0} → Outcome R → Option R
answer_of (resolved r) = some r
answer_of (rejected e) = none

abbrev pub is_some : {A : Type 0} → Option A → Bool
is_some none = false
is_some (some a) = true

-- `originalRequest._retriedAfterRefresh = true`
abbrev pub mark_refreshed : RequestConfig → RequestConfig
mark_refreshed c = record c { retried_after_refresh = true }

-- `originalRequest._retriedAfterRotation = true`
abbrev pub mark_rotated : RequestConfig → RequestConfig
mark_rotated c = record c { retried_after_rotation = true }

module _ {R : Type 0} (net : Network R) where
  -- `again` sends a request by the same, intercepted, axios instance.
  module _ (again : RequestConfig → M (Outcome R)) where
    abbrev pub request_refresh : M (Option R)
    request_refresh = do o ← again refresh_request; pure (answer_of o)

    -- `finally(() => { refreshInFlight = null; })`
    abbrev pub finish_refresh : Option (Rotated R) → M Bool
    finish_refresh rotated = do
      modify λ t. record t { refresh_in_flight = false }
      pure (is_some rotated)

    -- `refreshSession`; whether it resolves.
    unfoldable pub refresh_session : M Bool
    unfolding run_cross_tab_refresh
    refresh_session = do
      t ← get
      if t.refresh_in_flight then (λ t. awaited (net.joined t)) else do
        modify λ t. record t { refresh_in_flight = true }
        rotated ← run_cross_tab_refresh net.locked request_refresh
        finish_refresh rotated

    abbrev pub retry_refreshed : RequestConfig → Bool → M (Option R × RequestConfig)
    retry_refreshed c ok =
        if ok
        then (do o ← again (mark_refreshed c); pure (answer_of o, mark_refreshed c))
        else pure (none, c)

    -- `refreshAndRetry`; none where it throws. The flag stays set on the caller's request.
    unfoldable pub refresh_and_retry : RequestConfig → M (Option R × RequestConfig)
    unfolding refresh_session
    refresh_and_retry c = do ok ← refresh_session; retry_refreshed c ok

    unfoldable pub try_refresh : RequestConfig → M (Option R × RequestConfig)
    unfolding refresh_and_retry
    try_refresh c =
        if is_eligible_for_refresh c && not c.retried_after_refresh
        then refresh_and_retry c
        else pure (none, c)

    -- `if (pendingRotation) await pendingRotation`: a request never gets past its own promise.
    abbrev pub await_pending : Option ℕ → M (Unit {0})
    await_pending none t = ran tt t 0
    await_pending (some p) t =
        if is_promise net.tracked_as p then never else awaited (net.settled t)

    abbrev pub await_rotation : M (Unit {0})
    await_rotation t = await_pending t.guard.pending_rotation t

    unfoldable pub retry_after_rotation : RequestConfig → M (Option R)
    retry_after_rotation c = do await_rotation; o ← again (mark_rotated c); pure (answer_of o)

    unfoldable pub try_rotation : RequestConfig → M (Option R)
    unfolding retry_after_rotation was_session_recently_rotated
    try_rotation c t =
        if not c.retried_after_rotation && was_session_recently_rotated t.now t.guard
        then retry_after_rotation c t
        else ran none t 0

    unfoldable pub give_up : ApiError → M (Outcome R)
    unfolding session_over
    give_up e = do modify session_over; pure (rejected e)

    abbrev pub or_give_up : ApiError → Option R → M (Outcome R)
    or_give_up e none = give_up e
    or_give_up e (some r) = pure (resolved r)

    abbrev pub then_rotation : ApiError → Option R × RequestConfig → M (Outcome R)
    then_rotation e (some r, c) = pure (resolved r)
    then_rotation e (none, c) = do retried ← try_rotation c; or_give_up e retried

    -- What is done about a 401, for the request that it is about.
    abbrev pub on_unauthorized : ApiError → Option RequestConfig → M (Outcome R)
    on_unauthorized e none = give_up e
    on_unauthorized e (some c) = do first ← try_refresh c; then_rotation e first

    -- The rejection handler of the interceptor.
    unfoldable pub on_rejected : ApiError → M (Outcome R)
    unfolding try_refresh try_rotation give_up
    on_rejected e =
        if is_unauthorized e.status then on_unauthorized e e.config else pure (rejected e)

    abbrev pub on_outcome : Outcome R → M (Outcome R)
    on_outcome (resolved r) = pure (resolved r)
    on_outcome (rejected e) = on_rejected e

  abbrev pub send : RequestConfig → M (Outcome R)
  send c t = let (o, t') = net.exchange c t in ran o t' 1

  -- One request by the intercepted instance.
  unfoldable pub api : ℕ → RequestConfig → M (Outcome R)
  unfolding on_rejected
  api zero c t = out_of_fuel
  api (suc fuel) c t = (send c >>= on_outcome (api fuel)) t
