-- ===== src/Session/Interceptor/SelfWait.antt =====
-- A request of setupAuthInterceptor.ts that waits for itself: the password change that
-- useUpdateMyAccountMutation.ts tracks, when it is answered by 401.
use mystic_auth.Prelude.{
  ℕ, suc, zero, ◌≤◌, Bool, true, false, ◌≡◌, ◌∙◌, ap, refl, Option, none, some, ℕ_eq, ==_refl,
  Bool-cases, inl, inr, arith, if◌then◌else◌, includes,
}
use mystic_auth.Session.{Tab}
use mystic_auth.Session.Guards.{was_session_recently_rotated}
use mystic_auth.Session.CrossTab.{
  rotation_completed_after, refresh_under_lock, run_cross_tab_refresh,
}
use mystic_auth.Session.Run.{Run, out_of_fuel, never, ran, M, after, charge, awaited}
use mystic_auth.Session.Interceptor.{
  RequestConfig, ApiError, Outcome, rejected, Network, mark_refreshed, refresh_request,
  request_refresh, finish_refresh, refresh_session, retry_refreshed, try_rotation,
  retry_after_rotation, then_rotation, on_unauthorized, on_rejected, on_outcome, api,
  is_eligible_for_refresh,
}
use mystic_auth.Session.Interceptor.Budget.{may_refresh}
use mystic_auth.Session.Interceptor.Bounds.{try_refresh_of_may, try_refresh_of_may_not}

-- The run ends with a result and a tab that satisfy `P`, or waits for ever.
abbrev pub WaitsOr : {A : Type 0} → (A → Tab → Type 0) → Run A → Type 0
WaitsOr P out_of_fuel = ⊥
WaitsOr P never = Unit
WaitsOr P (ran a t n) = P a t

module _ {A : Type 0} (P : A → Tab → Type 0) where
  after-never :
      {B : Type 0} (r : Run A) (f : A → M B)
      → WaitsOr P r
      → ((a : A) (t : Tab) → P a t → f a t ≡ never)
      → after r f ≡ never
  after-never out_of_fuel f h k = absurd h
  after-never never f h k = refl
  after-never (ran a t n) f h k = ap (charge n) (k a t h)

  WaitsOr-charge : (n : ℕ) (r : Run A) → WaitsOr P r → WaitsOr P (charge n r)
  WaitsOr-charge n out_of_fuel h = h
  WaitsOr-charge n never h = h
  WaitsOr-charge n (ran a t k) h = h

WaitsOr-after :
    {A B : Type 0} (P : A → Tab → Type 0) (Q : B → Tab → Type 0) (r : Run A) (f : A → M B)
    → WaitsOr P r
    → ((a : A) (t : Tab) → P a t → WaitsOr Q (f a t))
    → WaitsOr Q (after r f)
WaitsOr-after P Q out_of_fuel f h k = h
WaitsOr-after P Q never f h k = tt
WaitsOr-after P Q (ran a t n) f h k = WaitsOr-charge Q n (f a t) (k a t h)

WaitsOr-branch :
    {A : Type 0} (P : A → Tab → Type 0) (test : Bool) (x y : M A) (t : Tab)
    → WaitsOr P (x t)
    → WaitsOr P (y t)
    → WaitsOr P ((if test then x else y) t)
WaitsOr-branch P true x y t hx hy = hx
WaitsOr-branch P false x y t hx hy = hy

-- The promise `p` of a tracked request is pending.
abbrev pub Pending : {A : Type 0} → ℕ → A → Tab → Type 0
Pending p a t = t.guard.pending_rotation ≡ some p

-- The request at hand is tracked as `p`, the server answers it and every request sent for it by 401,
-- and its promise stays pending as long as it has not ended.
pub record RefusesTracked {R : Type 0} (p : ℕ) (net : Network R) : Type 0 where
  pub tracked : net.tracked_as ≡ some p
  pub refused :
      (c : RequestConfig) (t : Tab)
      → (net.exchange c t).0 ≡ rejected (record { status = some 401; config = some c })
  pub exchange_keeps :
      (c : RequestConfig) (t : Tab) → Pending p tt t → Pending p tt (net.exchange c t).1
  pub locked_keeps : (t : Tab) → Pending p tt t → Pending p tt (net.locked t)
  pub joined_keeps : (t : Tab) → Pending p tt t → WaitsOr (Pending p) (awaited (net.joined t))

refresh_may_not : may_refresh refresh_request ≡ false
unfolding is_eligible_for_refresh includes
refresh_may_not = refl

module _ {R : Type 0} (p : ℕ) (net : Network R) (h : RefusesTracked p net) where
  module _ (again : RequestConfig → M (Outcome R)) where
    try_rotation-never :
        (c : RequestConfig) (t : Tab)
        → c.retried_after_rotation ≡ false
        → Pending p tt t
        → try_rotation net again c t ≡ never
    unfolding try_rotation retry_after_rotation was_session_recently_rotated
    try_rotation-never c t fresh pending = rw (fresh, pending, h.tracked, ==_refl p) refl

    then_rotation-never :
        (e : ApiError) (c : RequestConfig) (t : Tab)
        → c.retried_after_rotation ≡ false
        → Pending p tt t
        → then_rotation net again e (none, c) t ≡ never
    then_rotation-never e c t fresh pending = rw (try_rotation-never c t fresh pending) refl

    -- What a refresh leaves, where sending its request waits for ever.
    refresh_session-Pending :
        ((t : Tab) → Pending p tt t → again refresh_request t ≡ never)
        → (t : Tab) → Pending p tt t
        → WaitsOr (Pending p) (refresh_session net again t)
    unfolding refresh_session run_cross_tab_refresh refresh_under_lock
    refresh_session-Pending stuck t pending =
        let u : Tab = record t { refresh_in_flight = true } in
        let v : Tab = net.locked u in
        WaitsOr-charge (Pending p) 0 _ (
          WaitsOr-branch (Pending p) t.refresh_in_flight _ _ t (h.joined_keeps t pending) (
            WaitsOr-charge (Pending p) 0 _ (
              WaitsOr-after (Pending p) (Pending p)
                (run_cross_tab_refresh net.locked (request_refresh net again) u)
                (finish_refresh net again)
                (WaitsOr-charge (Pending p) 0 _ (
                  WaitsOr-charge (Pending p) 0 _ (
                    WaitsOr-charge (Pending p) 0 _ (
                      WaitsOr-branch (Pending p)
                        (rotation_completed_after t.rotation_result v.rotation_result) _ _ v
                        (h.locked_keeps u pending) (rw (stuck v (h.locked_keeps u pending)) tt)))))
                (λ o w k. k))))

    -- The flag of the rotation retry is not set, and its own promise is pending.
    abbrev Unanswered : RequestConfig → Option R × RequestConfig → Tab → Type 0
    Unanswered c a t = (a ≡ (none, c)) × Pending p tt t

    retry_refreshed-Unanswered :
        (c : RequestConfig) (ok : Bool) (t : Tab)
        → ((t : Tab) → Pending p tt t → again (mark_refreshed c) t ≡ never)
        → Pending p tt t
        → WaitsOr (Unanswered c) (retry_refreshed net again c ok t)
    retry_refreshed-Unanswered c false t stuck pending = (refl, pending)
    retry_refreshed-Unanswered c true t stuck pending = rw (stuck t pending) tt

    on_unauthorized-never :
        (e : ApiError) (c : RequestConfig) (t : Tab)
        → c.retried_after_rotation ≡ false
        → (may_refresh c ≡ true → (u : Tab) → Pending p tt u → again refresh_request u ≡ never)
        → (may_refresh c ≡ true → (u : Tab) → Pending p tt u → again (mark_refreshed c) u ≡ never)
        → Pending p tt t
        → on_unauthorized net again e (some c) t ≡ never
    on_unauthorized-never e c t fresh refresh retry pending = elim (Bool-cases (may_refresh c)) [
      | inr m ↦
          ap (λ r. after r (then_rotation net again e)) (try_refresh_of_may_not net again c t m)
          ∙ ap (charge 0) (then_rotation-never e c t fresh pending)
      | inl m ↦
          ap (λ r. after r (then_rotation net again e)) (try_refresh_of_may net again c t m)
          ∙ after-never (Unanswered c) _ (then_rotation net again e)
              (WaitsOr-after (Pending p) (Unanswered c) (refresh_session net again t)
                (retry_refreshed net again c) (refresh_session-Pending (refresh m) t pending)
                (λ ok u k. retry_refreshed-Unanswered c ok u (retry m) k))
              (λ a u k.
                ap (λ b. then_rotation net again e b u) k.0 ∙ then_rotation-never e c u fresh k.1)
    ]

  -- One answer by 401, handed to the interceptor.
  api-refused :
      (fuel : ℕ) (c : RequestConfig) (t : Tab)
      → on_unauthorized net
          (api net fuel)
          (record { status = some 401; config = some c })
          (some c)
          (net.exchange c t).1
        ≡ never
      → api net (suc fuel) c t ≡ never
  unfolding api on_rejected
  api-refused fuel c t stuck =
      ap (λ o. charge 1 (on_outcome net (api net fuel) o (net.exchange c t).1)) (h.refused c t)
      ∙ ap (charge 1) stuck

  api_last-never :
      (fuel : ℕ) (c : RequestConfig) (t : Tab)
      → may_refresh c ≡ false
      → c.retried_after_rotation ≡ false
      → Pending p tt t
      → api net (suc fuel) c t ≡ never
  api_last-never fuel c t may_not fresh pending = api-refused fuel c t (
      on_unauthorized-never (api net fuel) _ c (net.exchange c t).1 fresh
        (λ m. absurd (ground (arith, m, may_not))) (λ m. absurd (ground (arith, m, may_not)))
        (h.exchange_keeps c t pending))

  -- A tracked password change whose promise is the pending rotation never ends when the server answers
  -- it, and every request that the interceptor sends for it, by 401, unless it already is a retry after
  -- a rotation: the interceptor awaits the pending rotation, which is the promise of the very request
  -- that it handles.
  pub tracked_request-never :
      (fuel : ℕ) (c : RequestConfig) (t : Tab)
      → 2 ≤ fuel
      → c.retried_after_rotation ≡ false
      → t.guard.pending_rotation ≡ some p
      → api net fuel c t ≡ never
  tracked_request-never zero c t le fresh pending = absurd (omega arith)
  tracked_request-never (suc zero) c t le fresh pending = absurd (omega arith)
  tracked_request-never (suc (suc fuel)) c t le fresh pending = api-refused (suc fuel) c t (
      on_unauthorized-never (api net (suc fuel)) _ c (net.exchange c t).1 fresh
        (λ m u. api_last-never fuel refresh_request u refresh_may_not refl)
        (λ m u. api_last-never fuel (mark_refreshed c) u (ground (arith)) fresh)
        (h.exchange_keeps c t pending))
