-- ===== src/Session/Interceptor/Refresh.antt =====
-- What a 401 comes to when the silent refresh of setupAuthInterceptor.ts is made.
use mystic_auth.Prelude.{
  ℕ, ◌+◌, Bool, true, false, not, ◌&&◌, ◌≡◌, refl, ap, ◌∙◌, none, some, arith, if◌then◌else◌,
}
use mystic_auth.Session.Guards.{was_session_recently_rotated}
use mystic_auth.Session.{Tab}
use mystic_auth.Session.CrossTab.{rotation_completed_after}
use mystic_auth.Session.Run.{ran, M, after, charge, pure}
use mystic_auth.Session.Interceptor.{
  RequestConfig, ApiError, Outcome, resolved, rejected, Network, is_unauthorized, session_over,
  answer_of, mark_refreshed, refresh_session, retry_refreshed, try_refresh, retry_after_rotation,
  try_rotation, give_up, then_rotation, or_give_up, on_unauthorized, on_rejected,
}
use mystic_auth.Session.Interceptor.Budget.{may_refresh}
use mystic_auth.Session.Interceptor.Bounds.{try_refresh_of_may}

and-false_of : (a : Bool) {b : Bool} → b ≡ false → (a && b) ≡ false
and-false_of true h = h
and-false_of false h = refl

module _ {R : Type 0} (net : Network R) (again : RequestConfig → M (Outcome R)) where
  -- Where another tab has rotated the tokens while this one waited for the lock, the refresh
  -- succeeds and sends no request, whatever sending one would have done.
  refresh_session_already_rotated :
      (t : Tab)
      → t.refresh_in_flight ≡ false
      → rotation_completed_after t.rotation_result
          (net.locked (record t { refresh_in_flight = true })).rotation_result
        ≡ true
      → refresh_session net again t
        ≡ ran true
            (record (net.locked (record t { refresh_in_flight = true })) {
              refresh_in_flight = false;
            })
            0
  unfolding refresh_session
  refresh_session_already_rotated t idle done = rw (idle, done)

  -- A refresh that succeeds is followed by the request itself, marked.
  try_refresh-retried :
      (c : RequestConfig) (t t1 t2 : Tab) (o : Outcome R) (n1 n2 : ℕ)
      → may_refresh c ≡ true
      → refresh_session net again t ≡ ran true t1 n1
      → again (mark_refreshed c) t1 ≡ ran o t2 n2
      → try_refresh net again c t ≡ ran (answer_of o, mark_refreshed c) t2 (n1 + (n2 + 0))
  try_refresh-retried c t t1 t2 o n1 n2 may refreshed retried =
      try_refresh_of_may net again c t may
      ∙ ap (λ r. after r (retry_refreshed net again c)) refreshed
      ∙ ap (λ r. charge n1 (after r (λ o. pure (answer_of o, mark_refreshed c)))) retried

  on_rejected-retried :
      (e : ApiError) (c : RequestConfig) (t t1 t2 : Tab) (o : Outcome R) (n1 n2 : ℕ)
      → is_unauthorized e.status ≡ true
      → e.config ≡ some c
      → may_refresh c ≡ true
      → refresh_session net again t ≡ ran true t1 n1
      → again (mark_refreshed c) t1 ≡ ran o t2 n2
      → on_rejected net again e t
        ≡ charge (n1 + (n2 + 0)) (then_rotation net again e (answer_of o, mark_refreshed c) t2)
  unfolding on_rejected
  on_rejected-retried e c t t1 t2 o n1 n2 expired this may refreshed retried =
      ap (λ b. (if b then on_unauthorized net again e e.config else pure (rejected e)) t) expired
      ∙ ap (λ r. on_unauthorized net again e r t) this
      ∙ ap (λ r. after r (then_rotation net again e))
          (try_refresh-retried c t t1 t2 o n1 n2 may refreshed retried)

  -- The refresh succeeds and the retried request is answered: the caller gets that answer, and the
  -- interceptor itself changes nothing in the tab.
  on_rejected-retry_resolved :
      (e : ApiError) (c : RequestConfig) (t t1 t2 : Tab) (r : R) (n1 n2 : ℕ)
      → is_unauthorized e.status ≡ true
      → e.config ≡ some c
      → may_refresh c ≡ true
      → refresh_session net again t ≡ ran true t1 n1
      → again (mark_refreshed c) t1 ≡ ran (resolved r) t2 n2
      → on_rejected net again e t ≡ ran (resolved r) t2 (n1 + n2)
  on_rejected-retry_resolved e c t t1 t2 r n1 n2 expired this may refreshed retried =
      on_rejected-retried e c t t1 t2 (resolved r) n1 n2 expired this may refreshed retried
      ∙ ap (ran (resolved r) t2) (omega arith)

  try_rotation_over :
      (c : RequestConfig) (t : Tab)
      → was_session_recently_rotated t.now t.guard ≡ false
      → try_rotation net again c t ≡ ran none t 0
  unfolding try_rotation
  try_rotation_over c t settled =
      ap (λ b. if b then retry_after_rotation net again c t else ran none t 0)
        (and-false_of (not c.retried_after_rotation) settled)

  then_rotation_over :
      (e : ApiError) (c : RequestConfig) (t : Tab)
      → was_session_recently_rotated t.now t.guard ≡ false
      → then_rotation net again e (none, c) t ≡ ran (rejected e) (session_over t) 0
  unfolding give_up
  then_rotation_over e c t settled =
      ap (λ r. after r (or_give_up net again e)) (try_rotation_over c t settled)

  -- The refresh succeeds and the retried request is rejected, for whatever reason, with no rotation
  -- under way or just settled: although the refreshed session is valid, the tab is signed out, and
  -- the caller gets the first 401.
  pub on_rejected-retry_rejected :
      (e e2 : ApiError) (c : RequestConfig) (t t1 t2 : Tab) (n1 n2 : ℕ)
      → is_unauthorized e.status ≡ true
      → e.config ≡ some c
      → may_refresh c ≡ true
      → refresh_session net again t ≡ ran true t1 n1
      → again (mark_refreshed c) t1 ≡ ran (rejected e2) t2 n2
      → was_session_recently_rotated t2.now t2.guard ≡ false
      → on_rejected net again e t ≡ ran (rejected e) (session_over t2) (n1 + n2)
  on_rejected-retry_rejected e e2 c t t1 t2 n1 n2 expired this may refreshed retried settled =
      on_rejected-retried e c t t1 t2 (rejected e2) n1 n2 expired this may refreshed retried
      ∙ ap (charge (n1 + (n2 + 0))) (then_rotation_over e (mark_refreshed c) t2 settled)
      ∙ ap (ran (rejected e) (session_over t2)) (omega arith)
