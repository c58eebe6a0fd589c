-- ===== src/Session/Interceptor/Tests.antt =====
-- Examples for the interceptor: a server that answers by fixed statuses.
use mystic_auth.Prelude.{
  includes, ℕ, ◌≡◌, refl, true, false, Bool-cases, none, some, inl, inr, String_eq, ℕ_eq, ◌==◌,
  get_or, if◌then◌else◌, arith,
}
use mystic_auth.Session.Guards.{was_session_recently_rotated}
use mystic_auth.Session.{Tab, loaded}
use mystic_auth.Session.Run.{Run, out_of_fuel, never, ran, Within}
use mystic_auth.Session.Interceptor.{
  RequestConfig, ApiError, Outcome, resolved, rejected, IsAbout, Network, is_eligible_for_refresh,
  mark_refreshed, session_over, refresh_session, on_rejected, api,
}
use mystic_auth.Session.Interceptor.Budget.{may_refresh}
use mystic_auth.Session.Interceptor.Bounds.{Settles, api-ends}
use mystic_auth.Session.Interceptor.SignedOut.{IsSignedOut, api-IsSignedOut}
use mystic_auth.Session.Interceptor.SelfWait.{RefusesTracked, tracked_request-never}
use mystic_auth.Session.Interceptor.Refresh.{on_rejected-retry_rejected}

abbrev request_users : RequestConfig
request_users = record {
  url = some "/users/";
  retried_after_refresh = false;
  retried_after_rotation = false;
}

abbrev failed : ℕ → RequestConfig → ApiError
failed status c = record { status = some status; config = some c }

abbrev answer : ℕ → RequestConfig → Outcome ℕ
answer status c = if status == 200 then resolved 200 else rejected (failed status c)

answer-IsAbout : (status : ℕ) (c : RequestConfig) → IsAbout c (answer status c)
answer-IsAbout status c = elim (Bool-cases (status == 200)) [
  | inl e ↦ rw e tt
  | inr e ↦ rw e (inr refl)
]

abbrev status_of : ℕ → ℕ → ℕ → RequestConfig → ℕ
status_of refresh first retried c =
    if get_or c.url "" == "/auth/refresh/"
    then refresh
    else if c.retried_after_refresh
    then retried
    else first

-- A server that answers a refresh, a first and a retried request by these statuses.
abbrev server : ℕ → ℕ → ℕ → Network ℕ
server refresh first retried = record {
  exchange = λ c t. (answer (status_of refresh first retried c) c, t);
  exchange_config = λ c t. answer-IsAbout (status_of refresh first retried c) c;
  joined = λ t. some (false, t);
  locked = λ t. t;
  settled = λ t. some (tt, t);
  tracked_as = none;
}

-- The same, where another tab has refreshed before this one gets the lock.
abbrev beaten : Network ℕ
beaten = record (server 401 401 200) {
  locked = λ t. record t { rotation_result = some (record { epoch = 1; success = true }) };
}

abbrev refreshed : Tab
refreshed = record (loaded 7) { rotation_result = some (record { epoch = 1; success = true }) }

-- A refresh that the server refuses signs the tab out by itself.
abbrev refused : Tab
refused =
    let under_way = session_over (record (loaded 7) { refresh_in_flight = true }) in
    session_over (record under_way {
      rotation_result = some (record { epoch = 1; success = false });
      refresh_in_flight = false;
    })

server-Settles : Settles (server 401 401 401)
server-Settles = record {
  untracked = refl;
  rotations_settle = λ t. refl;
  refreshes_settle = λ t. refl;
}

api-ends_example : Within 7 (api (server 401 401 401) 4 request_users (loaded 7))
api-ends_example =
    api-ends (server 401 401 401) server-Settles 4 request_users (loaded 7) (omega arith)

refused_run :
    api (server 401 401 401) 4 request_users (loaded 7)
    ≡ ran (rejected (failed 401 request_users)) refused 2
unfolding api is_eligible_for_refresh includes
refused_run = refl

api-IsSignedOut_example : IsSignedOut refused.auth
api-IsSignedOut_example =
    api-IsSignedOut (server 401 401 401) 4 request_users (loaded 7) refused
      (failed 401 request_users) 2 refused_run refl

may_refresh_users : may_refresh request_users ≡ true
unfolding is_eligible_for_refresh includes
may_refresh_users = refl

refreshed_ok :
    (retried : ℕ)
    → refresh_session (server 200 401 retried) (api (server 200 401 retried) 3) (loaded 7)
      ≡ ran true refreshed 1
unfolding api refresh_session
refreshed_ok retried = refl

retried_ok :
    api (server 200 401 200) 3 (mark_refreshed request_users) refreshed
    ≡ ran (resolved 200) refreshed 1
unfolding api
retried_ok = refl

retried_forbidden :
    api (server 200 401 403) 3 (mark_refreshed request_users) refreshed
    ≡ ran (rejected (failed 403 (mark_refreshed request_users))) refreshed 1
unfolding api
retried_forbidden = refl

-- The refresh succeeds, the retried request is forbidden, and the session is ended.
retry_rejected_example :
    on_rejected
      (server 200 401 403)
      (api (server 200 401 403) 3)
      (failed 401 request_users)
      (loaded 7)
    ≡ ran (rejected (failed 401 request_users)) (session_over refreshed) 2
unfolding was_session_recently_rotated
retry_rejected_example =
    on_rejected-retry_rejected (server 200 401 403) (api (server 200 401 403) 3)
      (failed 401 request_users) (failed 403 (mark_refreshed request_users)) request_users
      (loaded 7) refreshed refreshed 1 1 refl refl may_refresh_users (refreshed_ok 403)
      retried_forbidden refl

-- A rotation is under way, and the server answers 401 to everything.
abbrev rotating : Tab
rotating = record (loaded 7) {
  guard = record { pending_rotation = some 1; rotation_settled_at = none };
}

abbrev sent : Run (Outcome ℕ) → ℕ
sent out_of_fuel = 0
sent never = 0
sent (ran o t n) = n

six_requests : sent (api (server 401 401 401) 4 request_users rotating) ≡ 6
unfolding api is_eligible_for_refresh includes
six_requests = refl

-- A server that answers every request by 401, for a password change that is tracked as promise 1.
abbrev refusing : Network ℕ
refusing = record {
  exchange = λ c t. (rejected (failed 401 c), t);
  exchange_config = λ c t. inr refl;
  joined = λ t. some (false, t);
  locked = λ t. t;
  settled = λ t. some (tt, t);
  tracked_as = some 1;
}

refusing-RefusesTracked : RefusesTracked 1 refusing
refusing-RefusesTracked = record {
  tracked = refl;
  refused = λ c t. refl;
  exchange_keeps = λ c t k. k;
  locked_keeps = λ t k. k;
  joined_keeps = λ t k. k;
}

abbrev change_password : RequestConfig
change_password = record request_users { url = some "/users/me" }

tracked_request-never_example : api refusing 4 change_password rotating ≡ never
tracked_request-never_example =
    tracked_request-never 1 refusing refusing-RefusesTracked 4 change_password rotating
      (omega arith) refl refl
