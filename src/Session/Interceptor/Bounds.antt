-- ===== src/Session/Interceptor/Bounds.antt =====
-- When the interceptor ends, and how many requests it sends: the two flags of setupAuthInterceptor.ts
-- cut off every chain of refreshes and retries, and what is left are the waits for other requests.
use mystic_auth.Session.CrossTab.Sends.{Within-run_cross_tab_refresh}
use mathlib.Core.Path.{subst}
use mystic_auth.Session.Guards.{was_session_recently_rotated}
use mystic_auth.Prelude.{
  ℕ, zero, suc, ◌+◌, ◌-◌, ◌⊎◌, ◌≤◌, ◌<◌, Bool, true, false, not, ◌&&◌, ◌≡◌, sym, Option, none, some,
  inl, inr, Bool-cases, arith, if◌then◌else◌,
}
use mystic_auth.Session.{Tab}
use mystic_auth.Session.CrossTab.{run_cross_tab_refresh}
use mystic_auth.Session.Run.{
  Ensures, Ensures-after, awaited, ◌>>=◌, Pays-after_ensured, ran, M, after, Pays, Within, free,
  Pays-after, pure, Pays-charge, Pays-mono, Pays-flat, Pays-charge_zero,
}
use mystic_auth.Session.Interceptor.{
  IsAbout, RequestConfig, ApiError, Outcome, resolved, rejected, Network, mark_refreshed,
  mark_rotated, refresh_request, answer_of, request_refresh, finish_refresh, refresh_session,
  try_refresh, await_rotation, await_pending, is_some, is_unauthorized, retry_refreshed,
  try_rotation, give_up, then_rotation, or_give_up, on_unauthorized, on_rejected, on_outcome, api,
}
use mystic_auth.Session.Interceptor.Budget.{
  failed_refresh_fits, first_of_and, may_refresh, most_sent, most_sent-le-seven, most_sent-pos,
  no_refresh_fits, price_rotation, refresh_fits, retry_fits, rotation_fits, rounds, rounds-le-three,
  rounds-mark_refreshed, rounds-mark_refreshed-le, rounds-refresh_request,
}

-- The request at hand is not tracked itself, and the other requests that it may wait for end: those
-- whose rotation is pending, and those whose refresh it joins.
pub record Settles {R : Type 0} (net : Network R) : Type 0 where
  pub untracked : net.tracked_as ≡ none
  pub rotations_settle : (t : Tab) → is_some (net.settled t) ≡ true
  pub refreshes_settle : (t : Tab) → is_some (net.joined t) ≡ true

Within-branch :
    {A : Type 0} (b : ℕ) (test : Bool) (x y : M A) (t : Tab)
    → Within b (x t)
    → Within b (y t)
    → Within b ((if test then x else y) t)
Within-branch b true x y t hx hy = hx
Within-branch b false x y t hx hy = hy

Within-awaited : {A : Type 0} (o : Option (A × Tab)) → is_some o ≡ true → Within 0 (awaited o)
Within-awaited none h = absurd (ground (arith, h))
Within-awaited (some (a, t)) h = omega arith

module _ {R : Type 0} (net : Network R) (again : RequestConfig → M (Outcome R)) where
  pub try_refresh_of_may :
      (c : RequestConfig) (t : Tab)
      → may_refresh c ≡ true
      → try_refresh net again c t
        ≡ after (refresh_session net again t) (retry_refreshed net again c)
  unfolding try_refresh
  try_refresh_of_may c t m = rw m

  pub try_refresh_of_may_not :
      (c : RequestConfig) (t : Tab)
      → may_refresh c ≡ false
      → try_refresh net again c t ≡ ran (none, c) t 0
  unfolding try_refresh
  try_refresh_of_may_not c t m = rw m

module _ {R : Type 0} (net : Network R) (settles : Settles net)
    (again : RequestConfig → M (Outcome R)) where
  Within-await_pending : (o : Option ℕ) (t : Tab) → Within 0 (await_pending net again o t)
  Within-await_pending none t = omega arith
  Within-await_pending (some p) t =
      rw settles.untracked (Within-awaited (net.settled t) (settles.rotations_settle t))

  Within-request_refresh :
      (b : ℕ)
      → ((t : Tab) → Within b (again refresh_request t))
      → (t : Tab) → Within b (request_refresh net again t)
  Within-request_refresh b h t =
      Pays-after free free b (again refresh_request t) _ (h t) (λ o u. omega arith)

  Within-refresh_session :
      (b : ℕ)
      → ((t : Tab) → Within b (again refresh_request t))
      → (t : Tab) → Within b (refresh_session net again t)
  unfolding refresh_session
  Within-refresh_session b h t =
      let u : Tab = record t { refresh_in_flight = true } in
      Pays-charge_zero free b _ (
        Within-branch b t.refresh_in_flight _ _ t
          (Pays-mono free 0 b (awaited (net.joined t)) (omega arith)
            (Within-awaited (net.joined t) (settles.refreshes_settle t)))
          (Pays-charge_zero free b _ (
            Pays-after free free b (run_cross_tab_refresh net.locked (request_refresh net again) u)
              (finish_refresh net again)
              (Within-run_cross_tab_refresh net.locked (request_refresh net again) b u
                (Within-request_refresh b h))
              (λ o v. omega arith))))

  abbrev price : Option R × RequestConfig → ℕ
  price (some r, c) = 0
  price (none, c) = price_rotation c

  -- The bound for requests with fewer rounds left than `n`.
  abbrev BoundedBelow : ℕ → Type 0
  BoundedBelow n =
      (c : RequestConfig) (t : Tab) → rounds c < n → Within (most_sent (rounds c)) (again c t)

  Pays-retry_refreshed :
      (c : RequestConfig) (ok : Bool) (t : Tab)
      → may_refresh c ≡ true
      → BoundedBelow (rounds c)
      → Pays price (most_sent (rounds c) - 3) (retry_refreshed net again c ok t)
  Pays-retry_refreshed c false t m below = omega (arith, failed_refresh_fits c m)
  Pays-retry_refreshed c true t m below =
      let c' = mark_refreshed c in
      let b = most_sent (rounds c') in
      let k = price_rotation c' in
      Pays-mono price (b + k) (most_sent (rounds c) - 3) _ (retry_fits c m) (
        Pays-after (λ o. k) price (b + k) (again c' t) (λ o. pure (answer_of o, c'))
          (Pays-flat k b (again c' t) (below c' t (ground (arith, rounds-mark_refreshed c))))
          (λ o u. answered_price c' o))
    where
      answered_price :
          (c : RequestConfig) (o : Outcome R) → 0 + price (answer_of o, c) ≤ price_rotation c
      answered_price c (resolved r) = omega arith
      answered_price c (rejected e) = omega arith

  refresh-Within_two :
      (c : RequestConfig)
      → may_refresh c ≡ true
      → BoundedBelow (rounds c)
      → (t : Tab) → Within 2 (again refresh_request t)
  refresh-Within_two c m below t =
      subst (λ k. Within (most_sent k) (again refresh_request t)) rounds-refresh_request
        (below refresh_request t (rw (rounds-refresh_request, m) (omega arith)))

  Pays-try_refresh :
      (c : RequestConfig) (t : Tab)
      → BoundedBelow (rounds c)
      → Pays price (most_sent (rounds c) - 1) (try_refresh net again c t)
  unfolding try_refresh
  Pays-try_refresh c t below = elim (Bool-cases (may_refresh c)) [
    | inl m ↦
        let k = most_sent (rounds c) - 3 in
        let r = after (refresh_session net again t) (retry_refreshed net again c) in
        subst (Pays price (most_sent (rounds c) - 1)) (sym (try_refresh_of_may net again c t m)) (
          Pays-mono price (2 + k) (most_sent (rounds c) - 1) r (omega (arith, refresh_fits c m)) (
            Pays-after (λ ok. k) price (2 + k) (refresh_session net again t)
              (retry_refreshed net again c)
              (Pays-flat k 2 (refresh_session net again t)
                (Within-refresh_session 2 (refresh-Within_two c m below) t))
              (λ ok u. Pays-retry_refreshed c ok u m below)))
    | inr m ↦
        subst (Pays price (most_sent (rounds c) - 1)) (sym (try_refresh_of_may_not net again c t m))
          (omega (arith, no_refresh_fits c))
  ]

  Within-try_rotation :
      (c : RequestConfig) (t : Tab)
      → BoundedBelow (rounds c)
      → Within (price_rotation c) (try_rotation net again c t)
  unfolding try_rotation
  Within-try_rotation c t below =
      elim (Bool-cases
        (not c.retried_after_rotation && was_session_recently_rotated t.now t.guard)) [
          | inl due ↦
              let c' = mark_rotated c in
              let free_to = rotation_fits c (first_of_and _ _ due) in
              let b = price_rotation c in
              rw due (
                Pays-after (λ o. b) free b (await_rotation net again t)
                  (λ o. again c' >>= (λ o. pure (answer_of o)))
                  (Pays-mono (λ o. b) (0 + b) b (await_rotation net again t) (omega arith)
                    (Pays-flat b 0 (await_rotation net again t)
                      (Within-await_pending t.guard.pending_rotation t)))
                  (λ o u.
                    Pays-after free free b (again c' u) (λ o. pure (answer_of o))
                      (Pays-mono free (most_sent (rounds c')) b (again c' u) free_to.1
                        (below c' u free_to.0))
                      (λ o v. omega arith)))
          | inr over ↦ rw over (omega arith)
        ]

  -- A refresh leaves the request with no more rounds.
  FewerRounds : ℕ → Option R × RequestConfig → Tab → Type 0
  FewerRounds n a t = rounds a.1 ≤ n

  Ensures-retry_refreshed :
      (c : RequestConfig) (ok : Bool) (t : Tab)
      → Ensures (FewerRounds (rounds c)) (retry_refreshed net again c ok t)
  unfolding FewerRounds
  Ensures-retry_refreshed c false t = omega arith
  Ensures-retry_refreshed c true t =
      Ensures-after (FewerRounds (rounds c)) (again (mark_refreshed c) t)
        (λ o. pure (answer_of o, mark_refreshed c)) (λ o u. rounds-mark_refreshed-le c)

  Ensures-try_refresh :
      (c : RequestConfig) (t : Tab) → Ensures (FewerRounds (rounds c)) (try_refresh net again c t)
  unfolding FewerRounds
  Ensures-try_refresh c t = elim (Bool-cases (may_refresh c)) [
    | inl m ↦ subst (Ensures (FewerRounds (rounds c))) (sym (try_refresh_of_may net again c t m)) (
        Ensures-after (FewerRounds (rounds c)) (refresh_session net again t)
          (retry_refreshed net again c) (λ ok u. Ensures-retry_refreshed c ok u))
    | inr m ↦
        subst (Ensures (FewerRounds (rounds c))) (sym (try_refresh_of_may_not net again c t m))
          (omega arith)
  ]

  Within-or_give_up :
      (e : ApiError) (o : Option R) (t : Tab) → Within 0 (or_give_up net again e o t)
  unfolding give_up
  Within-or_give_up e none t = omega arith
  Within-or_give_up e (some r) t = omega arith

  Within-then_rotation :
      (e : ApiError) (n : ℕ) (a : Option R × RequestConfig) (t : Tab)
      → BoundedBelow n
      → FewerRounds n a t
      → Within (price a) (then_rotation net again e a t)
  unfolding FewerRounds
  Within-then_rotation e n (some r, c) t below few = omega arith
  Within-then_rotation e n (none, c) t below few =
      Pays-after free free (price_rotation c) (try_rotation net again c t) (or_give_up net again e)
        (Within-try_rotation c t (λ d u fewer. below d u (omega arith)))
        (λ o u. Within-or_give_up e o u)

  Within-on_unauthorized :
      (e : ApiError) (o : Option RequestConfig) (c : RequestConfig) (t : Tab)
      → (o ≡ none) ⊎ (o ≡ some c)
      → BoundedBelow (rounds c)
      → Within (most_sent (rounds c) - 1) (on_unauthorized net again e o t)
  unfolding give_up
  Within-on_unauthorized e o c t (inl absent) below = rw absent (omega arith)
  Within-on_unauthorized e o c t (inr this) below = rw this (
      Pays-after_ensured (FewerRounds (rounds c)) price free (most_sent (rounds c) - 1)
        (try_refresh net again c t) (then_rotation net again e) (Ensures-try_refresh c t)
        (Pays-try_refresh c t below) (λ a u few. Within-then_rotation e (rounds c) a u below few))

  Within-on_rejected :
      (e : ApiError) (c : RequestConfig) (t : Tab)
      → (e.config ≡ none) ⊎ (e.config ≡ some c)
      → BoundedBelow (rounds c)
      → Within (most_sent (rounds c) - 1) (on_rejected net again e t)
  unfolding on_rejected
  Within-on_rejected e c t about below = elim (Bool-cases (is_unauthorized e.status)) [
    | inr other ↦ rw other (omega arith)
    | inl expired ↦ rw expired (Within-on_unauthorized e e.config c t about below)
  ]

  Within-on_outcome :
      (c : RequestConfig) (o : Outcome R) (t : Tab)
      → IsAbout c o
      → BoundedBelow (rounds c)
      → Within (most_sent (rounds c) - 1) (on_outcome net again o t)
  Within-on_outcome c (resolved r) t about below = omega arith
  Within-on_outcome c (rejected e) t about below = Within-on_rejected e c t about below

-- With more fuel than the request has rounds left, an intercepted request ends: it sends at most
-- one, two, four or seven HTTP requests, as its flags and its path leave it no round, one, two or
-- three.
Within-api :
    {R : Type 0} (net : Network R) (settles : Settles net) (fuel : ℕ) (c : RequestConfig) (t : Tab)
    → rounds c < fuel
    → Within (most_sent (rounds c)) (api net fuel c t)
unfolding api
Within-api net settles zero c t h = absurd (omega arith)
Within-api net settles (suc fuel) c t h =
    let b = most_sent (rounds c) in
    let o = net.exchange c t in
    Pays-mono free (1 + (b - 1)) b _ (most_sent-pos (rounds c)) (
      Pays-charge free 1 (b - 1) (on_outcome net (api net fuel) o.0 o.1) (
        Within-on_outcome net settles (api net fuel) c o.0 o.1 (net.exchange_config c t)
          (λ d u fewer. Within-api net settles fuel d u (omega arith))))

-- Whatever the network answers and whatever else happens in the tab, an intercepted request ends,
-- refreshes and retries included, after at most seven HTTP requests, as long as it is not itself
-- tracked as a session rotation, the other requests end whose rotation or refresh it awaits, every
-- HTTP request is answered or fails, and the Web Lock is granted; nesting four deep is enough.
pub api-ends :
    {R : Type 0} (net : Network R) (settles : Settles net) (fuel : ℕ) (c : RequestConfig) (t : Tab)
    → 4 ≤ fuel
    → Within 7 (api net fuel c t)
api-ends net settles fuel c t h =
    Pays-mono free (most_sent (rounds c)) 7 _ (most_sent-le-seven (rounds c))
      (Within-api net settles fuel c t (omega (arith, rounds-le-three c)))
