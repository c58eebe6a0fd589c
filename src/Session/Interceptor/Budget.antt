-- ===== src/Session/Interceptor/Budget.antt =====
-- The budget of requests that the two flags of setupAuthInterceptor.ts leave, in numbers.
use mystic_auth.Prelude.{
  includes, ℕ, zero, suc, ◌+◌, ◌-◌, ◌≤◌, ◌<◌, Bool, true, not, ◌&&◌, ◌≡◌, refl, arith,
  if◌then◌else◌,
}
use mystic_auth.Session.Interceptor.{
  RequestConfig, is_eligible_for_refresh, mark_refreshed, mark_rotated, refresh_request,
}

-- How many retries the flags of a request still allow, counting a refresh and its retry as two.
abbrev pub rounds_left : Bool → Bool → ℕ
rounds_left may_refresh rotated = (if may_refresh then 2 else 0) + (if rotated then 0 else 1)

abbrev pub may_refresh : RequestConfig → Bool
may_refresh c = is_eligible_for_refresh c && not c.retried_after_refresh

abbrev pub rounds : RequestConfig → ℕ
rounds c = rounds_left (may_refresh c) c.retried_after_rotation

-- The most requests that one of so many rounds can lead to, itself included.
abbrev pub most_sent : ℕ → ℕ
most_sent zero = 1
most_sent (suc zero) = 2
most_sent (suc (suc zero)) = 4
most_sent (suc (suc (suc n))) = 7

pub rounds-refresh_request : rounds refresh_request ≡ 1
unfolding is_eligible_for_refresh includes
rounds-refresh_request = refl

-- What may still be sent for a request once its refresh has been tried and gave no answer.
abbrev pub price_rotation : RequestConfig → ℕ
price_rotation c =
    if c.retried_after_rotation then 0 else most_sent (rounds_left (may_refresh c) true)

pub rounds-mark_rotated :
    (c : RequestConfig) → rounds (mark_rotated c) ≡ rounds_left (may_refresh c) true
unfolding is_eligible_for_refresh
rounds-mark_rotated c = refl

pub rounds-mark_refreshed :
    (c : RequestConfig) → rounds (mark_refreshed c) ≡ (if c.retried_after_rotation then 0 else 1)
rounds-mark_refreshed c = ground arith

pub rounds-mark_refreshed-le : (c : RequestConfig) → rounds (mark_refreshed c) ≤ rounds c
rounds-mark_refreshed-le c = ground (arith, rounds-mark_refreshed c)

pub first_of_and : (a b : Bool) → (a && b) ≡ true → a ≡ true
first_of_and a b h = ground arith

pub rotation_fits :
    (c : RequestConfig)
    → not c.retried_after_rotation ≡ true
    → (rounds (mark_rotated c) < rounds c)
      × (most_sent (rounds (mark_rotated c)) ≤ price_rotation c)
rotation_fits c free_to = rw (rounds-mark_rotated c) (ground arith)

pub refresh_fits : (c : RequestConfig) → may_refresh c ≡ true → 3 ≤ most_sent (rounds c) - 1
refresh_fits c m = ground arith

pub no_refresh_fits : (c : RequestConfig) → price_rotation c ≤ most_sent (rounds c) - 1
no_refresh_fits c = ground arith

pub failed_refresh_fits :
    (c : RequestConfig) → may_refresh c ≡ true → price_rotation c ≤ most_sent (rounds c) - 3
failed_refresh_fits c m = ground arith

pub price_rotation-mark_refreshed :
    (c : RequestConfig)
    → price_rotation (mark_refreshed c) ≡ (if c.retried_after_rotation then 0 else 1)
price_rotation-mark_refreshed c = ground arith

pub retry_fits :
    (c : RequestConfig)
    → may_refresh c ≡ true
    → most_sent (rounds (mark_refreshed c)) + price_rotation (mark_refreshed c)
      ≤ most_sent (rounds c) - 3
retry_fits c m = rw (rounds-mark_refreshed c, price_rotation-mark_refreshed c) (ground arith)

pub most_sent-pos : (n : ℕ) → 1 + (most_sent n - 1) ≤ most_sent n
most_sent-pos zero = omega arith
most_sent-pos (suc zero) = omega arith
most_sent-pos (suc (suc zero)) = omega arith
most_sent-pos (suc (suc (suc n))) = omega arith

pub rounds-le-three : (c : RequestConfig) → rounds c ≤ 3
rounds-le-three c = ground arith

pub most_sent-le-seven : (n : ℕ) → most_sent n ≤ 7
most_sent-le-seven zero = omega arith
most_sent-le-seven (suc zero) = omega arith
most_sent-le-seven (suc (suc zero)) = omega arith
most_sent-le-seven (suc (suc (suc n))) = omega arith
