-- ===== src/AuditLog/TimeRange/Tests.antt =====
-- Examples for the time range: a spring in which the night to March 30 is an hour short.
use mystic_auth.Prelude.{
  ℕ, ◌+◌, ◌-◌, ◌*◌, ◌<◌, String, false, ◌≡◌, refl, Option, none, some, List, [], ◌∷◌, ◌==◌,
  String_eq, ℕ_eq, if◌then◌else◌, arith,
}
use mystic_auth.AuditLog.TimeRange.{
  TimeRangeState, last_7, custom, Calendar, day_ms, half_day_ms, total_pages_for, to_bool_filter,
  default_time_range_state, time_range_to_api_params, first_render, use_time_range_params,
}
use mystic_auth.AuditLog.TimeRange.Days.{
  DaysFit, IsRegular, time_range_to_api_params-DaysFit, time_range_to_api_params-counted,
}
use mystic_auth.AuditLog.TimeRange.Resolved.{use_time_range_params-resolved}

abbrev sample_midnight : String → Option ℕ
sample_midnight date =
    if date == "2026-03-28"
    then some (20 * day_ms)
    else (if date == "2026-03-29"
        then some (21 * day_ms)
        else (if date == "2026-03-30" then some (22 * day_ms - 3600000) else none))

abbrev sample_number : String → ℕ
sample_number date = if date == "2026-03-28" then 20 else (if date == "2026-03-29" then 21 else 22)

abbrev sample_iso : ℕ → String
sample_iso time =
    if time == 20 * day_ms then "2026-03-27T23:00:00.000Z" else "2026-03-30T21:59:59.999Z"

abbrev sample : Calendar
sample = record {
  midnight = sample_midnight;
  start_of_day = λ time. time;
  end_of_day = λ time. time + (day_ms - 1);
  to_iso = sample_iso;
}

some-injective : (a b : ℕ) → some a ≡ some b → a ≡ b
some-injective a b e = cc

sample-apart :
    (a b : String) (a_ms b_ms : ℕ)
    → sample_midnight a ≡ some a_ms
    → sample_midnight b ≡ some b_ms
    → a_ms + day_ms * sample_number b < b_ms + day_ms * sample_number a + half_day_ms
sample-apart a b a_ms b_ms ea eb = grind (arith, some-injective)

abbrev sample_regular : IsRegular sample.midnight
sample_regular = record { day_number = sample_number; apart = sample-apart }

abbrev long_weekend : TimeRangeState
long_weekend = record { range = custom; custom_from = "2026-03-28"; custom_to = "2026-03-30" }

pages : total_pages_for 26 ≡ 2
unfolding total_pages_for
pages = refl

only_failures : to_bool_filter "false" ≡ some false
unfolding to_bool_filter
only_failures = refl

time_range_to_api_params-DaysFit_example :
    DaysFit (time_range_to_api_params sample long_weekend (90 * day_ms))
time_range_to_api_params-DaysFit_example =
    time_range_to_api_params-DaysFit sample long_weekend (90 * day_ms)

time_range_to_api_params-counted_example :
    time_range_to_api_params sample long_weekend (90 * day_ms)
    ≡ some (record {
      from = some "2026-03-27T23:00:00.000Z";
      to = some "2026-03-30T21:59:59.999Z";
      days = 3;
    })
time_range_to_api_params-counted_example =
    time_range_to_api_params-counted sample sample_regular long_weekend (90 * day_ms) (20 * day_ms)
      (22 * day_ms - 3600000) refl refl refl

-- The custom range whose second date is still missing.
abbrev half_picked : TimeRangeState
half_picked = record long_weekend { custom_to = "" }

abbrev shown_key : String → List (String × String) → String
shown_key key options = key

abbrev renders : List TimeRangeState
renders = record long_weekend { range = last_7 } ∷ long_weekend ∷ long_weekend ∷ half_picked ∷ []

use_time_range_params-resolved_example :
    (use_time_range_params sample renders
      (first_render sample default_time_range_state (90 * day_ms))).memo_value
    ≡ time_range_to_api_params sample half_picked (90 * day_ms)
use_time_range_params-resolved_example =
    use_time_range_params-resolved sample (90 * day_ms) default_time_range_state renders
