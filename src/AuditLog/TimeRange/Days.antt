-- ===== src/AuditLog/TimeRange/Days.antt =====
-- The count of days of a time range.
use mystic_auth.Prelude.{
  ℕ, ◌+◌, ◌-◌, ◌*◌, ◌/◌, ◌≤◌, ◌<◌, String, true, ◌&&◌, ◌≡◌, refl, Option, none, some, Bool-cases,
  inl, inr, ltb, arith,
}
use mystic_auth.AuditLog.TimeRange.{
  TimeRangeState, TimeRangeValue, last_7, last_14, last_30, last_90, custom, TimeRangeApiParams,
  Calendar, clamped_days, min_days, day_ms, half_day_ms, is_custom, has_dates, preset_days,
  custom_params, preset_params, time_range_to_api_params,
}

-- That a day count is one which the backend takes, where there is one.
abbrev pub DaysFit : Option TimeRangeApiParams → Type 0
DaysFit none = Unit
DaysFit (some p) = (1 ≤ p.days) × (p.days ≤ 90)

clamped_days-fit : (from to : ℕ) → (1 ≤ clamped_days from to) × (clamped_days from to ≤ 90)
unfolding clamped_days
clamped_days-fit from to = (ground arith, ground arith)

custom_params-DaysFit : (cal : Calendar) (from to : Option ℕ) → DaysFit (custom_params cal from to)
unfolding custom_params
custom_params-DaysFit cal none to = tt
custom_params-DaysFit cal (some from) none = tt
custom_params-DaysFit cal (some from) (some to) = clamped_days-fit from to

preset_days-fit : (range : TimeRangeValue) → (1 ≤ preset_days range) × (preset_days range ≤ 90)
preset_days-fit last_7 = (omega arith, omega arith)
preset_days-fit last_14 = (omega arith, omega arith)
preset_days-fit last_30 = (omega arith, omega arith)
preset_days-fit last_90 = (omega arith, omega arith)
preset_days-fit custom = (omega arith, omega arith)

preset_params-DaysFit :
    (cal : Calendar) (days now_ms : ℕ)
    → (1 ≤ days) × (days ≤ 90)
    → DaysFit (preset_params cal days now_ms)
unfolding preset_params
preset_params-DaysFit cal days now_ms h = elim (Bool-cases (ltb now_ms ((days - 1) * day_ms))) [
  | inl e ↦ rw e tt
  | inr e ↦ rw e h
]

-- The day count that is asked of the backend is always from 1 to 90, whatever is picked.
pub time_range_to_api_params-DaysFit :
    (cal : Calendar) (state : TimeRangeState) (now_ms : ℕ)
    → DaysFit (time_range_to_api_params cal state now_ms)
unfolding time_range_to_api_params
time_range_to_api_params-DaysFit cal state now_ms =
    elim (Bool-cases (is_custom state.range && has_dates state)) [
      | inl e ↦ rw e (custom_params-DaysFit cal _ _)
      | inr e ↦ rw e (preset_params-DaysFit cal _ now_ms (preset_days-fit state.range))
    ]

-- The numbers of the dates, and that two midnights are as many days apart as their numbers, up to
-- a change of the clocks by less than half a day.
pub record IsRegular (midnight : String → Option ℕ) : Type 0 where
  pub day_number : String → ℕ
  pub apart :
      (a b : String) (a_ms b_ms : ℕ)
      → midnight a ≡ some a_ms
      → midnight b ≡ some b_ms
      → a_ms + day_ms * day_number b < b_ms + day_ms * day_number a + half_day_ms

clamped_days-counted :
    (from to m n : ℕ)
    → from + day_ms * n < to + day_ms * m + half_day_ms
    → to + day_ms * m < from + day_ms * n + half_day_ms
    → clamped_days from to ≡ min_days (n - m + 1)
unfolding clamped_days
clamped_days-counted from to m n below above =
    let rounded : (to - from + half_day_ms) / day_ms ≡ n - m = omega arith in
    rw rounded (ground arith)

-- A custom range asks for the days from its first date to its last, both counted, at most 90, also
-- across a change of the clocks; one day where the last date is not after the first.
pub time_range_to_api_params-counted :
    (cal : Calendar) (regular : IsRegular cal.midnight) (state : TimeRangeState)
    (now_ms from_ms to_ms : ℕ)
    → (is_custom state.range && has_dates state) ≡ true
    → cal.midnight state.custom_from ≡ some from_ms
    → cal.midnight state.custom_to ≡ some to_ms
    → time_range_to_api_params cal state now_ms
      ≡ some (record {
        from = some (cal.to_iso (cal.start_of_day from_ms));
        to = some (cal.to_iso (cal.end_of_day to_ms));
        days =
            min_days
              (regular.day_number state.custom_to - regular.day_number state.custom_from + 1);
      })
unfolding time_range_to_api_params custom_params
time_range_to_api_params-counted cal regular state now_ms from_ms to_ms h ef et =
    let e =
      clamped_days-counted from_ms to_ms (regular.day_number state.custom_from)
        (regular.day_number state.custom_to)
        (regular.apart state.custom_from state.custom_to from_ms to_ms ef et)
        (regular.apart state.custom_to state.custom_from to_ms from_ms et ef) in
    rw (h, ef, et, e) refl
