-- ===== src/AuditLog/TimeRange.antt =====
-- frontend/src/mystic_auth/audit_log/auditLogListConfig.ts: the time range of the audit logs, their
-- page count and their yes-or-no filters. A time is a count of milliseconds from the earliest that a
-- `Date` can hold. The calendar of the browser is a parameter; where the source throws on an
-- invalid date, the result is none.
pub mod Days
pub mod Resolved
mod Tests
use Prim.Native.Nat.{max}
use mystic_auth.Prelude.{
  ℕ, ◌+◌, ◌-◌, ◌*◌, ◌/◌, String, ◌<>◌, Bool, true, false, not, ◌&&◌, Option, none, some, List, [],
  ◌∷◌, ◌==◌, String_eq, ltb, if◌then◌else◌, for_each,
}

abbrev pub log_page_size : ℕ
log_page_size = 25

abbrev pub all_value : String
all_value = ""

unfoldable pub total_pages_for : ℕ → ℕ
total_pages_for total = max 1 ((total + (log_page_size - 1)) / log_page_size)

unfoldable pub to_bool_filter : String → Option Bool
to_bool_filter value = if value == all_value then none else some (value == "true")

-- The presets and the custom range.
pub data TimeRangeValue : Type 0 where
  last_7 last_14 last_30 last_90 custom : TimeRangeValue

abbrev pub range_text : TimeRangeValue → String
range_text last_7 = "7"
range_text last_14 = "14"
range_text last_30 = "30"
range_text last_90 = "90"
range_text custom = "custom"

abbrev pub default_time_range : TimeRangeValue
default_time_range = last_14

pub record TimeRangeState : Type 0 where
  pub range : TimeRangeValue
  pub custom_from : String
  pub custom_to : String

abbrev pub default_time_range_state : TimeRangeState
default_time_range_state = record { range = default_time_range; custom_from = ""; custom_to = "" }

abbrev pub is_custom : TimeRangeValue → Bool
is_custom range = range_text range == range_text custom

-- `!!customFrom && !!customTo`
abbrev pub has_dates : TimeRangeState → Bool
has_dates state = not (state.custom_from == "") && not (state.custom_to == "")

unfoldable pub is_time_range_active : TimeRangeState → Bool
is_time_range_active state =
    if is_custom state.range
    then has_dates state
    else not (range_text state.range == range_text default_time_range)

pub record TimeRangeApiParams : Type 0 where
  pub from : Option String
  pub to : Option String
  pub days : ℕ

-- `Number` of a preset; a custom range without its dates counts as the default.
abbrev pub preset_days : TimeRangeValue → ℕ
preset_days last_7 = 7
preset_days last_14 = 14
preset_days last_30 = 30
preset_days last_90 = 90
preset_days custom = 14

abbrev pub day_ms : ℕ
day_ms = 86400000

abbrev pub half_day_ms : ℕ
half_day_ms = 43200000

abbrev pub min_days : ℕ → ℕ
min_days days = if ltb 90 days then 90 else days

-- The count of days from one midnight to another, clamped. A negative difference rounds to 0 or
-- less, so that one day comes out, as it does for 0.
unfoldable pub clamped_days : ℕ → ℕ → ℕ
clamped_days from to = max 1 (min_days ((to - from + half_day_ms) / day_ms + 1))

-- What the browser knows of days: the time of `new Date` at the midnight of a picked date, if it
-- is one, the ends of the day that a time falls on, and the text of a time.
pub record Calendar : Type 0 where
  pub midnight : String → Option ℕ
  pub start_of_day : ℕ → ℕ
  pub end_of_day : ℕ → ℕ
  pub to_iso : ℕ → String

-- The state of `useTimeRangeParams`: the time that it keeps, and what `useMemo` keeps.
pub record TimeRangeHook : Type 0 where
  pub now_ms : ℕ
  pub memo_deps : TimeRangeState
  pub memo_value : Option TimeRangeApiParams

abbrev pub same_deps : TimeRangeState → TimeRangeState → Bool
same_deps a b =
    range_text a.range == range_text b.range
    && (a.custom_from == b.custom_from && a.custom_to == b.custom_to)

module _ (cal : Calendar) where
  abbrev pub start_of_day_iso : ℕ → String
  start_of_day_iso date = cal.to_iso (cal.start_of_day date)

  abbrev pub end_of_day_iso : ℕ → String
  end_of_day_iso date = cal.to_iso (cal.end_of_day date)

  unfoldable pub custom_params : Option ℕ → Option ℕ → Option TimeRangeApiParams
  unfolding clamped_days
  custom_params none to = none
  custom_params (some from) none = none
  custom_params (some from) (some to) = some (record {
    from = some (start_of_day_iso from);
    to = some (end_of_day_iso to);
    days = clamped_days from to;
  })

  unfoldable pub preset_params : ℕ → ℕ → Option TimeRangeApiParams
  preset_params days now_ms =
      let back = (days - 1) * day_ms in
      let params : TimeRangeApiParams = record {
        from = some (start_of_day_iso (now_ms - back));
        to = some (cal.to_iso now_ms);
        days = days;
      } in
      if ltb now_ms back then none else some params

  unfoldable pub time_range_to_api_params : TimeRangeState → ℕ → Option TimeRangeApiParams
  unfolding custom_params preset_params
  time_range_to_api_params state now_ms =
      if is_custom state.range && has_dates state
      then custom_params (cal.midnight state.custom_from) (cal.midnight state.custom_to)
      else preset_params (preset_days state.range) now_ms

  -- The first render, at a time, and a later one.
  unfoldable pub first_render : TimeRangeState → ℕ → TimeRangeHook
  unfolding time_range_to_api_params
  first_render state now_ms = record {
    now_ms = now_ms;
    memo_deps = state;
    memo_value = time_range_to_api_params state now_ms;
  }

  unfoldable pub render_again : TimeRangeState → TimeRangeHook → TimeRangeHook
  unfolding time_range_to_api_params
  render_again state hook = if same_deps state hook.memo_deps then hook else record hook {
    memo_deps = state;
    memo_value = time_range_to_api_params state hook.now_ms;
  }

  unfoldable pub use_time_range_params : List TimeRangeState → TimeRangeHook → TimeRangeHook
  unfolding render_again
  use_time_range_params states hook = for_each render_again states hook

-- The label of the range; `t` is the translation.
unfoldable pub time_range_label :
    TimeRangeState → (String → List (String × String) → String) → String
time_range_label state t =
    if is_custom state.range && has_dates state
    then (if state.custom_from == state.custom_to
        then state.custom_from
        else t "shared.timeRange.rangeText"
            (("from", state.custom_from) ∷ ("to", state.custom_to) ∷ []))
    else (let preset = if is_custom state.range then default_time_range else state.range in
        t ("shared.timeRange.preset_" <> range_text preset) [])
