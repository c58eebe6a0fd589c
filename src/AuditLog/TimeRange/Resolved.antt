-- ===== src/AuditLog/TimeRange/Resolved.antt =====
-- The time range as the queries see it: an inactive one, and one that is rendered again and again.
use mystic_auth.Prelude.{
  ℕ, String, true, false, ◌≡◌, refl, sym, ap, ◌∙◌, List, [], ◌∷◌, ◌==◌, String_eq, ==_iff,
  Bool-cases, inl, inr, if◌then◌else◌, arith,
}
use mystic_auth.AuditLog.TimeRange.{
  TimeRangeState, TimeRangeValue, last_7, last_14, last_30, last_90, custom, Calendar, range_text,
  is_time_range_active, default_time_range_state, time_range_to_api_params, TimeRangeHook,
  same_deps, first_render, render_again, use_time_range_params, time_range_label,
}

inactive_default :
    (cal : Calendar) (range : TimeRangeValue) (from to : String) (now_ms : ℕ)
    (t : String → List (String × String) → String)
    → let state : TimeRangeState = record { range = range; custom_from = from; custom_to = to } in
      is_time_range_active state ≡ false
      → (time_range_to_api_params cal state now_ms
          ≡ time_range_to_api_params cal default_time_range_state now_ms)
        × (time_range_label state t ≡ time_range_label default_time_range_state t)
unfolding is_time_range_active time_range_to_api_params time_range_label
inactive_default cal last_7 from to now_ms t h = cc
inactive_default cal last_14 from to now_ms t h = (refl, refl)
inactive_default cal last_30 from to now_ms t h = cc
inactive_default cal last_90 from to now_ms t h = cc
inactive_default cal custom from to now_ms t h = rw h (refl, refl)

-- A time range whose filter does not count as active asks for what the default does and has its
-- label.
pub is_time_range_active-default :
    (cal : Calendar) (state : TimeRangeState) (now_ms : ℕ)
    (t : String → List (String × String) → String)
    → is_time_range_active state ≡ false
    → (time_range_to_api_params cal state now_ms
        ≡ time_range_to_api_params cal default_time_range_state now_ms)
      × (time_range_label state t ≡ time_range_label default_time_range_state t)
is_time_range_active-default cal state now_ms t h =
    inactive_default cal state.range state.custom_from state.custom_to now_ms t h

abbrev text_range : String → TimeRangeValue
text_range text =
    if text == "7"
    then last_7
    else (if text == "14"
        then last_14
        else (if text == "30" then last_30 else (if text == "90" then last_90 else custom)))

text_range-range_text : (range : TimeRangeValue) → text_range (range_text range) ≡ range
text_range-range_text last_7 = refl
text_range-range_text last_14 = refl
text_range-range_text last_30 = refl
text_range-range_text last_90 = refl
text_range-range_text custom = refl

range_text-injective : (a b : TimeRangeValue) → range_text a ≡ range_text b → a ≡ b
range_text-injective a b e =
    sym (text_range-range_text a) ∙ (ap text_range e ∙ text_range-range_text b)

same_deps-eq : (a b : TimeRangeState) → same_deps a b ≡ true → a ≡ b
same_deps-eq a b h =
    let range =
      range_text-injective a.range b.range
        ((==_iff (range_text a.range) (range_text b.range)).0 (ground arith)) in
    let from = (==_iff a.custom_from b.custom_from).0 (ground arith) in
    let to = (==_iff a.custom_to b.custom_to).0 (ground arith) in
    λ i. record { range = range i; custom_from = from i; custom_to = to i }

module _ (cal : Calendar) (mounted_ms : ℕ) where
  -- What `useMemo` keeps is up to date, with the time of the mount.
  record IsFresh (hook : TimeRangeHook) : Type 0 where
    kept_ms : hook.now_ms ≡ mounted_ms
    kept_value : hook.memo_value ≡ time_range_to_api_params cal hook.memo_deps mounted_ms

  render_again-IsFresh :
      (state : TimeRangeState) (hook : TimeRangeHook)
      → IsFresh hook
      → IsFresh (render_again cal state hook) × ((render_again cal state hook).memo_deps ≡ state)
  unfolding render_again
  render_again-IsFresh state hook i = elim (Bool-cases (same_deps state hook.memo_deps)) [
    | inl e ↦ rw e (i, sym (same_deps-eq state hook.memo_deps e))
    | inr e ↦ rw e (
      record {
        kept_ms = i.kept_ms;
        kept_value = ap (time_range_to_api_params cal state) i.kept_ms;
      },
      refl,
    )
  ]

  abbrev pub last_state : TimeRangeState → List TimeRangeState → TimeRangeState
  last_state state [] = state
  last_state state (next ∷ states) = last_state next states

  renders_resolved :
      (states : List TimeRangeState) (hook : TimeRangeHook)
      → IsFresh hook
      → (use_time_range_params cal states hook).memo_value
        ≡ time_range_to_api_params cal (last_state hook.memo_deps states) mounted_ms
  unfolding use_time_range_params
  renders_resolved [] hook i = i.kept_value
  renders_resolved (state ∷ states) hook i =
      let (fresh, deps) = render_again-IsFresh state hook i in
      renders_resolved states (render_again cal state hook) fresh
      ∙ ap (λ d. time_range_to_api_params cal (last_state d states) mounted_ms) deps

  -- Through any renders, what the hook gives is the range of the last render resolved at the time of
  -- the mount: the memo changes nothing, and the same range gives the same parameters however late
  -- it is rendered.
  pub use_time_range_params-resolved :
      (state : TimeRangeState) (states : List TimeRangeState)
      → (use_time_range_params cal states (first_render cal state mounted_ms)).memo_value
        ≡ time_range_to_api_params cal (last_state state states) mounted_ms
  unfolding first_render
  use_time_range_params-resolved state states =
      renders_resolved states (first_render cal state mounted_ms)
        (record { kept_ms = refl; kept_value = refl })
