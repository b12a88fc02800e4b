-- ===== src/Broker/ScheduleThrows.antt =====
-- src/broker/scheduler.ts: what throws in the advance of a schedule. A window that is malformed throws
-- when the walk over the windows reaches it, and an instant beyond the dates when it is written.
use xbus.Base.{
  ℕ, zero, suc, ◌+◌, Bool, true, false, not, ◌&&◌, ◌||◌, List, [], ◌∷◌, Option, none, some, String,
  ltb, is_some,
}
use xbus.Broker.Schedules.{
  Schedule, Services, QuietWindow, AdvanceMode, hhmm_to_min, in_window, in_quiet_hours, utc_minutes,
  candidate, push_past, pushed, step_of, is_exhausted,
}

unfoldable pub windows_throw : (String → String) → List (Option QuietWindow) → ℕ → Bool
windows_throw trim [] cur = false
windows_throw trim (none ∷ ws) cur = true
windows_throw trim (some w ∷ ws) cur =
    not (in_window (hhmm_to_min (trim w.start)) (hhmm_to_min (trim w.end_of)) cur)
    && windows_throw trim ws cur

unfoldable pub quiet_hours_throw : {S : Type 0} → Services S → ℕ → Option String → Bool
unfolding windows_throw
quiet_hours_throw sv now none = false
quiet_hours_throw sv now (some json) = windows_throw sv.trim (sv.windows_of json) (utc_minutes now)

-- The last instant that `Date` can write.
abbrev last_date : ℕ
last_date = 8640000000000000

abbrev is_no_date : ℕ → Bool
is_no_date ms = ltb last_date ms

-- The loop of `push_past`, which writes each candidate as a date and asks for its quiet hours.
unfoldable pub push_throws : {S : Type 0} → Services S → Option String → ℕ → ℕ → ℕ → Bool
unfolding quiet_hours_throw in_quiet_hours
push_throws sv quiet step zero next = false
push_throws sv quiet step (suc n) next =
    let rest = push_throws sv quiet step n (next + step) in
    is_no_date next || (quiet_hours_throw sv next quiet || (in_quiet_hours sv next quiet && rest))

abbrev is_no_run : Option ℕ → Bool
is_no_run none = false
is_no_run (some t) = is_no_date t

abbrev candidate_throws : {S : Type 0} → Services S → Option String → ℕ → Option ℕ → Bool
unfolding push_throws
candidate_throws sv quiet step none = false
candidate_throws sv quiet step (some t) = is_some quiet && push_throws sv quiet step 96 t

unfoldable pub advance_throws : {S : Type 0} → Services S → Schedule → ℕ → AdvanceMode → Bool
unfolding push_throws push_past is_exhausted
advance_throws sv s now mode =
    let first =
      candidate s.kind (sv.positive_number s.schedule_expr) now s.min_interval_ms (step_of s)
        mode in
    candidate_throws sv s.quiet_hours_json (step_of s) first
    || (not (is_exhausted s mode) && is_no_run (pushed sv s.quiet_hours_json (step_of s) first))
