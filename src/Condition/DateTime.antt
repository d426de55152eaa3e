-- ===== src/Condition/DateTime.antt =====
-- internal/condition/datetime.go
pub mod Course
pub mod Released
pub mod Reached
pub mod Rearmed
use outage.Base.{Bool, true, false, not, List, [], ◌∷◌, ◌++◌, if◌then◌else◌, Text}
use outage.Base.Int.{ℤ, pos, ltb_ℤ, leb_ℤ, eqb_ℤ}
use outage.Time.{Time, Duration, sub_time, add_time}
use outage.Condition.Monitor.{
  Action, started, Wake, fired, timer_closed, cancelled, leaf_event, publish_if, stop_if,
}
use outage.Condition.Runtime.{Timer}

-- One select of emitDeadline: what it receives, what the clock shows then, the timer that newTimer
-- returns if the run arms it again, and whether the event is sent.
pub record Round : Type 0 where
  pub wake : Wake
  pub now : Time
  pub timer : Timer
  pub delivers : Bool

-- What a run meets: the readings of its clock, the first timer, whether an event at once is sent, and
-- the rounds up to a cancellation.
pub record Surroundings : Type 0 where
  pub first_now : Time
  pub second_now : Time
  pub event_now : Time
  pub timer : Timer
  pub delivers : Bool
  pub rounds : List Round

pub record DateTimeCondition : Type 0 where
  pub id : Text
  pub deadline : Time

-- A wait that Time.Sub has cut short.
abbrev pub is_capped : Time → Duration → Time → Bool
is_capped current wait deadline = not (eqb_ℤ (add_time current wait) deadline)

-- What follows a select of emitDeadline; `rest` is the loop with the new timer.
abbrev pub after_wake : Text → Time → Bool → Bool → Round → List Action → Wake → List Action
after_wake id deadline capped has_stop r rest (fired t) =
    let wait = sub_time deadline r.now in
    if not capped
    then publish_if r.delivers (leaf_event id t) ++ stop_if has_stop
    else if leb_ℤ wait (pos 0)
    then publish_if r.delivers (leaf_event id t) ++ stop_if has_stop
    else stop_if has_stop
      ++ started r.timer wait ∷ (if r.timer.has_channel then rest else stop_if r.timer.has_stop)
after_wake id deadline capped has_stop r rest timer_closed = stop_if has_stop
after_wake id deadline capped has_stop r rest cancelled = stop_if has_stop

-- emitDeadline, with whether stopTimer is set.
unfoldable pub emit_deadline : Text → Time → Bool → Bool → List Round → List Action
emit_deadline id deadline capped has_stop [] = stop_if has_stop
emit_deadline id deadline capped has_stop (r ∷ rounds) =
    let rearmed = is_capped r.now (sub_time deadline r.now) deadline in
    after_wake id deadline capped has_stop r
      (emit_deadline id deadline rearmed r.timer.has_stop rounds) r.wake

-- The event at once.
abbrev pub immediate : DateTimeCondition → Surroundings → List Action
immediate condition env = publish_if env.delivers (leaf_event condition.id env.event_now)

-- run of dateTimeCondition
unfoldable pub run : DateTimeCondition → Surroundings → List Action
run condition env =
    let deadline = condition.deadline in
    let wait = sub_time deadline env.second_now in
    if not (ltb_ℤ env.first_now deadline)
    then immediate condition env
    else if not (ltb_ℤ (pos 0) wait)
    then immediate condition env
    else if env.timer.has_channel
    then started env.timer wait
      ∷ emit_deadline condition.id deadline (is_capped env.second_now wait deadline)
          env.timer.has_stop env.rounds
    else started env.timer wait ∷ stop_if env.timer.has_stop ++ immediate condition env
