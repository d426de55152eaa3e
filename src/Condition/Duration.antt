-- ===== src/Condition/Duration.antt =====
-- internal/condition/duration.go
pub mod Elapsed
use outage.Base.{Bool, true, false, Option, none, some, List, [], ◌∷◌, ◌++◌, if◌then◌else◌, Text}
use outage.Base.Int.{ℤ, pos, ◌-ℤ◌, leb_ℤ}
use outage.Time.{Time, Duration, sub_time, wrap_int64}
use outage.Condition.Monitor.{
  Action, started, Wake, fired, timer_closed, cancelled, leaf_event, publish_if, stop_if,
}
use outage.Condition.Runtime.{Timer}

-- What a run meets: the three readings of its clock, the timer that newTimer returns, what the select
-- on the timer receives, and whether the event is sent.
pub record Surroundings : Type 0 where
  pub first_now : Time
  pub second_now : Time
  pub event_now : Time
  pub timer : Timer
  pub wake : Wake
  pub delivers : Bool

pub record DurationCondition : Type 0 where
  pub id : Text
  pub duration : Duration
  -- runtime.startTime, if runtime.hasStartTime
  pub start_time : Option Time

abbrev pub start_of : Option Time → Time → Time
start_of none now = now
start_of (some t) now = t

abbrev pub elapsed_of : DurationCondition → Surroundings → Duration
elapsed_of condition env = sub_time env.second_now (start_of condition.start_time env.first_now)

-- The wait that is left.
unfoldable pub wait_of : DurationCondition → Surroundings → Duration
wait_of condition env =
    if leb_ℤ condition.duration (elapsed_of condition env)
    then pos 0
    else wrap_int64 (condition.duration -ℤ elapsed_of condition env)

-- The select of the goroutine.
abbrev pub on_wake : Text → Bool → Wake → List Action
on_wake id delivers (fired t) = publish_if delivers (leaf_event id t)
on_wake id delivers timer_closed = []
on_wake id delivers cancelled = []

-- The event at once.
abbrev pub immediate : Text → Surroundings → List Action
immediate id env = publish_if env.delivers (leaf_event id env.event_now)

-- run of durationCondition
unfoldable pub run : DurationCondition → Surroundings → List Action
run condition env =
    let wait = wait_of condition env in
    if leb_ℤ wait (pos 0)
    then immediate condition.id env
    else if env.timer.has_channel
    then started env.timer wait ∷ on_wake condition.id env.delivers env.wake
      ++ stop_if env.timer.has_stop
    else started env.timer wait ∷ stop_if env.timer.has_stop ++ immediate condition.id env
