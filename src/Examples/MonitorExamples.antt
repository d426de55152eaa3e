-- ===== src/Examples/MonitorExamples.antt =====
-- internal/condition's monitors at concrete surroundings.
use outage.Base.{
  ℕ, Option, Bool, true, false, none, some, List, [], ◌∷◌, All, codes, ◌≡◌, refl, arith,
}
use outage.Base.Int.{pos, negsuc, ◌+ℤ◌, ◌-ℤ◌}
use outage.Time.{Time, sub_time, wrap_int64}
use outage.Cli.Conditions.{sigusr1}
use outage.Condition.Events.{continuous}
use outage.Condition.Monitor.{fired, started, stopped, published, leaf_event, events_of, releases}
use outage.Condition.Runtime.{Process, RuntimeClock, Timer, new_runtime, no_option, with_runtime}
use outage.Condition.Runtime.Normal.{IsNormal, new_runtime-IsNormal}
use outage.Condition.Duration
use outage.Condition.Duration.{DurationCondition, wait_of}
use outage.Condition.Duration.Elapsed.{IsTimely, IsElapsed, run-IsElapsed}
use outage.Condition.Duration.Elapsed
use outage.Condition.DateTime
use outage.Condition.DateTime.{DateTimeCondition, Round, emit_deadline}
use outage.Condition.DateTime.Released
use outage.Condition.DateTime.Reached.{run_early}
use outage.Condition.DateTime.Rearmed
use outage.Condition.File
use outage.Condition.File.{Observation, poll}
use outage.Condition.File.Rises.{run-rises}
use outage.Condition.Signal
use outage.Condition.Signal.{Receive}
use outage.Condition.Signal.Received.{run-signals}

abbrev timer : Timer
timer = record { has_channel = true; has_stop = true }

abbrev process : Process
process = record { now = λ k. pos k; new_timer = λ k d. timer }

new_runtime-IsNormal_example : IsNormal (
    new_runtime process (
      no_option
      ∷ with_runtime (record { now = none; new_timer = none; poll_interval = negsuc 4 })
      ∷ []))
new_runtime-IsNormal_example = new_runtime-IsNormal process (
    no_option
    ∷ with_runtime (record { now = none; new_timer = none; poll_interval = negsuc 4 })
    ∷ [])

abbrev no_clock : RuntimeClock
no_clock = record { now = none; location = none; new_timer = none }

-- Ten seconds, of which four have gone at the second reading.
abbrev ten_seconds : DurationCondition
ten_seconds = record {
  id = codes "duration:10s";
  duration = pos 10_000_000_000;
  start_time = some (pos 5_000_000_000);
}

abbrev six_left : Duration.Surroundings
six_left = record {
  first_now = pos 8_000_000_000;
  second_now = pos 9_000_000_000;
  event_now = pos 9_000_000_000;
  timer = timer;
  wake = fired (pos 15_000_000_001);
  delivers = true;
}

ten_seconds-run :
    Duration.run ten_seconds six_left
    ≡ started timer (pos 6_000_000_000)
      ∷ published (leaf_event (codes "duration:10s") (pos 15_000_000_001))
      ∷ stopped
      ∷ []
unfolding Duration.run wait_of sub_time wrap_int64 ◌-ℤ◌
ten_seconds-run = refl

run-releases_duration_example : releases false (Duration.run ten_seconds six_left) ≡ true
run-releases_duration_example = Elapsed.run-releases ten_seconds six_left

six_left-IsTimely : IsTimely ten_seconds six_left
unfolding wait_of sub_time wrap_int64 ◌-ℤ◌ ◌+ℤ◌
six_left-IsTimely = record {
  from = omega arith;
  to = omega arith;
  since_start = omega arith;
  forward = omega arith;
  channel = refl;
  timer_waits = λ t e. ground arith;
}

run-IsElapsed_example :
    All (IsElapsed ten_seconds six_left) (events_of (Duration.run ten_seconds six_left))
run-IsElapsed_example = run-IsElapsed ten_seconds six_left six_left-IsTimely

run_emits_one_example :
    (at : Time) × (events_of (Duration.run ten_seconds six_left)
      ≡ leaf_event (codes "duration:10s") at ∷ [])
run_emits_one_example =
    Elapsed.run_emits_one ten_seconds six_left {t = pos 15_000_000_001} refl refl

-- A deadline two of the longest durations away: the first timer is cut short.
abbrev far : DateTimeCondition
far = record { id = codes "datetime:9999-01-01T00:00"; deadline = pos 18_446_744_073_709_551_614 }

abbrev first_round : Round
first_round = record {
  wake = fired (pos 9_223_372_036_854_775_807);
  now = pos 9_223_372_036_854_775_808;
  timer = timer;
  delivers = true;
}

abbrev second_round : Round
second_round = record {
  wake = fired (pos 18_446_744_073_709_551_614);
  now = pos 18_446_744_073_709_551_615;
  timer = timer;
  delivers = true;
}

abbrev waiting : List Round → DateTime.Surroundings
waiting rounds = record {
  first_now = pos 0;
  second_now = pos 0;
  event_now = pos 0;
  timer = timer;
  delivers = true;
  rounds = rounds;
}

far-run :
    DateTime.run far (waiting (first_round ∷ second_round ∷ []))
    ≡ started timer (pos 9_223_372_036_854_775_807)
      ∷ stopped
      ∷ started timer (pos 9_223_372_036_854_775_806)
      ∷ published (leaf_event far.id (pos 18_446_744_073_709_551_614))
      ∷ stopped
      ∷ []
unfolding DateTime.run emit_deadline sub_time ◌-ℤ◌ ◌+ℤ◌
far-run = refl

run-releases_all_example :
    releases false (DateTime.run far (waiting (first_round ∷ second_round ∷ []))) ≡ true
run-releases_all_example = Released.run-releases_all far (waiting (first_round ∷ second_round ∷ []))

run_early_example : events_of (DateTime.run far (waiting (first_round ∷ []))) ≡ []
unfolding sub_time ◌-ℤ◌ ◌+ℤ◌
run_early_example =
    run_early far (waiting (first_round ∷ [])) (omega arith) (omega arith) refl
      ((λ t e. omega arith), tt) (omega arith, tt)

run_emits_in_time_example :
    (at : Time) × (events_of (DateTime.run far (waiting (first_round ∷ second_round ∷ [])))
      ≡ leaf_event far.id at ∷ [])
unfolding sub_time ◌-ℤ◌ ◌+ℤ◌
run_emits_in_time_example =
    Rearmed.run_emits_in_time far (waiting (first_round ∷ second_round ∷ [])) refl refl
      (omega arith) ((λ t e. omega arith), ((λ t e. omega arith), tt))
      (
        record { at = pos 9_223_372_036_854_775_807; wake = refl; delivers = refl; channel = refl },
        (
          record {
            at = pos 18_446_744_073_709_551_614;
            wake = refl;
            delivers = refl;
            channel = refl;
          },
          tt,
        ),
      )

abbrev seen : Option Bool → ℕ → Observation
seen stat at = record { stat = stat; now = pos at; delivers = true }

-- The file is there, is replaced by a directory, and comes again.
run-rises_example :
    File.run
      (codes "file:stop")
      continuous
      (seen (some true) 1)
      (seen (some true) 2 ∷ seen (some false) 3 ∷ seen none 4 ∷ seen (some true) 5 ∷ [])
    ≡ leaf_event (codes "file:stop") (pos 1) ∷ leaf_event (codes "file:stop") (pos 5) ∷ []
run-rises_example =
    run-rises (codes "file:stop") continuous (seen (some true) 1)
      (seen (some true) 2 ∷ seen (some false) 3 ∷ seen none 4 ∷ seen (some true) 5 ∷ [])
      (refl, (refl, (refl, (refl, (refl, tt)))))

abbrev receive : Bool → ℕ → Receive
receive is_open at = record { is_open = is_open; now = pos at; delivers = true }

run-signals_example :
    Signal.run
      (codes "signal:USR1")
      (some sigusr1)
      continuous
      (receive true 1 ∷ receive true 2 ∷ receive false 3 ∷ [])
    ≡ leaf_event (codes "signal:USR1") (pos 1) ∷ leaf_event (codes "signal:USR1") (pos 2) ∷ []
run-signals_example =
    run-signals (codes "signal:USR1") (some sigusr1) continuous
      (receive true 1 ∷ receive true 2 ∷ receive false 3 ∷ []) (refl, (refl, (refl, tt)))
