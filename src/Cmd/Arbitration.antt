-- ===== src/Cmd/Arbitration.antt =====
-- waitForCopyOrCondition and handleConditionEvent of cmd/outage/main.go.
pub mod Priority
use outage.Base.{ℕ, Bool, true, false, Option, none, some, List, [], ◌∷◌, Text}
use outage.Time.{Time}
use outage.Cmd.Emitter.{Answers, EventEmitter, Printer, emit_cutoff_events}

-- What io.Copy returned: no error, or one with a text.
abbrev pub CopyResult : Type 0
CopyResult = Option Text

abbrev pub exit_ok : ℕ
exit_ok = 0

abbrev pub exit_copy_error : ℕ
exit_copy_error = 1

-- The exit code, the diagnostic of a copy that failed, and the emitter.
pub record Exit : Type 0 where
  pub code : ℕ
  pub copy_error : Option Text
  pub emitter : Option EventEmitter

-- The two channels: the result that copyDone holds at the first select, when the second one wakes,
-- and after an event was received; whether `events` is ready when it wakes, with the `ok` of the
-- receive; and which channel the select takes when both are ready.
pub record Channels : Type 0 where
  pub copy_at_start : Option CopyResult
  pub copy_at_wake : Option CopyResult
  pub events_at_wake : Option Bool
  pub takes_events : Bool
  pub copy_after_event : Option CopyResult

-- The clock and the descriptor at the two events of a cutoff.
pub record Cutoff : Type 0 where
  pub printer : Printer
  pub first_time : Time
  pub first_answers : Answers
  pub second_time : Time
  pub second_answers : Answers

abbrev pub cut_off : Cutoff → Option EventEmitter → Option EventEmitter
cut_off c emitter =
    emit_cutoff_events c.printer c.first_time c.first_answers c.second_time c.second_answers emitter

-- The body of each `case err := <-copyDone`.
abbrev pub copy_exit : CopyResult → Option EventEmitter → Exit
copy_exit none emitter = record { code = exit_ok; copy_error = none; emitter = emitter }
copy_exit (some e) emitter = record {
  code = exit_copy_error;
  copy_error = some e;
  emitter = emitter;
}

abbrev pub ok_exit : Option EventEmitter → Exit
ok_exit emitter = record { code = exit_ok; copy_error = none; emitter = emitter }

-- What a select on both channels receives; `none` is a select that blocks.
pub data Received : Type 0 where
  event : Bool → Received
  copied : CopyResult → Received

abbrev pub select : Option CopyResult → Option Bool → Bool → Option Received
select none none takes_events = none
select none (some is_open) takes_events = some (event is_open)
select (some result) none takes_events = some (copied result)
select (some result) (some is_open) true = some (event is_open)
select (some result) (some is_open) false = some (copied result)

abbrev pub wake : Channels → Option Received
wake channels = select channels.copy_at_wake channels.events_at_wake channels.takes_events

-- handleConditionEvent
unfoldable pub handle_condition_event :
    Bool → Option CopyResult → Cutoff → Option EventEmitter → Exit
handle_condition_event is_open (some result) cutoff emitter = copy_exit result emitter
handle_condition_event false none cutoff emitter = ok_exit emitter
handle_condition_event true none cutoff emitter = ok_exit (cut_off cutoff emitter)

-- The select without events, in which both values of `ok` exit the same way.
abbrev pub exit_disabled : Received → Exit
exit_disabled (event is_open) = ok_exit none
exit_disabled (copied result) = copy_exit result none

abbrev pub exit_enabled : Channels → Cutoff → EventEmitter → Received → Exit
exit_enabled channels cutoff emitter (event is_open) =
    handle_condition_event is_open channels.copy_after_event cutoff (some emitter)
exit_enabled channels cutoff emitter (copied result) = copy_exit result (some emitter)

abbrev pub when_received : (Received → Exit) → Option Received → Option Exit
when_received f none = none
when_received f (some received) = some (f received)

-- The second select, unless the first has found a result.
abbrev pub after_start : Option CopyResult → Channels → Cutoff → EventEmitter → Option Exit
after_start (some result) channels cutoff emitter = some (copy_exit result (some emitter))
after_start none channels cutoff emitter =
    when_received (exit_enabled channels cutoff emitter) (wake channels)

-- waitForCopyOrCondition; `none` is a wait without end.
unfoldable pub wait_for_copy_or_condition : Channels → Cutoff → Option EventEmitter → Option Exit
wait_for_copy_or_condition channels cutoff none = when_received exit_disabled (wake channels)
wait_for_copy_or_condition channels cutoff (some emitter) =
    after_start channels.copy_at_start channels cutoff emitter
