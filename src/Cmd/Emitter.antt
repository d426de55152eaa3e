-- ===== src/Cmd/Emitter.antt =====
-- cmd/outage/events.go, with writeEvent of events_fd_unix.go, events_fd_windows.go and
-- events_fd_other.go.
pub mod Cutoff
pub mod Delivered
pub mod Steps
use outage.Base.{
  ℕ, suc, ◌+◌, Bool, true, false, not, ◌||◌, Option, none, some, List, [], ◌∷◌, ◌++◌, length, take,
  ◌==◌, if◌then◌else◌, Text, codes,
}
use outage.Time.{Time}
use outage.Cmd.Descriptor.{validate_event_pipe_mode}

pub record LifecycleEventRecord : Type 0 where
  pub event : Text
  pub timestamp : Text

-- The bytes that a write took, and whether it returned an error.
pub record Written : Type 0 where
  pub count : ℕ
  pub failed : Bool

-- The three build constraints.
pub data Platform : Type 0 where
  on_unix on_windows elsewhere : Platform

-- What the system answers to one write: whether SyscallConn and Control fail, the no-wait bit of the
-- descriptor or an error, and the write itself.
pub record Answers : Type 0 where
  pub platform : Platform
  pub syscall_conn_failed : Bool
  pub control_failed : Bool
  pub no_wait : Option Bool
  pub write : Text → Written

abbrev pub refused : Written
refused = record { count = 0; failed = true }

-- writeEvent of events_fd_unix.go
unfoldable pub write_event_unix : Answers → Text → Written
write_event_unix answers line =
    if answers.syscall_conn_failed || answers.control_failed
    then refused
    else (elim answers.no_wait [
      | none ↦ refused
      | some false ↦ refused
      | some true ↦ answers.write line
    ])

-- writeEvent of events_fd_windows.go, which asks for the mode of the pipe again.
unfoldable pub write_event_windows : Answers → Text → Written
write_event_windows answers line =
    if answers.syscall_conn_failed || answers.control_failed
    then refused
    else (elim (validate_event_pipe_mode answers.no_wait) [
      | some e ↦ refused
      | none ↦ answers.write line
    ])

abbrev write_event_on : Platform → Answers → Text → Written
write_event_on on_unix answers line = write_event_unix answers line
write_event_on on_windows answers line = write_event_windows answers line
write_event_on elsewhere answers line = refused

unfoldable pub write_event : Answers → Text → Written
write_event answers line = write_event_on answers.platform answers line

-- encoding/json and the format RFC3339Nano in UTC.
pub record Printer : Type 0 where
  pub marshal : LifecycleEventRecord → Option Text
  pub format_nano : Time → Text

-- An emitter with what its descriptor has taken, and the number of warnings on stderr.
pub record EventEmitter : Type 0 where
  pub disabled : Bool
  pub closed : Bool
  pub sent : Text
  pub warnings : ℕ

-- The emitter that newEventEmitterWithClock returns.
abbrev pub fresh : EventEmitter
fresh = record { disabled = false; closed = false; sent = []; warnings = 0 }

abbrev pub disable : EventEmitter → EventEmitter
disable emitter = record {
  disabled = true;
  closed = emitter.closed;
  sent = emitter.sent;
  warnings = suc emitter.warnings;
}

abbrev pub with_sent : Text → EventEmitter → EventEmitter
with_sent bytes emitter = record {
  disabled = emitter.disabled;
  closed = emitter.closed;
  sent = emitter.sent ++ bytes;
  warnings = emitter.warnings;
}

-- The write of a line, and the comparison of the bytes written with its length.
unfoldable pub write_line : Answers → Text → EventEmitter → EventEmitter
write_line answers line emitter =
    let w = write_event answers line in
    let after = with_sent (take w.count line) emitter in
    if w.failed || not (w.count == length line) then disable after else after

-- emitRecord
unfoldable pub emit_record : Printer → Answers → LifecycleEventRecord → EventEmitter → EventEmitter
emit_record printer answers record_value emitter =
    if emitter.disabled || emitter.closed then emitter else (elim (printer.marshal record_value) [
      | none ↦ disable emitter
      | some line ↦ write_line answers (line ++ b'\n' ∷ []) emitter
    ])

-- emit, at a time; `none` is the nil emitter.
abbrev pub emit : Printer → Text → Time → Answers → Option EventEmitter → Option EventEmitter
emit printer event now answers none = none
emit printer event now answers (some emitter) = some (
    emit_record printer answers (record { event = event; timestamp = printer.format_nano now })
      emitter)

-- close
unfoldable pub close : Option EventEmitter → Option EventEmitter
close none = none
close (some emitter) =
    if emitter.closed
    then some emitter
    else some (record {
      disabled = emitter.disabled;
      closed = true;
      sent = emitter.sent;
      warnings = emitter.warnings;
    })

abbrev pub condition_triggered : Text
condition_triggered = codes "condition-triggered"

abbrev pub stream_cutoff : Text
stream_cutoff = codes "stream-cutoff"

-- emitCutoffEvents, with the time and the answers of each of its two writes.
unfoldable pub emit_cutoff_events :
    Printer → Time → Answers → Time → Answers → Option EventEmitter → Option EventEmitter
emit_cutoff_events printer now answers now' answers' emitter =
    emit printer stream_cutoff now' answers' (emit printer condition_triggered now answers emitter)
