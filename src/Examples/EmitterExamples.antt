-- ===== src/Examples/EmitterExamples.antt =====
-- cmd/outage/events.go with a descriptor that takes whole lines, and with one that takes half a line.
use outage.Base.{true, false, some, List, [], ◌∷◌, ◌++◌, length, codes, ◌≡◌, refl, if◌then◌else◌}
use outage.Base.Int.{pos}
use outage.Cmd.Emitter.Cutoff.{IsTaking, emit_cutoff_events_taking}
use outage.Cmd.Descriptor.{validate_event_pipe_mode}
use outage.Cmd.Emitter.Delivered.{
  Operation, emitting, closing, operate_all, Delivered, operate_all-Delivered,
}
use outage.Cmd.Emitter.{
  Answers, EventEmitter, Printer, LifecycleEventRecord, condition_triggered, stream_cutoff, close,
  emit_cutoff_events, emit_record, fresh, on_unix, on_windows, write_event_unix,
  write_event_windows, write_event, write_line,
}

-- A printer that leaves out the timestamp.
abbrev pub printer : Printer
printer = record {
  marshal = λ (r : LifecycleEventRecord). some (codes "{" ++ r.event ++ codes "}");
  format_nano = λ _. [];
}

abbrev pub takes_all : Answers
takes_all = record {
  platform = on_unix;
  syscall_conn_failed = false;
  control_failed = false;
  no_wait = some true;
  write = λ line. record { count = length line; failed = false };
}

abbrev takes_three : Answers
takes_three = record {
  platform = on_windows;
  syscall_conn_failed = false;
  control_failed = false;
  no_wait = some true;
  write = λ _. record { count = 3; failed = false };
}

takes_all-IsTaking : IsTaking takes_all
unfolding write_event write_event_unix
takes_all-IsTaking line = refl

emit_cutoff_events_taking_example :
    emit_cutoff_events printer (pos 1) takes_all (pos 2) takes_all (some fresh)
    ≡ some (record {
      disabled = false;
      closed = false;
      sent = codes "{condition-triggered}\n{stream-cutoff}\n";
      warnings = 0;
    })
emit_cutoff_events_taking_example =
    emit_cutoff_events_taking printer (pos 1) takes_all (pos 2) takes_all
      {line = codes "{condition-triggered}\n"} {line' = codes "{stream-cutoff}\n"}
      takes_all-IsTaking takes_all-IsTaking refl refl

abbrev operations : List Operation
operations =
    emitting condition_triggered (pos 1) takes_all
    ∷ emitting stream_cutoff (pos 2) takes_three
    ∷ emitting stream_cutoff (pos 3) takes_all
    ∷ closing
    ∷ []

operations_run :
    operate_all printer operations (some fresh)
    ≡ some (record {
      disabled = true;
      closed = true;
      sent = codes "{condition-triggered}\n{st";
      warnings = 1;
    })
unfolding emit_record write_line write_event write_event_unix write_event_windows
    validate_event_pipe_mode close
operations_run = refl

operate_all-Delivered_example :
    (final : EventEmitter) × (operate_all printer operations (some fresh) ≡ some final)
    × Delivered printer operations final.sent final.disabled
    × (final.warnings ≡ (if final.disabled then 1 else 0))
operate_all-Delivered_example = operate_all-Delivered printer operations
