-- ===== src/Cmd/Emitter/Cutoff.antt =====
-- The two events of a cutoff.
use outage.Base.{
  true, false, some, [], ◌∷◌, ◌++◌, length, ◌==◌, Text, ◌≡◌, refl, ap, ◌∙◌, arith, inl, inr,
  Option-cases, ◌||◌,
}
use outage.Time.{Time}
use outage.Cmd.Emitter.Steps.{line_of, line_of-none, line_of-some, take-length}
use outage.Cmd.Emitter.{
  Answers, Printer, EventEmitter, emit_record, write_line, write_event, with_sent, fresh,
  emit_cutoff_events, condition_triggered, stream_cutoff,
}

-- The descriptor takes every line.
abbrev pub IsTaking : Answers → Type 0
IsTaking answers =
    (line : Text) → write_event answers line ≡ record { count = length line; failed = false }

write_line_taking :
    (answers : Answers) (line : Text) (emitter : EventEmitter)
    → IsTaking answers
    → write_line answers line emitter ≡ with_sent line emitter
unfolding write_line
write_line_taking answers line emitter h =
    let same : (length line == length line) ≡ true = ground arith in
    rw (h line) (rw same (ap (λ bytes. with_sent bytes emitter) (take-length line)))

emit_record_taking :
    (printer : Printer) (event : Text) (now : Time) (answers : Answers) (emitter : EventEmitter)
    {line : Text}
    → (emitter.disabled || emitter.closed) ≡ false
    → IsTaking answers
    → line_of printer event now ≡ some line
    → emit_record printer answers
        (record { event = event; timestamp = printer.format_nano now })
        emitter
      ≡ with_sent line emitter
unfolding emit_record
emit_record_taking printer event now answers emitter {line} h taking e =
    elim (Option-cases
      (printer.marshal (record { event = event; timestamp = printer.format_nano now }))) [
        | inl n ↦ let none_line = line_of-none printer event now n in cc
        | inr (l, q) ↦
            let some_line = line_of-some printer event now q in
            let same : l ++ b'\n' ∷ [] ≡ line = cc in
            rw (h, q)
              (write_line_taking answers (l ++ b'\n' ∷ []) emitter taking
                ∙ ap (λ bytes. with_sent bytes emitter) same)
      ]

-- On a descriptor that takes every line, a cutoff sends the line of condition-triggered and then that of
-- stream-cutoff, and the emitter is neither disabled nor has it warned.
pub emit_cutoff_events_taking :
    (printer : Printer) (now : Time) (answers : Answers) (now' : Time) (answers' : Answers)
    {line line' : Text}
    → IsTaking answers
    → IsTaking answers'
    → line_of printer condition_triggered now ≡ some line
    → line_of printer stream_cutoff now' ≡ some line'
    → emit_cutoff_events printer now answers now' answers' (some fresh)
      ≡ some (record { disabled = false; closed = false; sent = line ++ line'; warnings = 0 })
unfolding emit_cutoff_events
emit_cutoff_events_taking printer now answers now' answers' {line} taking taking' e e' =
    rw (emit_record_taking printer condition_triggered now answers fresh refl taking e) (
      ap some (
        emit_record_taking printer stream_cutoff now' answers' (with_sent line fresh) refl taking'
          e'))
