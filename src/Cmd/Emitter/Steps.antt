-- ===== src/Cmd/Emitter/Steps.antt =====
-- One event of an emitter: its line is written whole, in part or not at all.
use outage.Base.{
  ℕ, suc, true, false, not, ◌||◌, Option, none, some, List, [], ◌∷◌, ◌++◌, length, take, ◌==◌, Text,
  ◌≡◌, ◌⊎◌, refl, ap, ◌∙◌, subst, inl, inr, arith, Bool-cases, Option-cases,
}
use mathlib.Core.List.{append-nil}
use outage.Time.{Time}
use outage.Cmd.Emitter.{
  Answers, Printer, EventEmitter, LifecycleEventRecord, emit_record, close, write_line, write_event,
  disable, with_sent,
}

-- The line of an event, if it is marshalled.
abbrev pub line_of : Printer → Text → Time → Option Text
line_of printer event now =
    elim (printer.marshal (record { event = event; timestamp = printer.format_nano now })) [
      | none ↦ none
      | some line ↦ some (line ++ b'\n' ∷ [])
    ]

pub close-closed :
    (emitter : EventEmitter)
    → (r : EventEmitter) × (close (some emitter) ≡ some r)
      × (r.closed ≡ true)
      × (r.sent ≡ emitter.sent)
      × (r.disabled ≡ emitter.disabled)
      × (r.warnings ≡ emitter.warnings)
unfolding close
close-closed emitter = elim (Bool-cases emitter.closed) [
  | inl c ↦ (emitter, rw c refl, c, refl, refl, refl)
  | inr c ↦ (_, rw c refl, refl, refl, refl, refl)
]

pub take-length : {A : Type 0} (xs : List A) → take (length xs) xs ≡ xs
take-length [] = refl
take-length (x ∷ xs) = ap (λ r. x ∷ r) (take-length xs)

write_line-cases :
    (answers : Answers) (line : Text) (emitter : EventEmitter)
    → (write_line answers line emitter ≡ with_sent line emitter)
      ⊎ (n : ℕ) × (write_line answers line emitter ≡ disable (with_sent (take n line) emitter))
unfolding write_line
write_line-cases answers line emitter =
    let w = write_event answers line in
    elim (Bool-cases (w.failed || not (w.count == length line))) [
      | inl t ↦ inr (w.count, rw t refl)
      | inr f ↦
          let e : w.count ≡ length line = ground arith in
          inl (rw f (ap (λ xs. with_sent xs emitter) (ap (λ n. take n line) e ∙ take-length line)))
    ]

-- What an emitter does with the first event, when it is neither disabled nor closed.
pub data First (printer : Printer) (event : Text) (now : Time) (emitter : EventEmitter)
    : EventEmitter → Type 0 where
  wrote :
      {line : Text}
      → line_of printer event now ≡ some line
      → First printer event now emitter (with_sent line emitter)
  broke :
      {line : Text} (n : ℕ)
      → line_of printer event now ≡ some line
      → First printer event now emitter (disable (with_sent (take n line) emitter))
  lost :
      line_of printer event now ≡ none
      → First printer event now emitter (disable (with_sent [] emitter))

abbrev record_at : Printer → Text → Time → LifecycleEventRecord
record_at printer event now = record { event = event; timestamp = printer.format_nano now }

disable-nil : (emitter : EventEmitter) → disable (with_sent [] emitter) ≡ disable emitter
disable-nil emitter =
    ap
      (λ (bytes : Text). record {
        disabled = true;
        closed = emitter.closed;
        sent = bytes;
        warnings = suc emitter.warnings;
      })
      (append-nil emitter.sent)

module _ (printer : Printer) (event : Text) (now : Time) where
  pub line_of-none :
      printer.marshal (record_at printer event now) ≡ none → line_of printer event now ≡ none
  line_of-none e = rw (line_of, e) refl

  pub line_of-some :
      {line : Text}
      → printer.marshal (record_at printer event now) ≡ some line
      → line_of printer event now ≡ some (line ++ b'\n' ∷ [])
  line_of-some e = rw (line_of, e) refl

pub emit_record-First :
    (printer : Printer) (event : Text) (now : Time) (answers : Answers) (emitter : EventEmitter)
    → (emitter.disabled || emitter.closed) ≡ false
    → First printer event now emitter
        (emit_record printer answers (record_at printer event now) emitter)
unfolding emit_record
emit_record-First printer event now answers emitter h =
    elim (Option-cases (printer.marshal (record_at printer event now))) [
      | inl n ↦
          rw (h, n)
            (subst (First printer event now emitter) (disable-nil emitter)
              (lost (line_of-none printer event now n)))
      | inr (line, e) ↦
          let at = line_of-some printer event now e in
          elim (write_line-cases answers (line ++ b'\n' ∷ []) emitter) [
            | inl q ↦ rw (h, e) (rw q (wrote at))
            | inr (k, q) ↦ rw (h, e) (rw q (broke k at))
          ]
    ]
