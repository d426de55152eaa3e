-- ===== src/Cmd/Emitter/Delivered.antt =====
-- What reaches the descriptor of the lifecycle events.
use outage.Base.{
  ℕ, ◌+◌, Bool, true, false, ◌||◌, Option, none, some, List, [], ◌∷◌, ◌++◌, take, if◌then◌else◌,
  Text, ◌≡◌, refl, sym, ◌∙◌, subst, arith,
}
use mathlib.Core.List.{append-nil, append_assoc}
use outage.Time.{Time}
use outage.Cmd.Emitter.Steps.{line_of, close-closed, First, wrote, broke, lost, emit_record-First}
use outage.Cmd.Emitter.{
  Answers, Printer, EventEmitter, emit, emit_record, close, disable, with_sent, fresh,
}

-- What the program does with an emitter.
pub data Operation : Type 0 where
  emitting : Text → Time → Answers → Operation
  closing : Operation

abbrev pub operate : Printer → Operation → Option EventEmitter → Option EventEmitter
operate printer (emitting event now answers) emitter = emit printer event now answers emitter
operate printer closing emitter = close emitter

abbrev pub operate_all : Printer → List Operation → Option EventEmitter → Option EventEmitter
operate_all printer [] emitter = emitter
operate_all printer (o ∷ operations) emitter =
    operate_all printer operations (operate printer o emitter)

-- `Delivered printer operations bytes broken`: the bytes are the whole lines of the first events, up
-- to a close, or up to an event that breaks the stream, of whose line they have a first part.
pub data Delivered (printer : Printer) : List Operation → Text → Bool → Type 0 where
  done : Delivered printer [] [] false
  closed_here : {operations : List Operation} → Delivered printer (closing ∷ operations) [] false
  whole :
      {event : Text} {now : Time} {answers : Answers} {operations : List Operation}
      {line bytes : Text} {broken : Bool}
      → line_of printer event now ≡ some line
      → Delivered printer operations bytes broken
      → Delivered printer (emitting event now answers ∷ operations) (line ++ bytes) broken
  part :
      {event : Text} {now : Time} {answers : Answers} {operations : List Operation} {line : Text}
      (n : ℕ)
      → line_of printer event now ≡ some line
      → Delivered printer (emitting event now answers ∷ operations) (take n line) true
  unmarshalled :
      {event : Text} {now : Time} {answers : Answers} {operations : List Operation}
      → line_of printer event now ≡ none
      → Delivered printer (emitting event now answers ∷ operations) [] true

-- The final state of an emitter that has sent `bytes` more and is broken or not.
pub record Outcome (printer : Printer) (operations : List Operation) (emitter : EventEmitter)
    (final : Option EventEmitter) : Type 0 where
  pub result : EventEmitter
  pub bytes : Text
  pub final_result : final ≡ some result
  pub sent : result.sent ≡ emitter.sent ++ bytes
  pub delivered : Delivered printer operations bytes result.disabled
  pub warnings : result.warnings ≡ emitter.warnings + (if result.disabled then 1 else 0)

-- An emitter that is disabled or closed sends nothing more.
record Unchanged (emitter : EventEmitter) (final : Option EventEmitter) : Type 0 where
  result : EventEmitter
  final_result : final ≡ some result
  sent : result.sent ≡ emitter.sent
  disabled : result.disabled ≡ emitter.disabled
  warnings : result.warnings ≡ emitter.warnings

operate_all-Unchanged :
    (printer : Printer) (operations : List Operation) (emitter : EventEmitter)
    → (emitter.disabled || emitter.closed) ≡ true
    → Unchanged emitter (operate_all printer operations (some emitter))
operate_all-Unchanged printer [] emitter h = record {
  result = emitter;
  final_result = refl;
  sent = refl;
  disabled = refl;
  warnings = refl;
}
operate_all-Unchanged printer (emitting event now answers ∷ operations) emitter h =
    let same : emit printer event now answers (some emitter) ≡ some emitter =
      unfold emit_record in rw h refl in
    rw same (operate_all-Unchanged printer operations emitter h)
operate_all-Unchanged printer (closing ∷ operations) emitter h =
    let (r, e, c, s, d, w) = close-closed emitter in
    let u = operate_all-Unchanged printer operations r (ground arith) in
    record {
      result = u.result;
      final_result = rw e u.final_result;
      sent = u.sent ∙ s;
      disabled = u.disabled ∙ d;
      warnings = u.warnings ∙ w;
    }

module _ (printer : Printer) (event : Text) (now : Time) (answers : Answers)
    (operations : List Operation) (emitter : EventEmitter) where
  broken-Outcome :
      {bytes : Text} {final : Option EventEmitter}
      → Delivered printer (emitting event now answers ∷ operations) bytes true
      → Unchanged (disable (with_sent bytes emitter)) final
      → Outcome printer (emitting event now answers ∷ operations) emitter final
  broken-Outcome {bytes} d u = record {
    result = u.result;
    bytes = bytes;
    final_result = u.final_result;
    sent = u.sent;
    delivered =
        subst (Delivered printer (emitting event now answers ∷ operations) bytes) (sym u.disabled)
          d;
    warnings = rw u.disabled (omega arith);
  }

  whole-Outcome :
      {line : Text} {final : Option EventEmitter}
      → line_of printer event now ≡ some line
      → Outcome printer operations (with_sent line emitter) final
      → Outcome printer (emitting event now answers ∷ operations) emitter final
  whole-Outcome {line} e o = record {
    result = o.result;
    bytes = line ++ o.bytes;
    final_result = o.final_result;
    sent = o.sent ∙ append_assoc emitter.sent line o.bytes;
    delivered = whole e o.delivered;
    warnings = o.warnings;
  }

operate_all-Outcome :
    (printer : Printer) (operations : List Operation) (emitter : EventEmitter)
    → (emitter.disabled || emitter.closed) ≡ false
    → Outcome printer operations emitter (operate_all printer operations (some emitter))
operate_all-Outcome printer [] emitter h =
    let d : emitter.disabled ≡ false = ground arith in
    record {
      result = emitter;
      bytes = [];
      final_result = refl;
      sent = sym (append-nil emitter.sent);
      delivered = rw d done;
      warnings = rw d (omega arith);
    }
operate_all-Outcome printer (closing ∷ operations) emitter h =
    let d : emitter.disabled ≡ false = ground arith in
    let (r, e, c, s, d', w) = close-closed emitter in
    let u = operate_all-Unchanged printer operations r (ground arith) in
    record {
      result = u.result;
      bytes = [];
      final_result = rw e u.final_result;
      sent = u.sent ∙ s ∙ sym (append-nil emitter.sent);
      delivered = rw (u.disabled ∙ d' ∙ d) closed_here;
      warnings = rw (u.disabled ∙ d' ∙ d) (u.warnings ∙ w ∙ omega arith);
    }
operate_all-Outcome printer (emitting event now answers ∷ operations) emitter h =
    go (emit_record-First printer event now answers emitter h)
      (λ line. operate_all-Outcome printer operations (with_sent line emitter) h)
  where
    go :
        {after : EventEmitter}
        → First printer event now emitter after
        → ((line : Text)
            → Outcome printer operations
                (with_sent line emitter)
                (operate_all printer operations (some (with_sent line emitter))))
        → Outcome printer
            (emitting event now answers ∷ operations)
            emitter
            (operate_all printer operations (some after))
    go (wrote {line} e) ih = whole-Outcome printer event now answers operations emitter e (ih line)
    go (broke {line} n e) ih =
        broken-Outcome printer event now answers operations emitter (part n e) (
          operate_all-Unchanged printer operations (disable (with_sent (take n line) emitter)) refl)
    go (lost e) ih =
        broken-Outcome printer event now answers operations emitter (unmarshalled e)
          (operate_all-Unchanged printer operations (disable (with_sent [] emitter)) refl)

-- Whatever is emitted and whenever the emitter is closed, what reaches the descriptor is the whole
-- lines of the first events in their order, and after the first failure, of marshalling or writing,
-- at most a first part of one line more; there is one warning after a failure, and none otherwise.
pub operate_all-Delivered :
    (printer : Printer) (operations : List Operation)
    → (final : EventEmitter) × (operate_all printer operations (some fresh) ≡ some final)
      × Delivered printer operations final.sent final.disabled
      × (final.warnings ≡ (if final.disabled then 1 else 0))
operate_all-Delivered printer operations =
    let o = operate_all-Outcome printer operations fresh refl in
    let d =
      subst (λ bytes. Delivered printer operations bytes o.result.disabled) (sym o.sent)
        o.delivered in
    (o.result, o.final_result, d, o.warnings ∙ omega arith)
