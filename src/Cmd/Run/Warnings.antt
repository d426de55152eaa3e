-- ===== src/Cmd/Run/Warnings.antt =====
-- The emitter of a run, which warns when it is disabled, and once.
use outage.Base.{
  suc, true, false, Option, none, some, Text, ◌≡◌, refl, ap, sym, ◌∙◌, ◌||◌, arith, Bool-cases, ◌⊎◌,
  inl, inr, Option-cases,
}
use outage.Base.Int.{pos, ltb_ℤ}
use outage.Time.{Time}
use outage.Cli.Plans.{Plan}
use outage.Cmd.Descriptor.{Descriptor, validate_event_descriptor, duplicate_event_file}
use outage.Cmd.Emitter.Steps.{First, wrote, broke, lost, emit_record-First}
use outage.Cmd.Emitter.{
  Answers, EventEmitter, Printer, condition_triggered, emit, emit_cutoff_events, emit_record, fresh,
  stream_cutoff,
}
use outage.Cmd.Arbitration.{Cutoff, cut_off}
use outage.Cmd.Run.{Diagnostic, open_events, new_event_emitter}

-- The emitter of a run before the cutoff.
pub data Opened : Option EventEmitter → Type 0 where
  without : Opened none
  opened : Opened (some fresh)

-- An emitter warns when it is disabled, and once.
abbrev pub IsWarned : Option EventEmitter → Type 0
IsWarned none = Unit
IsWarned (some e) =
    ((e.disabled ≡ false) × (e.warnings ≡ 0)) ⊎ ((e.disabled ≡ true) × (e.warnings ≡ 1))

emit_record-IsWarned :
    (printer : Printer) (name : Text) (now : Time) (answers : Answers) (emitter : EventEmitter)
    → IsWarned (some emitter)
    → IsWarned (emit printer name now answers (some emitter))
unfolding emit_record
emit_record-IsWarned printer name now answers emitter h =
    elim (Bool-cases (emitter.disabled || emitter.closed)) [
      | inl t ↦ rw t h
      | inr f ↦ from_first (emit_record-First printer name now answers emitter f) (ground arith)
    ]
  where
    intact : emitter.disabled ≡ false → emitter.warnings ≡ 0
    intact f = elim h [ inl (_, w) ↦ w | inr (d, _) ↦ absurd (cc (sym f ∙ d)) ]

    from_first :
        {r : EventEmitter}
        → First printer name now emitter r
        → emitter.disabled ≡ false
        → IsWarned (some r)
    from_first (wrote e) f = h
    from_first (broke n e) f = inr (refl, ap suc (intact f))
    from_first (lost e) f = inr (refl, ap suc (intact f))

pub cut_off-IsWarned :
    (cutoff : Cutoff) {emitter : Option EventEmitter}
    → Opened emitter
    → IsWarned (cut_off cutoff emitter)
unfolding emit_cutoff_events
cut_off-IsWarned cutoff without = tt
cut_off-IsWarned c opened =
    emit_record-IsWarned c.printer stream_cutoff c.second_time c.second_answers _ (
      emit_record-IsWarned c.printer condition_triggered c.first_time c.first_answers fresh
        (inl (refl, refl)))

pub Opened-IsWarned : {emitter : Option EventEmitter} → Opened emitter → IsWarned emitter
Opened-IsWarned without = tt
Opened-IsWarned opened = inl (refl, refl)

-- The emitter that opening the events gives, if it gives one.
abbrev pub IsOpened : Diagnostic ⊎ Option EventEmitter → Type 0
IsOpened (inl d) = Unit
IsOpened (inr emitter) = Opened emitter

pub open_events-IsOpened :
    (plan : Plan) (descriptor : Descriptor) → IsOpened (open_events plan descriptor)
unfolding open_events new_event_emitter
open_events-IsOpened plan descriptor = elim (Bool-cases plan.events_fd_set) [
  | inr f ↦ rw f without
  | inl t ↦ elim (Option-cases (validate_event_descriptor descriptor)) [
    | inr (e, q) ↦ rw (t, q) tt
    | inl q ↦ elim (Bool-cases (ltb_ℤ plan.events_fd (pos 3))) [
      | inl l ↦ rw (t, q, l) tt
      | inr l ↦ elim (Option-cases (duplicate_event_file descriptor).error) [
        | inr (e, d) ↦ rw (t, q, l, d) tt
        | inl d ↦ rw (t, q, l, d) opened
      ]
    ]
  ]
]
