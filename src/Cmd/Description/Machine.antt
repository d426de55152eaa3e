-- ===== src/Cmd/Description/Machine.antt =====
-- The state machine that --describe prints, of cmd/outage/describe.go.
use outage.Base.{◌∷◌, [], List, codes}
use outage.Cmd.Description.Types.{StateTransition, StateDescription}

-- Transitions
abbrev pub transitions : List StateTransition
transitions =
    record {
      from = codes "monitoring";
      event = codes "condition-triggered";
      to = codes "triggered";
    }
    ∷ record { from = codes "triggered"; event = codes "stream-cutoff"; to = codes "cutoff" }
    ∷ record { from = codes "monitoring"; event = codes "eof"; to = codes "eof" }
    ∷ record { from = codes "monitoring"; event = codes "error"; to = codes "error" }
    ∷ []

-- StateMachine
abbrev pub state_machine : StateDescription
state_machine = record {
  initial_state = codes "monitoring";
  states =
      codes "monitoring" ∷ codes "triggered" ∷ codes "cutoff" ∷ codes "eof" ∷ codes "error" ∷ [];
  events = codes "condition-triggered" ∷ codes "stream-cutoff" ∷ codes "eof" ∷ codes "error" ∷ [];
  event_fd_events = codes "condition-triggered" ∷ codes "stream-cutoff" ∷ [];
  transitions = transitions;
}
