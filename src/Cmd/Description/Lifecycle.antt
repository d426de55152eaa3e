-- ===== src/Cmd/Description/Lifecycle.antt =====
-- The described state machine and the exits of waitForCopyOrCondition.
use outage.Base.{
  Bool, true, false, ◌&&◌, Option, none, some, List, [], ◌∷◌, Text, codes, equal, if◌then◌else◌,
  ◌≡◌, ◌≢◌, refl,
}
use outage.Cmd.Emitter.{EventEmitter, emit, emit_cutoff_events}
use outage.Cmd.Arbitration.{
  Channels, Cutoff, Exit, CopyResult, exit_ok, exit_copy_error, wait_for_copy_or_condition,
}
use outage.Cmd.Arbitration.Priority.{ChannelLaws, settled, wait_for_copy_or_condition-settled}
use outage.Cmd.Description.Types.{StateTransition, StateDescription}
use outage.Cmd.Description.Machine.{state_machine}

-- The target of the first transition from a state by an event.
abbrev pub target : List StateTransition → Text → Text → Option Text
target [] state event = none
target (t ∷ rest) state event =
    if equal t.from state && equal t.event event then some t.to else target rest state event

-- The state behind a sequence of events.
abbrev pub follow : List StateTransition → Text → List Text → Option Text
follow rules state [] = some state
follow rules state (event ∷ events) = elim (target rules state event) [
  | none ↦ none
  | some next ↦ follow rules next events
]

abbrev pub is_among : List Text → Text → Bool
is_among [] event = false
is_among (e ∷ events) event = if equal e event then true else is_among events event

-- The events that are listed for the event descriptor.
abbrev pub listed : List Text → List Text → List Text
listed fd_events [] = []
listed fd_events (e ∷ events) =
    let rest = listed fd_events events in if is_among fd_events e then e ∷ rest else rest

-- At most two events, at the times of a cutoff.
abbrev pub emit_listed : Cutoff → List Text → Option EventEmitter → Option EventEmitter
emit_listed c [] emitter = emitter
emit_listed c (e ∷ []) emitter = emit c.printer e c.first_time c.first_answers emitter
emit_listed c (e ∷ e' ∷ _) emitter =
    emit c.printer e' c.second_time c.second_answers
      (emit c.printer e c.first_time c.first_answers emitter)

-- The events of the machine that the result of the copy stands for, at the time the wait is decided; a
-- copy that still runs then is cut off.
abbrev pub observed : Option CopyResult → List Text
observed (some none) = codes "eof" ∷ []
observed (some (some e)) = codes "error" ∷ []
observed none = codes "condition-triggered" ∷ codes "stream-cutoff" ∷ []

-- An exit that the machine describes of a sequence of events: they lead to a state that none leaves,
-- those that are listed for the descriptor were emitted, and the exit code tells an error.
pub record IsDescribed (machine : StateDescription) (events : List Text) (cutoff : Cutoff)
    (emitter : EventEmitter) (exit : Exit) : Type 0 where
  pub state : Text
  pub follows : follow machine.transitions machine.initial_state events ≡ some state
  pub is_final : (event : Text) → target machine.transitions state event ≡ none
  pub emitted :
      exit.emitter ≡ emit_listed cutoff (listed machine.event_fd_events events) (some emitter)
  pub code : exit.code ≡ (if equal state (codes "error") then exit_copy_error else exit_ok)

settled-IsDescribed :
    (result : Option CopyResult) (is_open : Option Bool) (cutoff : Cutoff) (emitter : EventEmitter)
    → (result ≡ none → is_open ≡ some true)
    → IsDescribed state_machine
        (observed result)
        cutoff
        emitter
        (settled result is_open cutoff emitter)
unfolding equal emit_cutoff_events
settled-IsDescribed (some none) is_open cutoff emitter h = record {
  state = codes "eof";
  follows = refl;
  is_final = λ event. refl;
  emitted = refl;
  code = refl;
}
settled-IsDescribed (some (some e)) is_open cutoff emitter h = record {
  state = codes "error";
  follows = refl;
  is_final = λ event. refl;
  emitted = refl;
  code = refl;
}
settled-IsDescribed none is_open cutoff emitter h = rw (h refl) (record {
  state = codes "cutoff";
  follows = refl;
  is_final = λ event. refl;
  emitted = refl;
  code = refl;
})

-- A wait that a copy does not end has received an event.
delivered :
    (channels : Channels)
    → ChannelLaws channels
    → channels.events_at_wake ≢ some false
    → channels.copy_after_event ≡ none
    → channels.events_at_wake ≡ some true
delivered channels laws open_ after = go channels.copy_at_wake channels.events_at_wake refl refl
  where
    go :
        (copy : Option CopyResult) (events : Option Bool)
        → channels.copy_at_wake ≡ copy
        → channels.events_at_wake ≡ events
        → channels.events_at_wake ≡ some true
    go (some result) events e q = let kept = laws.kept_after result e in cc
    go none none e q = absurd (laws.wakes (rw (e, q) refl))
    go none (some true) e q = q
    go none (some false) e q = absurd (open_ q)

-- With event output, and unless the condition stream ends without an event, the wait ends as the state
-- machine of --describe says: the events that what copyDone holds behind the receive stands for (`eof`,
-- `error`, or the two of a cutoff while the copy runs) lead from the initial state to a final one, those
-- listed for the event descriptor have been emitted, in their order, and the exit code is that of a
-- failed copy exactly in the state `error`.
pub wait_for_copy_or_condition-IsDescribed :
    (channels : Channels) (cutoff : Cutoff) (emitter : EventEmitter)
    → ChannelLaws channels
    → channels.events_at_wake ≢ some false
    → (exit : Exit) × (wait_for_copy_or_condition channels cutoff (some emitter) ≡ some exit)
      × IsDescribed state_machine (observed channels.copy_after_event) cutoff emitter exit
wait_for_copy_or_condition-IsDescribed channels cutoff emitter laws open_ = (
  settled channels.copy_after_event channels.events_at_wake cutoff emitter,
  wait_for_copy_or_condition-settled channels cutoff emitter laws,
  settled-IsDescribed channels.copy_after_event channels.events_at_wake cutoff emitter
      (delivered channels laws open_),
)
