-- ===== src/Cmd/Run.antt =====
-- runWithClock of cmd/outage/main.go.
pub mod Warnings
pub mod Ends
use outage.Base.{
  ℕ, ◌+◌, ◌==◌, ◌⊎◌, inl, inr, Bool, true, false, not, Option, none, some, List, [], ◌∷◌, ◌++◌,
  length, replicate, Text, if◌then◌else◌,
}
use outage.Base.Int.{ℤ, pos, ltb_ℤ}
use outage.Time.{Time}
use outage.Cli.Result.{Error, ok, err}
use outage.Cli.Options.{help_requested, describe_requested, version_requested}
use outage.Cli.Conditions.{Env}
use outage.Cli.Plans.{Plan, parse}
use outage.Cmd.Satisfied.{
  World, initial_condition_states, condition_plan_satisfied, initial_condition_satisfaction,
}
use outage.Cmd.Tree.{Root, Build, built, unsupported_kind, panic, build_condition_tree}
use outage.Cmd.Emitter.{EventEmitter, close, fresh}
use outage.Cmd.Descriptor.{
  Descriptor, DescriptorError, validate_event_descriptor, duplicate_event_file,
}
use outage.Cmd.Arbitration.{
  Channels, Cutoff, Exit, cut_off, exit_ok, exit_copy_error, wait_for_copy_or_condition,
}

abbrev pub exit_arg_error : ℕ
exit_arg_error = 2

pub data Diagnostic : Type 0 where
  output_failed : Text → Diagnostic
  describe_combined : Diagnostic
  rejected : Error → Diagnostic
  invalid_events_fd : ℤ → DescriptorError → Diagnostic
  events_fd_below_three : ℤ → Diagnostic
  not_duplicated : ℤ → DescriptorError → Diagnostic
  unsupported : Text → Diagnostic
  copy_failed : Text → Diagnostic
  events_disabled : Diagnostic

-- What is written to stdout: a text of the program, nothing, or stdin.
pub data Output : Type 0 where
  help description version nothing copy : Output

-- How a run ends: with an exit code, what it wrote and the emitter after the deferred close; in the
-- panic of an index out of range; or not at all, when both channels block.
pub data Run : Type 0 where
  ended : ℕ → Output → List Diagnostic → Option EventEmitter → Run
  index_panic : Run
  waiting : Run

-- The system: observations, the error of writing to stdout, the descriptor of --events-fd, what the
-- poll of `events` finds before the copy starts, and the rest of Arbitration.
pub record System : Type 0 where
  pub world : World
  pub output_error : Option Text
  pub descriptor : Descriptor
  pub event_before_copy : Option Bool
  pub channels : Channels
  pub cutoff : Cutoff

-- The warnings of an emitter, each of which a goroutine of its own writes to stderr.
abbrev pub warnings_of : Option EventEmitter → List Diagnostic
warnings_of none = []
warnings_of (some emitter) = replicate emitter.warnings events_disabled

-- The end of a run with an emitter: its warnings are listed last, whenever they get to stderr, and the
-- deferred close runs.
abbrev pub ended_with : ℕ → Output → List Diagnostic → Option EventEmitter → Run
ended_with code output diagnostics emitter =
    ended code output (diagnostics ++ warnings_of emitter) (close emitter)

-- A text of the program on stdout.
abbrev pub print : Output → Option Text → Run
print output none = ended exit_ok output [] none
print output (some e) = ended exit_copy_error output (output_failed e ∷ []) none

-- newEventEmitterWithClock: the emitter, or the diagnostic of a nil one.
unfoldable pub new_event_emitter : ℤ → Descriptor → Diagnostic ⊎ EventEmitter
new_event_emitter fd descriptor =
    if ltb_ℤ fd (pos 3)
    then inl (events_fd_below_three fd)
    else (elim (duplicate_event_file descriptor).error [
      | some e ↦ inl (not_duplicated fd e)
      | none ↦ inr fresh
    ])

-- The part of runWithClock that opens the events.
unfoldable pub open_events : Plan → Descriptor → Diagnostic ⊎ Option EventEmitter
open_events plan descriptor =
    if not plan.events_fd_set then inr none else (elim (validate_event_descriptor descriptor) [
      | some e ↦ inl (invalid_events_fd plan.events_fd e)
      | none ↦ elim (new_event_emitter plan.events_fd descriptor) [
        | inl d ↦ inl d
        | inr emitter ↦ inr (some emitter)
      ]
    ])

abbrev pub copy_diagnostics : Option Text → List Diagnostic
copy_diagnostics none = []
copy_diagnostics (some e) = copy_failed e ∷ []

abbrev pub exit_run : Option Exit → Run
exit_run none = waiting
exit_run (some exit) = ended_with exit.code copy (copy_diagnostics exit.copy_error) exit.emitter

-- emitCutoffEvents and the exit, before the copy.
abbrev pub cut_off_run : System → Option EventEmitter → Run
cut_off_run system emitter = ended_with exit_ok nothing [] (cut_off system.cutoff emitter)

-- The second check, and the copy.
unfoldable pub recheck : System → Plan → Time → ℕ → Option EventEmitter → Run
recheck system plan started_at k emitter =
    elim (initial_condition_satisfaction system.world plan started_at false k) [
      | none ↦ index_panic
      | some (true, _) ↦ cut_off_run system emitter
      | some (false, _) ↦
          exit_run (wait_for_copy_or_condition system.channels system.cutoff emitter)
    ]

-- From the start of the monitors on.
unfoldable pub monitor : Bool → System → Plan → Time → ℕ → Option EventEmitter → Run
monitor true system plan started_at k emitter = cut_off_run system emitter
monitor false system plan started_at k emitter = elim system.event_before_copy [
  | some true ↦ cut_off_run system emitter
  | some false ↦ ended_with exit_ok nothing [] emitter
  | none ↦ recheck system plan started_at k emitter
]

-- The setup of the conditions, with the emitter in place.
unfoldable pub run_plan : System → Plan → Time → ℕ → Option EventEmitter → Run
run_plan system plan started_at k emitter =
    let states = initial_condition_states system.world plan.conditions started_at true k in
    elim (condition_plan_satisfied plan states.0) [
      | none ↦ index_panic
      | some satisfied ↦ elim (build_condition_tree plan states.0) [
        | unsupported_kind kind ↦ ended_with exit_arg_error nothing (unsupported kind ∷ []) emitter
        | panic ↦ index_panic
        | built root ↦ monitor satisfied system plan started_at states.1 emitter
      ]
    ]

-- runWithClock without its requests.
unfoldable pub run_conditions : Env → System → List Text → Run
run_conditions env system args =
    let started_at = system.world.now 0 in
    elim (parse env args) [
      | err e ↦ ended exit_arg_error nothing (rejected e ∷ []) none
      | ok plan ↦ elim (open_events plan system.descriptor) [
        | inl d ↦ ended exit_arg_error nothing (d ∷ []) none
        | inr emitter ↦ run_plan system plan started_at 1 emitter
      ]
    ]

-- runWithClock
unfoldable pub run_with_clock : Env → System → List Text → Run
run_with_clock env system args =
    if help_requested args
    then print help system.output_error
    else if describe_requested args
    then if not (length args == 1)
      then ended exit_arg_error nothing (describe_combined ∷ []) none
      else print description system.output_error
    else if version_requested args
    then print version system.output_error
    else run_conditions env system args
