-- ===== src/Cmd/Run/Ends.antt =====
-- Every run ends with an exit code that fits what it wrote.
use outage.Base.{ℕ, Bool, true, Option, none, some, List, [], ◌∷◌, Text, ◌≡◌, ◌≢◌}
use outage.Time.{Time}
use outage.Cli.Result.{Result}
use outage.Cli.Conditions.{Env}
use outage.Cli.Plans.{Plan}
use outage.Cli.Plans.Represented.{IsCanonical}
use outage.Cli.Groups.{ConditionGroup}
use outage.Cmd.Satisfied.{initial_condition_states}
use outage.Cmd.Emitter.{EventEmitter, close}
use outage.Cmd.Arbitration.{wake}
use outage.Cmd.Run.{
  Run, ended, System, Diagnostic, Output, nothing, copy, output_failed, copy_failed,
  events_disabled,
}
use outage.Cmd.Run.Warnings.{Opened}

-- A run with exit code 0 and no diagnostic, or one warning of an emitter that is disabled; with 1 and the
-- diagnostic of a failed read or write; or with 2, one diagnostic, and nothing on stdout.
pub data IsSound : Run → Type 0 where
  success : {output : Output} {emitter : Option EventEmitter} → IsSound (ended 0 output [] emitter)
  events_lost :
      {output : Output} (emitter : EventEmitter)
      → emitter.disabled ≡ true
      → IsSound (ended 0 output (events_disabled ∷ []) (close (some emitter)))
  print_failure :
      {output : Output} {e : Text} {emitter : Option EventEmitter}
      → IsSound (ended 1 output (output_failed e ∷ []) emitter)
  copy_failure :
      {e : Text} {emitter : Option EventEmitter}
      → IsSound (ended 1 copy (copy_failed e ∷ []) emitter)
  refusal :
      {d : Diagnostic} {emitter : Option EventEmitter} → IsSound (ended 2 nothing (d ∷ []) emitter)

module _ (env : Env) (system : System) (plan : Plan) (groups : List ConditionGroup)
    (canonical : IsCanonical env plan groups) (wakes : wake system.channels ≢ none)
    (started_at : Time) (k : ℕ) {emitter : Option EventEmitter} (ready : Opened emitter) where
  abbrev states_of : Bool → List Bool
  states_of check_files =
      (initial_condition_states system.world plan.conditions started_at check_files k).0
