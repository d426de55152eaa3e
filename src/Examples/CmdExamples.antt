-- ===== src/Examples/CmdExamples.antt =====
-- cmd/outage at concrete plans.
use outage.Base.{
  map, ◌||◌, ◌≡◌, refl, Bool, true, false, List, [], ◌∷◌, Text, codes, equal, if◌then◌else◌,
}
use outage.Base.Int.{pos}
use outage.Condition.Events.{Event, once, emits}
use outage.Cmd.Tree.Runs.{RunsRoot}
use outage.Cmd.Tree.Emits.{build_condition_tree-emits}
use outage.Cmd.Satisfied.Meaning.{groups_hold, raw_satisfied}
use outage.Cmd.Tree.{Root, built, build_condition_tree}
use outage.Cmd.Tree.Leaves.{Occurrences, fires, occurs}
use outage.Cli.Conditions.{ConditionSpec}
use outage.Cmd.Tree.Meaning.{holds, build_condition_tree-meaning}
use outage.Examples.CliExamples.{durations, durations_plan, durations_run}
use outage.Examples.Package.{linux, linux-WholeLaws}

-- The signal was held initially.
abbrev initially_held : ConditionSpec → Bool
initially_held spec = equal spec.id (codes "signal:USR1")

build_condition_tree-meaning_example :
    (root : Root) × (build_condition_tree durations_plan
        (map initially_held durations_plan.conditions)
      ≡ built root)
    × ((occ : Occurrences)
        → holds (fires occ) root
          ≡ groups_hold
              (raw_satisfied linux (λ spec. initially_held spec || occurs occ spec))
              durations)
build_condition_tree-meaning_example =
    build_condition_tree-meaning linux durations initially_held {plan = durations_plan}
      linux-WholeLaws durations_run

-- The signal alone emits.
abbrev signalled : Text → List Event
signalled id =
    if equal id (codes "signal:USR1")
    then record { condition_id = id; source_ids = []; time = pos 5 } ∷ []
    else []

build_condition_tree-emits_example :
    (root : Root) × (build_condition_tree durations_plan (false ∷ true ∷ []) ≡ built root)
    × ((events : List Event) × RunsRoot once signalled root events)
    × ((events : List Event)
        → RunsRoot once signalled root events
        → emits events
          ≡ groups_hold (raw_satisfied linux (λ spec. emits (signalled spec.id))) durations)
build_condition_tree-emits_example =
    build_condition_tree-emits linux durations (false ∷ true ∷ []) once signalled
      {plan = durations_plan} linux-WholeLaws durations_run refl
