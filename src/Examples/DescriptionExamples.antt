-- ===== src/Examples/DescriptionExamples.antt =====
-- cmd/outage/describe.go beside the program that it describes.
use outage.Base.{true, false, some, [], ◌∷◌, List, Text, codes, here, there, ◌≡◌, ◌↔◌, refl}
use outage.Cmd.Emitter.{fresh}
use outage.Cmd.Arbitration.{Exit, wait_for_copy_or_condition}
use outage.Cmd.Run.{run_with_clock}
use outage.Cmd.Description.Machine.{state_machine}
use outage.Cmd.Description.Options.{version_option}
use outage.Cmd.Description.Lifecycle.{IsDescribed, wait_for_copy_or_condition-IsDescribed}
use outage.Cmd.Description.Standalone.{IsRefused, run_with_clock-standalone}
use outage.Examples.Package.{linux}
use outage.Examples.RunExamples.{both_ready, both_ready-ChannelLaws, cutoff, system}

wait_for_copy_or_condition-IsDescribed_example :
    (exit : Exit) × (wait_for_copy_or_condition both_ready cutoff (some fresh) ≡ some exit)
    × IsDescribed state_machine (codes "error" ∷ []) cutoff fresh exit
wait_for_copy_or_condition-IsDescribed_example =
    wait_for_copy_or_condition-IsDescribed both_ready cutoff fresh both_ready-ChannelLaws (λ e. cc)

abbrev version_and_condition : List Text
version_and_condition = codes "duration:1s" ∷ codes "--version" ∷ []

run_with_clock-standalone_example : IsRefused (run_with_clock linux system version_and_condition)
unfolding outage.Cli.Options.help_requested outage.Base.equal
run_with_clock-standalone_example =
    run_with_clock-standalone linux system version_and_condition version_option
      (there (there (here refl))) refl (there (here refl)) (λ e. cc) refl
