-- ===== src/Examples/CliExamples.antt =====
-- internal/cli at concrete arguments.
use outage.Base.{
  ◌≡◌, ◌↔◌, refl, List, [], ◌∷◌, Bool, true, false, none, some, All, map, Text, codes, equal,
  has_prefix, trim_prefix,
}
use outage.Base.Int.{pos}
use outage.Cli.Result.{ok, err, events_fd_repeated}
use outage.Cli.Options.Laws.{
  separate, joined, parse_events_fd_options-Spells, parse_events_fd_options-repeated,
}
use outage.Cli.Options.{parse_events_fd, parse_events_fd_options}
use outage.Cli.Groups.Grammar.{Accepts, parse_condition_arguments_iff}
use outage.Cli.Groups.Split.{join, Lacks, parse_condition_groups-join}
use outage.Cli.Groups.{
  ConditionGroup, split, split_from, and_separator, parse_condition_arguments,
  parse_condition_groups,
}
use outage.Cli.Conditions.{
  ConditionSpec, Kind, sigusr1, canonical_signal_name, identity_equal, identity_id, is_signal_event,
  kind_text, parse_condition_spec, parse_duration_event, print_int, resolve_signal,
  signal_supported, validate_condition_capability_at, validate_condition_syntax_at,
}
use outage.Cli.Plans.Represented.{IsCanonical, canonical_plan-IsCanonical}
use outage.Cli.Plans.Validated.{canonical_plan-ok}
use outage.Cli.Plans.Parsed.{IsValid, parse-IsValid}
use outage.Cli.Plans.{
  Plan, add_groups, add_members, add_spec, canonical_plan, find_index, intern, is_seen, parse,
  parse_with_signal_support, validate_groups, validate_members,
}
use outage.Cmd.Satisfied.Meaning.{groups_hold, raw_satisfied, condition_plan_satisfied-meaning}
use outage.Cmd.Satisfied.{condition_plan_satisfied}
use outage.Examples.Package.{linux, linux-WholeLaws}

abbrev usr1 : Text
usr1 = codes "signal:USR1"

parse_events_fd_options-Spells_example :
    parse_events_fd_options (usr1 ∷ codes "--events-fd" ∷ codes "7" ∷ codes "--or" ∷ usr1 ∷ [])
    ≡ ok (record {
      condition_args = usr1 ∷ codes "--or" ∷ usr1 ∷ [];
      events_fd = pos 7;
      events_fd_set = true;
    })
unfolding equal has_prefix parse_events_fd
parse_events_fd_options-Spells_example =
    parse_events_fd_options-Spells (usr1 ∷ []) (codes "--or" ∷ usr1 ∷ []) {value = codes "7"}
      ((refl, refl), tt) ((refl, refl), ((refl, refl), tt)) (separate refl refl) refl

parse_events_fd_options-repeated_example :
    parse_events_fd_options (codes "--events-fd=7" ∷ usr1 ∷ codes "--events-fd=x" ∷ [])
    ≡ err events_fd_repeated
unfolding equal has_prefix parse_events_fd
parse_events_fd_options-repeated_example =
    parse_events_fd_options-repeated [] (usr1 ∷ []) [] {value = codes "7"} {value' = codes "x"} tt
      ((refl, refl), tt) (joined refl) (joined refl) refl

parse_condition_arguments_accepts :
    parse_condition_arguments (usr1 ∷ codes "--or" ∷ codes "a" ∷ codes "--or=b" ∷ [])
    ≡ ok (usr1 ∷ codes "a" ∷ codes "b" ∷ [])
unfolding parse_condition_arguments equal has_prefix trim_prefix
parse_condition_arguments_accepts = refl

abbrev two_groups : List ConditionGroup
two_groups =
    record { members = codes "a" ∷ codes "b" ∷ [] } ∷ record { members = codes " c" ∷ [] } ∷ []

parse_condition_groups-join_example :
    (parse_condition_arguments (codes "a && b" ∷ codes "--or= c" ∷ [])
      ≡ ok (codes "a && b" ∷ codes " c" ∷ []))
    × All (λ (g : ConditionGroup). All (Lacks and_separator) g.members) two_groups
unfolding parse_condition_groups parse_condition_arguments split split_from equal has_prefix
    trim_prefix join
parse_condition_groups-join_example =
    parse_condition_groups-join (codes "a && b" ∷ codes "--or= c" ∷ []) {groups = two_groups} refl

split_ends : split (codes "a && b && ") and_separator ≡ codes "a" ∷ codes "b" ∷ [] ∷ []
unfolding split has_prefix
split_ends = refl

abbrev pub durations : List ConditionGroup
durations =
    record { members = codes "duration:30s" ∷ codes "signal:SIGUSR1" ∷ codes "duration:0.5m" ∷ [] }
    ∷ record { members = codes "signal:USR1" ∷ [] }
    ∷ []

abbrev thirty : ConditionSpec
thirty = record {
  id = codes "duration:30000000000";
  kind = Kind.duration;
  signal_value = none;
  path = [];
  duration_value = pos 30_000_000_000;
  deadline = pos 0;
}

abbrev on_usr1 : ConditionSpec
on_usr1 = record {
  id = codes "signal:USR1";
  kind = Kind.signal;
  signal_value = some sigusr1;
  path = [];
  duration_value = pos 0;
  deadline = pos 0;
}

abbrev pub durations_plan : Plan
durations_plan = record {
  conditions = thirty ∷ on_usr1 ∷ [];
  groups = (0 ∷ 1 ∷ []) ∷ (1 ∷ []) ∷ [];
  events_fd = pos 0;
  events_fd_set = false;
}

parse_condition_arguments_iff_example :
    (parse_condition_arguments (usr1 ∷ codes "--or=a" ∷ []) ≡ ok (usr1 ∷ codes "a" ∷ []))
    ↔ Accepts (usr1 ∷ codes "--or=a" ∷ []) (usr1 ∷ codes "a" ∷ [])
parse_condition_arguments_iff_example =
    parse_condition_arguments_iff (usr1 ∷ codes "--or=a" ∷ []) (usr1 ∷ codes "a" ∷ [])

pub durations_run : canonical_plan linux durations ≡ ok durations_plan
unfolding canonical_plan add_groups add_members add_spec intern find_index is_seen identity_equal
    parse_condition_spec parse_duration_event canonical_signal_name resolve_signal identity_id
    kind_text print_int equal has_prefix trim_prefix
durations_run = refl

canonical_plan-IsCanonical_example : IsCanonical linux durations_plan durations
canonical_plan-IsCanonical_example =
    canonical_plan-IsCanonical linux durations {plan = durations_plan} linux-WholeLaws durations_run

canonical_plan-ok_example : (plan : Plan) × (canonical_plan linux durations ≡ ok plan)
unfolding validate_groups validate_members validate_condition_syntax_at
    validate_condition_capability_at is_signal_event canonical_signal_name signal_supported
    parse_duration_event equal has_prefix trim_prefix
canonical_plan-ok_example = canonical_plan-ok linux durations refl refl

abbrev is_signal : ConditionSpec → Bool
is_signal spec = elim spec.signal_value [ none ↦ false | some s ↦ true ]

condition_plan_satisfied-meaning_example :
    condition_plan_satisfied durations_plan (map is_signal durations_plan.conditions)
    ≡ some (groups_hold (raw_satisfied linux is_signal) durations)
condition_plan_satisfied-meaning_example =
    condition_plan_satisfied-meaning linux durations is_signal {plan = durations_plan}
      linux-WholeLaws durations_run

parse-IsValid_example :
    IsValid linux
      (codes "duration:30s && signal:SIGUSR1 && duration:0.5m" ∷ codes "--or" ∷ usr1 ∷ [])
      durations_plan
unfolding parse parse_with_signal_support parse_events_fd_options parse_condition_groups
    parse_condition_arguments split validate_groups validate_members validate_condition_syntax_at
    validate_condition_capability_at is_signal_event signal_supported canonical_plan add_groups
    add_members add_spec intern find_index is_seen identity_equal parse_condition_spec
    parse_duration_event canonical_signal_name resolve_signal identity_id kind_text print_int equal
    has_prefix trim_prefix
parse-IsValid_example =
    parse-IsValid linux
      (codes "duration:30s && signal:SIGUSR1 && duration:0.5m" ∷ codes "--or" ∷ usr1 ∷ [])
      {plan = durations_plan} linux-WholeLaws refl
