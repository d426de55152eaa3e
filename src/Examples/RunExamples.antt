-- ===== src/Examples/RunExamples.antt =====
-- cmd/outage/main.go from the arguments to the exit code.
use outage.Base.{true, false, none, some, [], ◌∷◌, List, Text, codes, ◌≡◌}
use outage.Base.Int.{pos}
use outage.Cmd.Satisfied.{World}
use outage.Cmd.Emitter.{fresh}
use outage.Cmd.Descriptor.{fifo, unix}
use outage.Cmd.Arbitration.{Channels, Cutoff, wait_for_copy_or_condition, copy_exit}
use outage.Cmd.Arbitration.Priority.{ChannelLaws, wait_for_copy_or_condition-settled}
use outage.Cmd.Run.{System}
use outage.Examples.EmitterExamples.{printer, takes_all}

-- The event is taken, and the copy has failed with it.
abbrev pub both_ready : Channels
both_ready = record {
  copy_at_start = none;
  copy_at_wake = some (some (codes "broken pipe"));
  events_at_wake = some true;
  takes_events = true;
  copy_after_event = some (some (codes "broken pipe"));
}

abbrev pub cutoff : Cutoff
cutoff = record {
  printer = printer;
  first_time = pos 1;
  first_answers = takes_all;
  second_time = pos 2;
  second_answers = takes_all;
}

pub both_ready-ChannelLaws : ChannelLaws both_ready
both_ready-ChannelLaws = record {
  kept_to_wake = λ result e. cc;
  kept_after = λ result e. e;
  wakes = λ e. cc;
}

wait_for_copy_or_condition-settled_example :
    wait_for_copy_or_condition both_ready cutoff (some fresh)
    ≡ some (copy_exit (some (codes "broken pipe")) (some fresh))
wait_for_copy_or_condition-settled_example =
    wait_for_copy_or_condition-settled both_ready cutoff fresh both_ready-ChannelLaws

abbrev quiet : World
quiet = record { now = λ _. pos 0; stat = λ _ _. none }

abbrev pub system : System
system = record {
  world = quiet;
  output_error = none;
  descriptor = unix (record {
    flags = some (record { read_only = false; nonblocking = true });
    file_type = some fifo;
    dups = true;
    sets_cloexec = true;
    has_file = true;
  });
  event_before_copy = none;
  channels = both_ready;
  cutoff = cutoff;
}

abbrev arguments : List Text
arguments = codes "--events-fd=3" ∷ codes "duration:30s && signal:USR1" ∷ []
