-- ===== src/Condition/Signal.antt =====
-- internal/condition/signal.go
pub mod Received
use outage.Base.{
  Bool, true, false, not, ◌||◌, Option, none, some, List, [], ◌∷◌, if◌then◌else◌, Text,
}
use outage.Time.{Time}
use outage.Cli.Conditions.{Signal}
use outage.Condition.Events.{Event, Mode, is_once}
use outage.Condition.Monitor.{leaf_event}

-- A receive from the channel of signals: its `ok`, the clock after it, and whether an event is sent.
pub record Receive : Type 0 where
  pub is_open : Bool
  pub now : Time
  pub delivers : Bool

-- The goroutine, over what it receives up to a cancellation: the events that it sends.
unfoldable pub watch : Text → Mode → List Receive → List Event
watch id mode [] = []
watch id mode (r ∷ received) =
    let rest = watch id mode received in
    if not r.is_open
    then []
    else if not r.delivers
    then []
    else if is_once mode
    then leaf_event id r.now ∷ []
    else leaf_event id r.now ∷ rest

-- run of signalCondition; a nil signal is never watched.
unfoldable pub run : Text → Option Signal → Mode → List Receive → List Event
run id none mode received = []
run id (some signal) mode received = watch id mode received
