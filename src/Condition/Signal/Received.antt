-- ===== src/Condition/Signal/Received.antt =====
-- A signal condition emits for each signal that it receives.
use outage.Base.{
  true, Option, none, some, List, [], ◌∷◌, map, if◌then◌else◌, Text, ◌≡◌, refl, All, arith,
}
use outage.Cli.Conditions.{Signal}
use outage.Condition.Events.{Event, Mode, once, continuous, by_mode}
use outage.Condition.Monitor.{leaf_event}
use outage.Condition.Signal.{Receive, run, watch}

-- What is received before the channel is closed.
abbrev pub before_close : List Receive → List Receive
before_close [] = []
before_close (r ∷ received) = if r.is_open then r ∷ before_close received else []

abbrev pub signals : Text → List Receive → List Event
signals id received = map (λ (r : Receive). leaf_event id r.now) (before_close received)

watch-signals :
    (id : Text) (mode : Mode) (received : List Receive)
    → All (λ (r : Receive). r.delivers ≡ true) received
    → watch id mode received ≡ by_mode mode (signals id received)
unfolding watch
watch-signals id once [] h = refl
watch-signals id continuous [] h = refl
watch-signals id once (r ∷ received) h = ground arith
watch-signals id continuous (r ∷ received) h =
    ground (arith, watch-signals id continuous received h.1)

-- While events are sent, a signal condition emits one event for each signal until its channel is closed,
-- or the first alone in Once mode; with a nil signal it emits nothing.
pub run-signals :
    (id : Text) (signal : Option Signal) (mode : Mode) (received : List Receive)
    → All (λ (r : Receive). r.delivers ≡ true) received
    → run id signal mode received
      ≡ elim signal [ none ↦ [] | some s ↦ by_mode mode (signals id received) ]
unfolding run
run-signals id none mode received h = refl
run-signals id (some s) mode received h = watch-signals id mode received h
