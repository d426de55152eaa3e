-- ===== src/Condition/Or.antt =====
-- internal/condition/or.go: the loop that emits on any child's event.
pub mod Forwarding
pub mod Merged
pub mod Emission
use outage.Base.{
  ℕ, zero, suc, Bool, true, false, not, Option, none, some, List, [], ◌∷◌, if◌then◌else◌, Text,
}
use outage.Time.{Time}
use outage.Condition.Merging.{Readings}
use outage.Condition.Events.{Mode, is_once, Event, composite_event}

-- orMessage
pub data Message : Type 0 where
  event : Event → Message
  closed : Message

-- The environment of a turn: whether emitEvent delivers, and what `now` returns.
pub record Surroundings : Type 0 where
  pub delivers : Bool
  pub now : Time

abbrev pub Messages : Type 0
Messages = List (Surroundings × Message)

-- The loop over the messages of `merged`, up to a cancellation: the events that it emits.
unfoldable pub loop : Text → Mode → Messages → ℕ → List Event
loop id mode [] remaining = []
loop id mode ((env, closed) ∷ messages) zero = []
loop id mode ((env, event e) ∷ messages) zero = []
loop id mode ((env, closed) ∷ messages) (suc remaining) = loop id mode messages remaining
loop id mode ((env, event e) ∷ messages) (suc remaining) =
    let rest = loop id mode messages (suc remaining) in
    if not env.delivers
    then []
    else if is_once mode
    then composite_event id e env.now ∷ []
    else composite_event id e env.now ∷ rest

-- The goroutine of run, with the number of children.
unfoldable pub run : Text → Mode → ℕ → Messages → List Event
unfolding loop
run id mode zero messages = []
run id mode (suc children) messages = loop id mode messages (suc children)

-- forwardOrChild, up to a cancellation: what it sends.
unfoldable pub forward_or_child : Readings → List Message
forward_or_child [] = []
forward_or_child ((none, true) ∷ readings) = closed ∷ []
forward_or_child ((none, false) ∷ readings) = []
forward_or_child ((some e, true) ∷ readings) = event e ∷ forward_or_child readings
forward_or_child ((some e, false) ∷ readings) = []
