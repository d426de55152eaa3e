-- ===== src/Condition/File.antt =====
-- internal/condition/file.go
pub mod Rises
use outage.Base.{
  Bool, true, false, not, ◌&&◌, ◌||◌, Option, none, some, List, [], ◌∷◌, if◌then◌else◌, Text,
}
use outage.Time.{Time}
use outage.Condition.Events.{Event, Mode, is_once}
use outage.Condition.Monitor.{leaf_event}

-- An observation of the path: what os.Stat returns, the clock after it, and whether an event is sent.
pub record Observation : Type 0 where
  pub stat : Option Bool
  pub now : Time
  pub delivers : Bool

-- isRegularFile, with the error that both callers drop.
abbrev pub is_regular_file : Option Bool → Bool
is_regular_file none = false
is_regular_file (some regular) = regular

abbrev pub equal_Bool : Bool → Bool → Bool
equal_Bool true b = b
equal_Bool false b = not b

-- The polling goroutine, over the ticks up to a cancellation: the events that it sends.
unfoldable pub poll : Text → Mode → Bool → List Observation → List Event
poll id mode previous [] = []
poll id mode previous (o ∷ ticks) =
    let current = is_regular_file o.stat in
    let rest = poll id mode current ticks in
    if equal_Bool current previous
    then rest
    else if not current
    then rest
    else if not o.delivers
    then []
    else if is_once mode
    then leaf_event id o.now ∷ []
    else leaf_event id o.now ∷ rest

-- run of fileCondition, with its first observation.
unfoldable pub run : Text → Mode → Observation → List Observation → List Event
run id mode first ticks =
    let regular = is_regular_file first.stat in
    let rest = poll id mode regular ticks in
    if not regular
    then rest
    else if not first.delivers
    then []
    else if is_once mode
    then leaf_event id first.now ∷ []
    else leaf_event id first.now ∷ rest
