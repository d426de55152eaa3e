-- ===== src/Condition/And.antt =====
-- internal/condition/and.go: the loop that waits for every child once in a cycle.
pub mod Latch
pub mod Open
pub mod Ordered
pub mod Emission
pub mod Cycles
pub mod Sources
pub mod Kept
pub mod Ended
pub mod Publishing
pub mod Published
pub mod Merged
pub mod Forwarded
use outage.Base.{
  ℕ, zero, suc, ◌-◌, Bool, true, false, not, ◌&&◌, ◌||◌, List, [], ◌∷◌, ◌++◌, any, all, get_or, set,
  replicate, length, ltb, Option, none, some, if◌then◌else◌, Text,
}
use outage.Time.{Time}
use outage.Condition.Merging.{Readings}
use outage.Condition.Events.{Mode, is_once, Event, event_sources, append_unique, is_zero}

-- indexedEvent: a child's event, or the end of its stream.
pub data Message : Type 0 where
  event : ℕ → Event → Message
  closed : ℕ → Message

-- The variables of the loop.
pub record State : Type 0 where
  pub matched : List Bool
  pub closed_child : List Bool
  pub matched_sources : List (List Text)
  pub latest_time : Time
  pub remaining_open : ℕ

-- allMatched
unfoldable pub all_matched : List Bool → Bool
all_matched [] = true
all_matched (value ∷ matched) = if not value then false else all_matched matched

-- hasClosedChild
unfoldable pub has_closed_child : List Bool → Bool
has_closed_child [] = false
has_closed_child (value ∷ values) = if value then true else has_closed_child values

-- The sources of the event, over the children in their order.
unfoldable pub collect : List Text → List (List Text) → List Text
collect sources [] = sources
collect sources (child ∷ rest) = collect (append_unique sources child) rest

-- What one turn of the loop does: it goes on, or returns; and it may have emitted.
pub data Turn : Type 0 where
  next : State → Turn
  emitted : Event → State → Turn
  last : Event → Turn
  stopped : Turn

-- The environment of a turn: whether emitEvent delivers, and what `now` returns after it.
pub record Surroundings : Type 0 where
  pub delivers : Bool
  pub now : Time

unfoldable pub on_closed : ℕ → State → Turn
on_closed index s =
    if get_or s.closed_child index false
    then next s
    else if not (get_or s.matched index false)
    then stopped
    else next (record s {
      closed_child = set s.closed_child index true;
      remaining_open = s.remaining_open - 1;
    })

-- The event is latched.
unfoldable pub latch : ℕ → Event → State → State
latch index e s = record s {
  matched = set s.matched index true;
  matched_sources = set s.matched_sources index (event_sources e);
  latest_time = if is_zero e.time then s.latest_time else e.time;
}

unfoldable pub aggregate : Text → State → Event
aggregate id s = record {
  condition_id = id;
  source_ids = collect [] s.matched_sources;
  time = s.latest_time;
}

-- A new cycle.
unfoldable pub reset : Time → State → State
reset now s = record s {
  matched = replicate (length s.matched) false;
  matched_sources = replicate (length s.matched) [];
  latest_time = now;
}

unfoldable pub publish : Text → Mode → Surroundings → State → Turn
publish id mode env s =
    if not env.delivers
    then stopped
    else if is_once mode
    then last (aggregate id s)
    else if has_closed_child s.closed_child
    then last (aggregate id s)
    else emitted (aggregate id s) (reset env.now s)

unfoldable pub on_event : Text → Mode → Surroundings → ℕ → Event → State → Turn
on_event id mode env index e s =
    if get_or s.matched index false
    then next s
    else if not (all_matched (latch index e s).matched)
    then next (latch index e s)
    else publish id mode env (latch index e s)

-- The select on `merged`.
unfoldable pub turn : Text → Mode → Surroundings → Message → State → Turn
turn id mode env (event index e) s = on_event id mode env index e s
turn id mode env (closed index) s = on_closed index s

-- The loop over the messages of `merged`, up to a cancellation: the events that it emits.
unfoldable pub loop : Text → Mode → List (Surroundings × Message) → State → List Event
loop id mode [] s = []
loop id mode ((env, m) ∷ messages) s =
    let go = λ (t : State). loop id mode messages t in
    if not (ltb 0 s.remaining_open) then [] else (elim (turn id mode env m s) [
      | next t ↦ go t
      | emitted e t ↦ e ∷ go t
      | last e ↦ e ∷ []
      | stopped ↦ []
    ])

unfoldable pub initial : ℕ → Time → State
initial children now = record {
  matched = replicate children false;
  closed_child = replicate children false;
  matched_sources = replicate children [];
  latest_time = now;
  remaining_open = children;
}

abbrev pub empty_event : Text → Time → Event
empty_event id now = record { condition_id = id; source_ids = []; time = now }

-- The goroutine of run, with the number of children and what `now` returns first: no child at all
-- is an event at once, if it is delivered.
unfoldable pub run : Text → Mode → ℕ → Time → Bool → List (Surroundings × Message) → List Event
run id mode zero now delivers messages = if delivers then empty_event id now ∷ [] else []
run id mode (suc children) now delivers messages =
    loop id mode messages (initial (suc children) now)

-- forwardIndexedChild, up to a cancellation: what it sends.
unfoldable pub forward_indexed_child : ℕ → Readings → List Message
forward_indexed_child index [] = []
forward_indexed_child index ((none, true) ∷ readings) = closed index ∷ []
forward_indexed_child index ((none, false) ∷ readings) = []
forward_indexed_child index ((some e, true) ∷ readings) =
    event index e ∷ forward_indexed_child index readings
forward_indexed_child index ((some e, false) ∷ readings) = []

-- The forwarders of the children, from an index on.
unfoldable pub forwarders : ℕ → List Readings → List (List Message)
forwarders index [] = []
forwarders index (readings ∷ children) =
    forward_indexed_child index readings ∷ forwarders (suc index) children
