-- ===== src/Cmd/Tree/Runs.antt =====
-- A run of the tree of buildConditionTree on the monitors of internal/condition: from the events of the
-- leaves, through the forwarders and the loops of And and Or, in any order of the merged channels.
use outage.Base.{true, none, some, List, [], ◌∷◌, map, length, All, ◌≡◌, Text}
use outage.Time.{Time}
use outage.Condition.Events.{Event, Mode}
use outage.Condition.Merging.{Readings, Merges}
use outage.Condition.And.Ordered.{IsDelivering}
use outage.Condition.And
use outage.Condition.Or
use outage.Cmd.Tree.{Leaf, Node, leaf, and_of, Root, group, or_of}

-- What a forwarder reads of a stream that emits these events and ends.
abbrev pub stream_readings : List Event → Readings
stream_readings [] = (none, true) ∷ []
stream_readings (e ∷ events) = (some e, true) ∷ stream_readings events

abbrev pub leaf_readings : (Text → List Event) → Leaf → Readings
leaf_readings stream l = stream_readings (stream l.id)

module _ (mode : Mode) (stream : Text → List Event) where
  -- The events of a node, where the leaf of each id emits the events of its stream.
  pub data RunsNode : Node → List Event → Type 0 where
    runs_leaf : (l : Leaf) → RunsNode (leaf l) (stream l.id)
    runs_and :
        (id : Text) (leaves : List Leaf) (now : Time)
        {messages : List (And.Surroundings × And.Message)}
        → Merges (And.forwarders 0 (map (leaf_readings stream) leaves)) messages
        → IsDelivering messages
        → RunsNode (and_of id leaves) (And.run id mode (length leaves) now true messages)

  pub data RunsNodes : List Node → List (List Event) → Type 0 where
    runs_none : RunsNodes [] []
    runs_also :
        {node : Node} {nodes : List Node} {events : List Event} {rest : List (List Event)}
        → RunsNode node events
        → RunsNodes nodes rest
        → RunsNodes (node ∷ nodes) (events ∷ rest)

  pub data RunsRoot : Root → List Event → Type 0 where
    runs_group :
        {node : Node} {events : List Event} → RunsNode node events → RunsRoot (group node) events
    runs_or :
        (id : Text) {nodes : List Node} {streams : List (List Event)} {messages : Or.Messages}
        → RunsNodes nodes streams
        → Merges (map Or.forward_or_child (map stream_readings streams)) messages
        → All (λ (m : Or.Surroundings × Or.Message). m.0.delivers ≡ true) messages
        → RunsRoot (or_of id nodes) (Or.run id mode (length nodes) messages)
