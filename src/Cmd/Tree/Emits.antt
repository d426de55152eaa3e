-- ===== src/Cmd/Tree/Emits.antt =====
-- The tree emits exactly when the command line is satisfied by the leaves that emit.
use outage.Base.{
  ℕ, zero, suc, ◌<◌, Bool, true, false, List, [], ◌∷◌, any, all, map, length, get_or, ◌≡◌, ◌≢◌, ◌↔◌,
  refl, ap, ◌∙◌, arith, length-map, Text,
}
use outage.Base.Int.{pos}
use outage.Time.{Time}
use outage.Cli.Result.{ok}
use outage.Cli.Groups.{ConditionGroup}
use outage.Cli.Conditions.{Env}
use outage.Cli.Conditions.Identities.{WholeLaws}
use outage.Cli.Plans.{Plan, canonical_plan}
use outage.Condition.Events.{Event, Mode, emits}
use outage.Condition.Merging.{Merges}
use outage.Condition.Merging.Orders.{Merges_exists}
use outage.Condition.And.Ordered.{IsDelivering}
use outage.Condition.And.Forwarded.{Sends, sends, run_emits_forwarded}
use outage.Condition.Or.Emission.{has_event, emits-run}
use outage.Condition.And
use outage.Condition.Or
use outage.Cmd.Satisfied.Meaning.{groups_hold, raw_satisfied}
use outage.Cmd.Tree.{Leaf, Node, leaf, and_of, Root, group, or_of, built, build_condition_tree}
use outage.Cmd.Tree.Meaning.{IsCanonical-built, holds_node, holds}
use outage.Cli.Plans.Represented.{canonical_plan-IsCanonical}
use outage.Cmd.Tree.Runs.{
  stream_readings, leaf_readings, RunsNode, runs_leaf, runs_and, RunsNodes, runs_none, runs_also,
  RunsRoot, runs_group, runs_or,
}

emits-of_iff : (events : List Event) (b : Bool) → (events ≢ []) ↔ (b ≡ true) → emits events ≡ b
emits-of_iff [] true h = absurd (h.1 refl refl)
emits-of_iff [] false h = refl
emits-of_iff (e ∷ events) true h = refl
emits-of_iff (e ∷ events) false h = let t = h.0 (λ q. cc) in cc

has_event-stream_readings :
    (events : List Event) → has_event (Or.forward_or_child (stream_readings events)) ≡ emits events
unfolding Or.forward_or_child
has_event-stream_readings [] = refl
has_event-stream_readings (e ∷ events) = refl

module _ (stream : Text → List Event) where
  abbrev emitted : Text → Bool
  emitted id = emits (stream id)

  Sends-stream : (events : List Event) → Sends (stream_readings events) ↔ (emits events ≡ true)
  Sends-stream [] = ((λ s. elim s [ ]), λ e. cc)
  Sends-stream (e ∷ events) = ((λ s. refl), λ h. sends)

  all-Sends :
      (leaves : List Leaf)
      → ((i : ℕ) → i < length leaves → Sends (get_or (map (leaf_readings stream) leaves) i []))
      → all (λ (l : Leaf). emitted l.id) leaves ≡ true
  all-Sends [] h = refl
  all-Sends (l ∷ leaves) h =
      rw ((Sends-stream (stream l.id)).0 (h 0 (omega arith)))
        (all-Sends leaves (λ i q. h (suc i) (omega arith)))

  Sends-all :
      (leaves : List Leaf)
      → all (λ (l : Leaf). emitted l.id) leaves ≡ true
      → (i : ℕ) → i < length leaves
      → Sends (get_or (map (leaf_readings stream) leaves) i [])
  Sends-all [] h i q = elim q [ ]
  Sends-all (l ∷ leaves) h zero q = (Sends-stream (stream l.id)).1 (ground arith)
  Sends-all (l ∷ leaves) h (suc i) q = Sends-all leaves (ground arith) i (omega arith)

  module _ (mode : Mode) where
    emits_and :
        (id : Text) (leaves : List Leaf) (now : Time)
        (messages : List (And.Surroundings × And.Message))
        → Merges (And.forwarders 0 (map (leaf_readings stream) leaves)) messages
        → IsDelivering messages
        → emits (And.run id mode (length leaves) now true messages)
          ≡ all (λ (l : Leaf). emitted l.id) leaves
    unfolding And.run
    emits_and id [] now messages merges del = refl
    emits_and id (l ∷ leaves) now messages merges del =
        let sent =
          run_emits_forwarded id mode (length leaves) now true
            (map (leaf_readings stream) (l ∷ leaves)) messages
            (length-map (l ∷ leaves) (leaf_readings stream)) merges del in
        emits-of_iff _ (all (λ (l : Leaf). emitted l.id) (l ∷ leaves))
          ((λ h. all-Sends (l ∷ leaves) (sent.0 h)), λ h. sent.1 (Sends-all (l ∷ leaves) h))

    emits_node :
        {node : Node} {events : List Event}
        → RunsNode mode stream node events
        → emits events ≡ holds_node (λ (l : Leaf). emitted l.id) node
    emits_node (runs_leaf l) = refl
    emits_node (runs_and id leaves now {messages} merges del) =
        emits_and id leaves now messages merges del

    emits_nodes :
        {nodes : List Node} {streams : List (List Event)}
        → RunsNodes mode stream nodes streams
        → (any has_event (map Or.forward_or_child (map stream_readings streams))
            ≡ any (holds_node (λ (l : Leaf). emitted l.id)) nodes)
          × (length nodes ≡ length (map stream_readings streams))
    emits_nodes runs_none = (refl, refl)
    emits_nodes (runs_also {node} {events = events} {rest} run runs) =
        let (e, n) = emits_nodes runs in
        let head : has_event (Or.forward_or_child (stream_readings events))
            ≡ holds_node (λ (l : Leaf). emitted l.id) node =
          has_event-stream_readings events ∙ emits_node run in
        (rw (head, e) refl, ap suc n)

    emits_root :
        {root : Root} {events : List Event}
        → RunsRoot mode stream root events
        → emits events ≡ holds (λ (l : Leaf). emitted l.id) root
    emits_root (runs_group run) = emits_node run
    emits_root (runs_or id {nodes} {streams} {messages} runs merges del) =
        let (e, n) = emits_nodes runs in
        ap (λ k. emits (Or.run id mode k messages)) n
        ∙ emits-run id mode (map stream_readings streams) messages merges del
        ∙ e

  -- Every tree has such a run.
  node_run : (mode : Mode) (node : Node) → (events : List Event) × RunsNode mode stream node events
  node_run mode (leaf l) = (stream l.id, runs_leaf l)
  node_run mode (and_of id leaves) =
      let env : And.Surroundings = record { delivers = true; now = pos 0 } in
      let (messages, merges, del) =
        Merges_exists (λ (env : And.Surroundings). env.delivers ≡ true) env
          (And.forwarders 0 (map (leaf_readings stream) leaves)) refl in
      (_, runs_and id leaves (pos 0) merges del)

  node_runs :
      (mode : Mode) (nodes : List Node)
      → (streams : List (List Event)) × RunsNodes mode stream nodes streams
  node_runs mode [] = ([], runs_none)
  node_runs mode (node ∷ nodes) =
      let (events, run) = node_run mode node in
      let (streams, runs) = node_runs mode nodes in (events ∷ streams, runs_also run runs)

  root_run : (mode : Mode) (root : Root) → (events : List Event) × RunsRoot mode stream root events
  root_run mode (group node) = let (events, run) = node_run mode node in (events, runs_group run)
  root_run mode (or_of id nodes) =
      let (streams, runs) = node_runs mode nodes in
      let env : Or.Surroundings = record { delivers = true; now = pos 0 } in
      let (messages, merges, del) =
        Merges_exists (λ (env : Or.Surroundings). env.delivers ≡ true) env
          (map Or.forward_or_child (map stream_readings streams)) refl in
      (_, runs_or id runs merges del)

-- buildConditionTree makes a tree of a canonical plan that has a run on any events of its leaves. Whenever
-- it is run on them to their ends, with every event delivered, in either mode and in any order of the
-- merged channels, the root emits exactly when the command line, as an OR of ANDs, is satisfied by the
-- conditions whose leaves emit.
pub build_condition_tree-emits :
    (env : Env) (groups : List ConditionGroup) (initial : List Bool) (mode : Mode)
    (stream : Text → List Event) {plan : Plan}
    → WholeLaws env
    → canonical_plan env groups ≡ ok plan
    → length initial ≡ length plan.conditions
    → (root : Root) × (build_condition_tree plan initial ≡ built root)
      × ((events : List Event) × RunsRoot mode stream root events)
      × ((events : List Event)
          → RunsRoot mode stream root events
          → emits events ≡ groups_hold (raw_satisfied env (λ spec. emits (stream spec.id))) groups)
build_condition_tree-emits env groups initial mode stream laws h n =
    let (root, e, meaning) =
      IsCanonical-built env groups initial (canonical_plan-IsCanonical env groups laws h) n in
    (
      root,
      e,
      root_run stream mode root,
      λ events run.
          emits_root stream mode run
          ∙ meaning (λ (l : Leaf). emits (stream l.id)) (λ spec. emits (stream spec.id))
              (λ k s b l at state leaf_of. ap (λ id. emits (stream id)) leaf_of.same_id),
    )
