-- ===== src/Condition/Or/Merged.antt =====
-- An OR on what the forwarders of its children send, merged in any order.
use outage.Base.{
  ℕ, zero, suc, ◌≤◌, true, false, none, some, List, [], ◌∷◌, map, length, get_or, set, All, ◌≡◌,
  inl, inr, refl, sym, ap, ◌∙◌, subst, arith, get_or-set_cases, length-map, Text,
}
use outage.Condition.Events.{Mode, Event, by_mode, composite_event}
use outage.Condition.Merging.{Readings, Merges, take}
use outage.Condition.Or.{Message, event, closed, Surroundings, Messages, forward_or_child, run}
use outage.Condition.Or.Forwarding.{forwarded, run-forwarded}

-- The events among the messages, each under the OR's id.
abbrev pub all_events : Text → Messages → List Event
all_events id [] = []
all_events id ((env, closed) ∷ messages) = all_events id messages
all_events id ((env, event e) ∷ messages) = composite_event id e env.now ∷ all_events id messages

-- The end of a stream is the last message of its queue.
abbrev IsSource : List Message → Type 0
IsSource [] = Unit
IsSource (event e ∷ queue) = IsSource queue
IsSource (closed ∷ queue) = queue ≡ []

forward-IsSource : (readings : Readings) → IsSource (forward_or_child readings)
unfolding forward_or_child
forward-IsSource [] = tt
forward-IsSource ((none, true) ∷ readings) = refl
forward-IsSource ((none, false) ∷ readings) = tt
forward-IsSource ((some e, true) ∷ readings) = forward-IsSource readings
forward-IsSource ((some e, false) ∷ readings) = tt

abbrev waiting : List (List Message) → ℕ
waiting [] = 0
waiting ([] ∷ queues) = waiting queues
waiting ((m ∷ queue) ∷ queues) = suc (waiting queues)

waiting_max : (queues : List (List Message)) → waiting queues ≤ length queues
waiting_max [] = omega arith
waiting_max ([] ∷ queues) = let h = waiting_max queues in omega arith
waiting_max ((m ∷ queue) ∷ queues) = let h = waiting_max queues in omega arith

-- Taking a message empties no other queue, and taking the last one empties its own.
waiting-taken :
    (queues : List (List Message)) (i : ℕ) {m : Message} {queue : List Message}
    → get_or queues i [] ≡ m ∷ queue
    → (waiting (set queues i queue) ≤ waiting queues) × (1 ≤ waiting queues)
waiting-taken [] i h = cc
waiting-taken ([] ∷ queues) zero h = cc
waiting-taken ((x ∷ q) ∷ queues) zero {queue = []} h = (omega arith, omega arith)
waiting-taken ((x ∷ q) ∷ queues) zero {queue = y ∷ ys} h = (omega arith, omega arith)
waiting-taken ([] ∷ queues) (suc i) h = waiting-taken queues i h
waiting-taken ((x ∷ q) ∷ queues) (suc i) h =
    let (a, b) = waiting-taken queues i h in (omega arith, omega arith)

waiting_emptied :
    (queues : List (List Message)) (i : ℕ) {m : Message}
    → get_or queues i [] ≡ m ∷ []
    → suc (waiting (set queues i [])) ≡ waiting queues
waiting_emptied [] i h = cc
waiting_emptied ([] ∷ queues) zero h = cc
waiting_emptied ((x ∷ q) ∷ queues) zero h = refl
waiting_emptied ([] ∷ queues) (suc i) h = waiting_emptied queues i h
waiting_emptied ((x ∷ q) ∷ queues) (suc i) h = ap suc (waiting_emptied queues i h)

abbrev AreSources : List (List Message) → Type 0
AreSources queues = (i : ℕ) → IsSource (get_or queues i [])

AreSources-set :
    (queues : List (List Message)) (i : ℕ) (queue : List Message)
    → AreSources queues
    → IsSource queue
    → AreSources (set queues i queue)
AreSources-set queues i queue v h j = elim (get_or-set_cases queues i j queue []) [
  | inl (_, q) ↦ subst IsSource (sym q) h
  | inr q ↦ subst IsSource (sym q) (v j)
]

-- While as many streams are counted as queues wait, no event is lost.
forwarded-all_events :
    (id : Text) (streams : ℕ) (messages : Messages) {queues : List (List Message)}
    → Merges queues messages
    → AreSources queues
    → waiting queues ≤ streams
    → forwarded id streams messages ≡ all_events id messages
forwarded-all_events id zero [] merges v w = refl
forwarded-all_events id (suc streams) [] merges v w = refl
forwarded-all_events id zero ((env, m) ∷ messages) (take {queues} i g rest) v w =
    absurd (let (_, n) = waiting-taken queues i g in omega arith)
forwarded-all_events id (suc streams) ((env, event e) ∷ messages)
      (take {queues} {queue = queue} i g rest) v w =
    let (less, _) = waiting-taken queues i g in
    let source : IsSource queue = subst IsSource g (v i) in
    ap (λ es. composite_event id e env.now ∷ es)
      (forwarded-all_events id (suc streams) messages rest (AreSources-set queues i queue v source)
        (omega arith))
forwarded-all_events id (suc streams) ((env, closed) ∷ messages)
      (take {queues} {queue = queue} i g rest) v w =
    let nil : queue ≡ [] = subst IsSource g (v i) in
    let n = waiting_emptied queues i (g ∙ ap (λ q. closed ∷ q) nil) in
    let n' : suc (waiting (set queues i queue)) ≡ waiting queues =
      subst (λ q. suc (waiting (set queues i q)) ≡ waiting queues) (sym nil) n in
    forwarded-all_events id streams messages rest
      (AreSources-set queues i queue v (subst IsSource (sym nil) tt)) (omega arith)

forwarders-AreSources : (children : List Readings) → AreSources (map forward_or_child children)
forwarders-AreSources [] i = tt
forwarders-AreSources (r ∷ children) zero = forward-IsSource r
forwarders-AreSources (r ∷ children) (suc i) = forwarders-AreSources children i

-- Whatever order the merged channel has, an OR whose children's forwarders have all ended, and whose
-- events are delivered, loses none of their events: in Continuous mode it emits all of them, in the
-- order of the channel, and in Once mode the first.
pub run-all_events :
    (id : Text) (mode : Mode) (children : List Readings) (messages : Messages)
    → Merges (map forward_or_child children) messages
    → All (λ (m : Surroundings × Message). m.0.delivers ≡ true) messages
    → run id mode (length children) messages ≡ by_mode mode (all_events id messages)
run-all_events id mode children messages merges delivered =
    let n : waiting (map forward_or_child children) ≤ length children =
      subst (λ k. waiting (map forward_or_child children) ≤ k)
        (length-map children forward_or_child) (waiting_max (map forward_or_child children)) in
    run-forwarded id mode (length children) messages delivered
    ∙ ap (by_mode mode) (
        forwarded-all_events id (length children) messages merges (forwarders-AreSources children)
          n)
