-- ===== src/Condition/Or/Emission.antt =====
-- An OR emits if one of its children does.
use outage.Base.{
  ℕ, zero, suc, Bool, true, false, ◌||◌, List, [], ◌∷◌, any, map, length, get_or, set, All, ◌≡◌,
  refl, sym, ap, ◌∙◌, Text,
}
use outage.Condition.Events.{Mode, once, continuous, Event, by_mode, emits}
use outage.Condition.Merging.{Readings, Merges, done, take}
use outage.Condition.Or.{Message, event, closed, Surroundings, Messages, forward_or_child, run}
use outage.Condition.Or.Merged.{all_events, run-all_events}

abbrev pub is_event : Message → Bool
is_event closed = false
is_event (event e) = true

abbrev pub has_event : List Message → Bool
has_event = any is_event

emits-by_mode : (mode : Mode) (events : List Event) → emits (by_mode mode events) ≡ emits events
emits-by_mode once [] = refl
emits-by_mode once (e ∷ events) = refl
emits-by_mode continuous events = refl

has_event-nil :
    (queues : List (List Message))
    → ((i : ℕ) → get_or queues i [] ≡ [])
    → any has_event queues ≡ false
has_event-nil [] h = refl
has_event-nil (q ∷ queues) h = let e : q ≡ [] = h 0 in rw e (has_event-nil queues (λ i. h (suc i)))

has_event-taken :
    (queues : List (List Message)) (i : ℕ) {m : Message} {queue : List Message}
    → get_or queues i [] ≡ m ∷ queue
    → any has_event queues ≡ is_event m || any has_event (set queues i queue)
has_event-taken [] i h = cc
has_event-taken (q ∷ queues) zero {m} {queue} h =
    rw h (or_assoc (is_event m) (has_event queue) (any has_event queues))
  where
    or_assoc : (a b c : Bool) → (a || b) || c ≡ a || (b || c)
    or_assoc true b c = refl
    or_assoc false b c = refl
has_event-taken (q ∷ queues) (suc i) {m} {queue} h =
    ap (λ b. has_event q || b) (has_event-taken queues i h)
    ∙ or_swap (has_event q) (is_event m) (any has_event (set queues i queue))
  where
    or_swap : (a b c : Bool) → a || (b || c) ≡ b || (a || c)
    or_swap true true c = refl
    or_swap true false c = refl
    or_swap false b c = refl

emits-all_events :
    (id : Text) (messages : Messages) {queues : List (List Message)}
    → Merges queues messages
    → emits (all_events id messages) ≡ any has_event queues
emits-all_events id [] (done {queues} h) = sym (has_event-nil queues h)
emits-all_events id ((env, closed) ∷ messages) (take {queues} i g rest) =
    emits-all_events id messages rest ∙ sym (has_event-taken queues i g)
emits-all_events id ((env, event e) ∷ messages) (take {queues} i g rest) =
    sym (has_event-taken queues i g)

-- In either mode, an OR emits exactly if one of its children forwards an event.
pub emits-run :
    (id : Text) (mode : Mode) (children : List Readings) (messages : Messages)
    → Merges (map forward_or_child children) messages
    → All (λ (m : Surroundings × Message). m.0.delivers ≡ true) messages
    → emits (run id mode (length children) messages) ≡ any has_event (map forward_or_child children)
emits-run id mode children messages merges delivered =
    ap emits (run-all_events id mode children messages merges delivered)
    ∙ emits-by_mode mode (all_events id messages)
    ∙ emits-all_events id messages merges
