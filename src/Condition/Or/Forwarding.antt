-- ===== src/Condition/Or/Forwarding.antt =====
-- What an OR emits, with no loop state.
use outage.Base.{ℕ, zero, suc, true, List, [], ◌∷◌, ◌≡◌, refl, ap, All, Text}
use outage.Condition.Events.{Mode, once, continuous, Event, by_mode, composite_event}
use outage.Condition.Or.{Message, event, closed, Surroundings, Messages, loop, run}

-- The children's events that an OR forwards: those before the last child's stream ends.
abbrev pub forwarded : Text → ℕ → Messages → List Event
forwarded id zero messages = []
forwarded id (suc streams) [] = []
forwarded id (suc streams) ((env, closed) ∷ messages) = forwarded id streams messages
forwarded id (suc streams) ((env, event e) ∷ messages) =
    composite_event id e env.now ∷ forwarded id (suc streams) messages

loop-forwarded :
    (id : Text) (mode : Mode) (messages : Messages) (streams : ℕ)
    → All (λ (m : Surroundings × Message). m.0.delivers ≡ true) messages
    → loop id mode messages streams ≡ by_mode mode (forwarded id streams messages)
unfolding loop
loop-forwarded id once [] zero h = refl
loop-forwarded id once [] (suc streams) h = refl
loop-forwarded id continuous [] zero h = refl
loop-forwarded id continuous [] (suc streams) h = refl
loop-forwarded id once ((env, event e) ∷ messages) zero h = refl
loop-forwarded id once ((env, closed) ∷ messages) zero h = refl
loop-forwarded id continuous ((env, event e) ∷ messages) zero h = refl
loop-forwarded id continuous ((env, closed) ∷ messages) zero h = refl
loop-forwarded id once ((env, closed) ∷ messages) (suc streams) h =
    loop-forwarded id once messages streams h.1
loop-forwarded id continuous ((env, closed) ∷ messages) (suc streams) h =
    loop-forwarded id continuous messages streams h.1
loop-forwarded id once ((env, event e) ∷ messages) (suc streams) h = rw h.0 refl
loop-forwarded id continuous ((env, event e) ∷ messages) (suc streams) h =
    let rest = loop-forwarded id continuous messages (suc streams) h.1 in
    rw h.0 (ap (λ l. composite_event id e env.now ∷ l) rest)

-- While events are delivered, an OR emits what its children emit until the last stream ends, each
-- event under the OR's id: all of it in Continuous mode, and the first event alone in Once mode.
pub run-forwarded :
    (id : Text) (mode : Mode) (children : ℕ) (messages : Messages)
    → All (λ (m : Surroundings × Message). m.0.delivers ≡ true) messages
    → run id mode children messages ≡ by_mode mode (forwarded id children messages)
unfolding run
run-forwarded id once zero messages h = refl
run-forwarded id continuous zero messages h = refl
run-forwarded id once (suc n) messages h = loop-forwarded id once messages (suc n) h
run-forwarded id continuous (suc n) messages h = loop-forwarded id continuous messages (suc n) h
