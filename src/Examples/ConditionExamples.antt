-- ===== src/Examples/ConditionExamples.antt =====
-- internal/condition at concrete messages.
use outage.Base.{◌≡◌, ◌≢◌, ◌↔◌, ◌<◌, ℕ, refl, List, [], ◌∷◌, ◌++◌, Bool, true, false, Text, codes}
use outage.Base.Int.{pos}
use outage.Condition.Events.{Event, once, continuous, by_mode}
use outage.Condition.And.Cycles.{Cycles}
use outage.Condition.And.Latch.{Messages}
use outage.Condition.And
use outage.Condition.Or.Forwarding.{forwarded, run-forwarded}
use outage.Condition.Or

abbrev pub from : Text → Event
from id = record { condition_id = id; source_ids = []; time = pos 5 }

abbrev pub steady : And.Surroundings
steady = record { delivers = true; now = pos 9 }

abbrev both : Messages
both =
    (steady, And.event 1 (from (codes "b")))
    ∷ (steady, And.event 1 (from (codes "b")))
    ∷ (steady, And.event 0 (from (codes "a")))
    ∷ []

abbrev both_event : Event
both_event = record {
  condition_id = codes "and:0";
  source_ids = codes "a" ∷ codes "b" ∷ [];
  time = pos 5;
}

both-run : And.run (codes "and:0") once 2 (pos 0) true both ≡ both_event ∷ []
unfolding And.run And.loop And.turn And.on_event And.latch And.publish And.aggregate And.collect
    And.initial And.all_matched outage.Condition.Events.event_sources
    outage.Condition.Events.append_unique outage.Condition.Events.is_member outage.Base.equal
both-run = refl

-- Two cycles, and the end of a stream in the third.
abbrev twice : Messages
twice = both ++ both ++ (steady, And.closed 0) ∷ []

twice-run : And.run (codes "and:0") continuous 2 (pos 0) true twice ≡ both_event ∷ both_event ∷ []
unfolding And.run And.loop And.turn And.on_event And.on_closed And.latch And.publish And.reset
    And.aggregate And.collect And.initial And.all_matched And.has_closed_child
    outage.Condition.Events.event_sources outage.Condition.Events.append_unique
    outage.Condition.Events.is_member outage.Base.equal
twice-run = refl

abbrev any : Or.Messages
any =
    (record { delivers = true; now = pos 9 }, Or.closed)
    ∷ (record { delivers = true; now = pos 9 }, Or.event (from (codes "b")))
    ∷ (record { delivers = true; now = pos 9 }, Or.event (from (codes "b")))
    ∷ []

run-forwarded_example :
    Or.run (codes "or:root") once 2 any ≡ by_mode once (forwarded (codes "or:root") 2 any)
run-forwarded_example = run-forwarded (codes "or:root") once 2 any (refl, (refl, (refl, tt)))
