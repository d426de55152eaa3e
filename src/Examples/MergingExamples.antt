-- ===== src/Examples/MergingExamples.antt =====
-- The forwarders of internal/condition/and.go and or.go at concrete streams.
use outage.Base.{
  ◌≡◌, ◌≢◌, ◌↔◌, ◌<◌, ℕ, zero, suc, refl, List, [], ◌∷◌, true, some, none, Text, codes, map, get_or,
}
use outage.Base.Int.{pos}
use outage.Condition.Events.{continuous, by_mode}
use outage.Condition.Merging.{Readings, Merges, done, take}
use outage.Condition.And.Latch.{Messages}
use outage.Condition.And.Forwarded.{Sends, run_emits_forwarded}
use outage.Condition.And
use outage.Condition.Or.Merged.{all_events, run-all_events}
use outage.Condition.Or
use outage.Examples.ConditionExamples.{from, steady}

-- Each child emits once, and its stream ends.
abbrev ending : Text → Readings
ending id = (some (from id), true) ∷ (none, true) ∷ []

abbrev children : List Readings
children = ending (codes "a") ∷ ending (codes "b") ∷ []

-- The second child is done before the first one emits.
abbrev indexed : Messages
indexed =
    (steady, And.event 1 (from (codes "b")))
    ∷ (steady, And.closed 1)
    ∷ (steady, And.event 0 (from (codes "a")))
    ∷ (steady, And.closed 0)
    ∷ []

emptied : {A : Type 0} (i : ℕ) → get_or {A = List A} ([] ∷ [] ∷ []) i [] ≡ []
emptied zero = refl
emptied (suc zero) = refl
emptied (suc (suc i)) = refl

indexed-Merges : Merges (And.forwarders 0 children) indexed
unfolding And.forwarders And.forward_indexed_child
indexed-Merges = take 1 refl (take 1 refl (take 0 refl (take 0 refl (done emptied))))

run_emits_forwarded_example :
    (And.run (codes "and:0") continuous 2 (pos 0) true indexed ≢ [])
    ↔ ((i : ℕ) → i < 2 → Sends (get_or children i []))
run_emits_forwarded_example =
    run_emits_forwarded (codes "and:0") continuous 1 (pos 0) true children indexed refl
      indexed-Merges (refl, (refl, (refl, (refl, tt))))

abbrev calm : Or.Surroundings
calm = record { delivers = true; now = pos 9 }

abbrev plain : Or.Messages
plain =
    (calm, Or.event (from (codes "b")))
    ∷ (calm, Or.closed)
    ∷ (calm, Or.event (from (codes "a")))
    ∷ (calm, Or.closed)
    ∷ []

plain-Merges : Merges (map Or.forward_or_child children) plain
unfolding Or.forward_or_child
plain-Merges = take 1 refl (take 1 refl (take 0 refl (take 0 refl (done emptied))))

run-all_events_example :
    Or.run (codes "or:root") continuous 2 plain
    ≡ by_mode continuous (all_events (codes "or:root") plain)
run-all_events_example =
    run-all_events (codes "or:root") continuous children plain plain-Merges
      (refl, (refl, (refl, (refl, tt))))
