-- ===== src/Condition/File/Rises.antt =====
-- A file condition emits when its path becomes a regular file.
use outage.Base.{
  Bool, true, not, ◌&&◌, none, List, [], ◌∷◌, map, if◌then◌else◌, Text, ◌≡◌, refl, All, arith,
}
use outage.Base.Int.{pos}
use outage.Condition.Events.{Event, Mode, once, continuous, by_mode}
use outage.Condition.Monitor.{leaf_event}
use outage.Condition.File.{Observation, is_regular_file, poll, run}

-- The neighbours in a list.
abbrev pub neighbours {ℓ} : {A : Type ℓ} → A → List A → List (A × A)
neighbours before [] = []
neighbours before (a ∷ rest) = (before, a) ∷ neighbours a rest

abbrev pub keep {ℓ} : {A : Type ℓ} → (A → Bool) → List A → List A
keep p [] = []
keep p (a ∷ rest) = if p a then a ∷ keep p rest else keep p rest

-- The path is a regular file at the second observation and was none at the first.
abbrev pub is_rise : Observation × Observation → Bool
is_rise (a, b) = not (is_regular_file a.stat) && is_regular_file b.stat

-- Before the first observation there is no file.
abbrev pub absent : Observation
absent = record { stat = none; now = pos 0; delivers = true }

abbrev pub rises : Text → Observation → List Observation → List Event
rises id before observations =
    map (λ (p : Observation × Observation). leaf_event id p.1.now)
      (keep is_rise (neighbours before observations))

poll-rises :
    (id : Text) (mode : Mode) (before : Observation) (ticks : List Observation)
    → All (λ (o : Observation). o.delivers ≡ true) ticks
    → poll id mode (is_regular_file before.stat) ticks ≡ by_mode mode (rises id before ticks)
unfolding poll
poll-rises id once before [] h = refl
poll-rises id continuous before [] h = refl
poll-rises id once before (o ∷ ticks) h = ground (arith, poll-rises id once o ticks h.1)
poll-rises id continuous before (o ∷ ticks) h = ground (arith, poll-rises id continuous o ticks h.1)

-- While events are sent, a file condition emits at each observation of a regular file that follows none
-- of one, the first observation included, or at the first such alone in Once mode.
pub run-rises :
    (id : Text) (mode : Mode) (first : Observation) (ticks : List Observation)
    → All (λ (o : Observation). o.delivers ≡ true) (first ∷ ticks)
    → run id mode first ticks ≡ by_mode mode (rises id absent (first ∷ ticks))
unfolding run
run-rises id once first ticks h = ground (arith, poll-rises id once first ticks h.1)
run-rises id continuous first ticks h = ground (arith, poll-rises id continuous first ticks h.1)
