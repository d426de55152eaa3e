-- ===== src/Condition/Monitor.antt =====
-- What the monitors of single conditions share: what they do, in order, and how it is read.
use outage.Base.{Bool, true, false, not, List, [], ◌∷◌, ◌++◌, Text, ◌≡◌, refl, ap, ◌∙◌, append-nil}
use outage.Time.{Time, Duration}
use outage.Condition.Events.{Event}
use outage.Condition.Runtime.{Timer}

-- A run makes a timer, stops the last one, and publishes.
pub data Action : Type 0 where
  started : Timer → Duration → Action
  stopped : Action
  published : Event → Action

-- What a select on a timer's channel and ctx.Done receives.
pub data Wake : Type 0 where
  fired : Time → Wake
  timer_closed : Wake
  cancelled : Wake

-- The event of a single condition.
abbrev pub leaf_event : Text → Time → Event
leaf_event id at = record { condition_id = id; source_ids = id ∷ []; time = at }

-- A select that sends an event, unless ctx.Done is taken.
abbrev pub publish_if : Bool → Event → List Action
publish_if true e = published e ∷ []
publish_if false e = []

-- A call of stopTimer, unless it is nil.
abbrev pub stop_if : Bool → List Action
stop_if true = stopped ∷ []
stop_if false = []

abbrev pub events_of : List Action → List Event
events_of [] = []
events_of (started t d ∷ actions) = events_of actions
events_of (stopped ∷ actions) = events_of actions
events_of (published e ∷ actions) = e ∷ events_of actions

-- Each timer that can be stopped is stopped once before the next one is made and before the end, and
-- nothing else is stopped; `live` is whether one has to be stopped at the start.
abbrev pub releases : Bool → List Action → Bool
releases live [] = not live
releases live (published e ∷ actions) = releases live actions
releases true (started t d ∷ actions) = false
releases false (started t d ∷ actions) = releases t.has_stop actions
releases true (stopped ∷ actions) = releases false actions
releases false (stopped ∷ actions) = false

pub events_of-append :
    (actions rest : List Action) → events_of (actions ++ rest) ≡ events_of actions ++ events_of rest
events_of-append [] rest = refl
events_of-append (started t d ∷ actions) rest = events_of-append actions rest
events_of-append (stopped ∷ actions) rest = events_of-append actions rest
events_of-append (published e ∷ actions) rest =
    ap (λ (l : List Event). e ∷ l) (events_of-append actions rest)

pub events_of-stop_if : (has_stop : Bool) → events_of (stop_if has_stop) ≡ []
events_of-stop_if true = refl
events_of-stop_if false = refl

pub stop_if-releases : (has_stop : Bool) → releases has_stop (stop_if has_stop) ≡ true
stop_if-releases true = refl
stop_if-releases false = refl

pub events_of-stop_if_last :
    (actions : List Action) (has_stop : Bool)
    → events_of (actions ++ stop_if has_stop) ≡ events_of actions
events_of-stop_if_last actions has_stop =
    events_of-append actions (stop_if has_stop)
    ∙ ap (λ l. events_of actions ++ l) (events_of-stop_if has_stop)
    ∙ append-nil (events_of actions)

pub events_of-stop_if_first :
    (has_stop : Bool) (rest : List Action) → events_of (stop_if has_stop ++ rest) ≡ events_of rest
events_of-stop_if_first true rest = refl
events_of-stop_if_first false rest = refl

pub stop_if_first-releases :
    (has_stop : Bool) (rest : List Action)
    → releases has_stop (stop_if has_stop ++ rest) ≡ releases false rest
stop_if_first-releases true rest = refl
stop_if_first-releases false rest = refl

pub publish_if-releases :
    (delivers live : Bool) (e : Event) (rest : List Action)
    → releases live (publish_if delivers e ++ rest) ≡ releases live rest
publish_if-releases true true e rest = refl
publish_if-releases true false e rest = refl
publish_if-releases false live e rest = refl
