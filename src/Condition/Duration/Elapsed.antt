-- ===== src/Condition/Duration/Elapsed.antt =====
-- A duration condition emits once, when the duration has elapsed and not before.
use outage.Base.{
  Bool, true, false, List, [], ◌∷◌, ◌++◌, Text, ◌≡◌, ◌⊎◌, inl, inr, refl, sym, ap, ◌∙◌, subst,
  arith, Bool-cases, All,
}
use outage.Base.Int.{pos, ◌+ℤ◌, ◌≤ℤ◌, leb_ℤ, int_laws}
use outage.Time.Laws.{le_trans_ℤ, leb_ℤ-le, leb_ℤ-lt, sub_time-reached, sub_time_rest}
use outage.Time.{Time, Duration, max_int64}
use outage.Condition.Events.{Event}
use outage.Condition.Monitor.{
  Action, started, Wake, fired, timer_closed, cancelled, leaf_event, publish_if, stop_if, events_of,
  releases, events_of-append, events_of-stop_if, events_of-stop_if_last, stop_if-releases,
}
use outage.Condition.Duration.{
  DurationCondition, Surroundings, elapsed_of, immediate, on_wake, run, start_of, wait_of,
}

on_wake-releases :
    (id : Text) (delivers : Bool) (w : Wake) (live : Bool) (rest : List Action)
    → releases live (on_wake id delivers w ++ rest) ≡ releases live rest
on_wake-releases id true (fired t) true rest = refl
on_wake-releases id true (fired t) false rest = refl
on_wake-releases id false (fired t) live rest = refl
on_wake-releases id delivers timer_closed live rest = refl
on_wake-releases id delivers cancelled live rest = refl

immediate-releases :
    (id : Text) (env : Surroundings) (has_stop : Bool)
    → releases has_stop (stop_if has_stop ++ immediate id env) ≡ true
immediate-releases id env = go env.delivers
  where
    go :
        (delivers has_stop : Bool)
        → releases has_stop (stop_if has_stop ++ publish_if delivers (leaf_event id env.event_now))
          ≡ true
    go true true = refl
    go true false = refl
    go false true = refl
    go false false = refl

-- How a run goes: at once, or by a timer for the wait that is left.
data Course (condition : DurationCondition) (env : Surroundings) : List Action → Type 0 where
  at_once :
      leb_ℤ (wait_of condition env) (pos 0) ≡ true
      → Course condition env (immediate condition.id env)
  no_timer :
      leb_ℤ (wait_of condition env) (pos 0) ≡ false
      → env.timer.has_channel ≡ false
      → Course condition env (
          started env.timer (wait_of condition env) ∷ stop_if env.timer.has_stop
          ++ immediate condition.id env)
  by_timer :
      leb_ℤ (wait_of condition env) (pos 0) ≡ false
      → env.timer.has_channel ≡ true
      → Course condition env (
          started env.timer (wait_of condition env) ∷ on_wake condition.id env.delivers env.wake
          ++ stop_if env.timer.has_stop)

run-Course :
    (condition : DurationCondition) (env : Surroundings) → Course condition env (run condition env)
unfolding run
run-Course condition env = elim (Bool-cases (leb_ℤ (wait_of condition env) (pos 0))) [
  | inl now ↦ rw now (at_once now)
  | inr later ↦ elim (Bool-cases env.timer.has_channel) [
    | inl c ↦ subst (Course condition env) (ground arith) (by_timer later c)
    | inr c ↦ subst (Course condition env) (ground arith) (no_timer later c)
  ]
]

-- The timer, if one is made, is stopped once, on every path, and nothing else is stopped.
pub run-releases :
    (condition : DurationCondition) (env : Surroundings) → releases false (run condition env) ≡ true
run-releases condition env = go (run-Course condition env)
  where
    go : {actions : List Action} → Course condition env actions → releases false actions ≡ true
    go (at_once h) = immediate-releases condition.id env false
    go (no_timer h c) = immediate-releases condition.id env env.timer.has_stop
    go (by_timer h c) =
        on_wake-releases condition.id env.delivers env.wake env.timer.has_stop
          (stop_if env.timer.has_stop)
        ∙ stop_if-releases env.timer.has_stop

-- A duration of the command line, a clock that has not gone back behind the start or between its
-- readings, and a timer that has a channel and fires no earlier than its wait after it is made.
pub record IsTimely (condition : DurationCondition) (env : Surroundings) : Type 0 where
  pub from : pos 0 ≤ℤ condition.duration
  pub to : condition.duration ≤ℤ max_int64
  pub since_start : start_of condition.start_time env.first_now ≤ℤ env.second_now
  pub forward : env.second_now ≤ℤ env.event_now
  pub channel : env.timer.has_channel ≡ true
  pub timer_waits : (t : Time) → env.wake ≡ fired t → env.second_now +ℤ wait_of condition env ≤ℤ t

-- The event is at an instant when the duration has elapsed from the start.
abbrev pub IsElapsed : DurationCondition → Surroundings → Event → Type 0
IsElapsed condition env e =
    start_of condition.start_time env.first_now +ℤ condition.duration ≤ℤ e.time

module _ (condition : DurationCondition) (env : Surroundings)
    (timely : IsTimely condition env) where
  abbrev start : Time
  start = start_of condition.start_time env.first_now

  abbrev elapsed : Duration
  elapsed = elapsed_of condition env

  -- The duration has elapsed at the second reading, or the wait goes on to where it will have.
  wait_of-cases :
      (wait_of condition env ≡ pos 0) × (start +ℤ condition.duration ≤ℤ env.second_now)
      ⊎ (env.second_now +ℤ wait_of condition env ≡ start +ℤ condition.duration)
  unfolding wait_of
  wait_of-cases = elim (Bool-cases (leb_ℤ condition.duration elapsed)) [
    | inl enough ↦ inl (
      rw enough refl,
      sub_time-reached env.second_now start condition.duration timely.since_start
          (leb_ℤ-le condition.duration elapsed enough),
    )
    | inr short ↦ inr (
        rw short (
          sub_time_rest env.second_now start condition.duration timely.since_start timely.from
            timely.to (leb_ℤ-lt condition.duration elapsed short)))
  ]

  wait_of-elapsed :
      leb_ℤ (wait_of condition env) (pos 0) ≡ true → start +ℤ condition.duration ≤ℤ env.second_now
  wait_of-elapsed h =
      let w = leb_ℤ-le (wait_of condition env) (pos 0) h in
      elim wait_of-cases [
        | inl (e, le) ↦ le
        | inr e ↦ subst (λ z. z ≤ℤ env.second_now) e (omega int_laws)
      ]

  wait_of-fired :
      {t : Time}
      → leb_ℤ (wait_of condition env) (pos 0) ≡ false
      → env.wake ≡ fired t
      → start +ℤ condition.duration ≤ℤ t
  wait_of-fired {t} h w = elim wait_of-cases [
    | inl (e, le) ↦ cc (sym h ∙ ap (λ z. leb_ℤ z (pos 0)) e)
    | inr e ↦ subst (λ z. z ≤ℤ t) e (timely.timer_waits t w)
  ]

  publish_if-IsElapsed :
      (delivers : Bool) (at : Time)
      → start +ℤ condition.duration ≤ℤ at
      → All (IsElapsed condition env) (events_of (publish_if delivers (leaf_event condition.id at)))
  publish_if-IsElapsed true at h = (h, tt)
  publish_if-IsElapsed false at h = tt

  on_wake-IsElapsed :
      (w : Wake)
      → leb_ℤ (wait_of condition env) (pos 0) ≡ false
      → env.wake ≡ w
      → All (IsElapsed condition env) (events_of (on_wake condition.id env.delivers w))
  on_wake-IsElapsed (fired t) h e = publish_if-IsElapsed env.delivers t (wait_of-fired h e)
  on_wake-IsElapsed timer_closed h e = tt
  on_wake-IsElapsed cancelled h e = tt

-- Every event of a duration condition is at an instant when the duration has elapsed from its start.
pub run-IsElapsed :
    (condition : DurationCondition) (env : Surroundings)
    → IsTimely condition env
    → All (IsElapsed condition env) (events_of (run condition env))
run-IsElapsed condition env timely = go (run-Course condition env)
  where
    go :
        {actions : List Action}
        → Course condition env actions
        → All (IsElapsed condition env) (events_of actions)
    go (at_once h) =
        let le = wait_of-elapsed condition env timely h in
        publish_if-IsElapsed condition env timely env.delivers env.event_now (
          le_trans_ℤ (start condition env timely +ℤ condition.duration) env.second_now env.event_now
            le timely.forward)
    go (no_timer h c) = cc (sym c ∙ timely.channel)
    go (by_timer h c) =
        rw (events_of-stop_if_last (on_wake condition.id env.delivers env.wake) env.timer.has_stop)
          (on_wake-IsElapsed condition env timely env.wake h refl)

-- When its timer fires and its event is sent, a duration condition emits exactly one event.
pub run_emits_one :
    (condition : DurationCondition) (env : Surroundings) {t : Time}
    → env.delivers ≡ true
    → env.wake ≡ fired t
    → (at : Time) × (events_of (run condition env) ≡ leaf_event condition.id at ∷ [])
run_emits_one condition env {t} d w = go (run-Course condition env)
  where
    go :
        {actions : List Action}
        → Course condition env actions
        → (at : Time) × (events_of actions ≡ leaf_event condition.id at ∷ [])
    go (at_once h) = (env.event_now, rw d refl)
    go (no_timer h c) = (
      env.event_now,
      events_of-append (stop_if env.timer.has_stop) (immediate condition.id env)
          ∙ rw (events_of-stop_if env.timer.has_stop, d) refl,
    )
    go (by_timer h c) = (
      t,
      events_of-stop_if_last (on_wake condition.id env.delivers env.wake) env.timer.has_stop
          ∙ rw (w, d) refl,
    )
