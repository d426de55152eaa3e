-- ===== src/Condition/DateTime/Rearmed.antt =====
-- A datetime condition emits in the end: each timer that Time.Sub cuts short takes the clock on by the
-- longest duration.
use outage.Base.{
  ℕ, suc, ◌*◌, Bool, true, false, not, List, [], ◌∷◌, length, Text, ◌≡◌, inl, inr, refl, sym, ap,
  ◌∙◌, subst, arith, All, Bool-cases,
}
use outage.Base.Int.{ℤ, pos, ◌+ℤ◌, ◌-ℤ◌, ◌≤ℤ◌, ◌<ℤ◌, ltb_ℤ, eqb_ℤ, int_laws}
use outage.Time.Laws.{leb_ℤ-lt, ltb_ℤ-le, ltb_ℤ-lt, sub_time-cases, sub_time_nonpos}
use outage.Time.{Time, sub_time, max_int64}
use outage.Condition.Monitor.{
  Action, started, fired, leaf_event, publish_if, events_of, events_of-stop_if_last,
  events_of-stop_if_first,
}
use outage.Condition.DateTime.Course.{
  Course, emits, rearms, no_channel, returns, emit_deadline-Course, Start, at_once, waits, no_timer,
  run-Start,
}
use outage.Condition.DateTime.Reached.{Timely}
use outage.Condition.DateTime.{
  DateTimeCondition, Surroundings, Round, is_capped, emit_deadline, run,
}

-- The timer fires, an event is sent, and a new timer has a channel.
pub record IsFiring (r : Round) : Type 0 where
  pub at : Time
  pub wake : r.wake ≡ fired at
  pub delivers : r.delivers ≡ true
  pub channel : r.timer.has_channel ≡ true

eqb_ℤ-refl : (a : ℤ) → eqb_ℤ a a ≡ true
eqb_ℤ-refl a = ground arith

capped_max :
    (deadline armed : Time)
    → armed <ℤ deadline
    → is_capped armed (sub_time deadline armed) deadline ≡ true
    → sub_time deadline armed ≡ max_int64
capped_max deadline armed lt c = elim (sub_time-cases deadline armed) [
  | inl e ↦ cc (sym c ∙ ap (λ w. is_capped armed w deadline) e ∙ exact)
  | inr (inl (e, big)) ↦ e
  | inr (inr (e, small)) ↦ absurd (omega int_laws)
]
  where
    exact : is_capped armed (deadline -ℤ armed) deadline ≡ false
    exact =
        let e : armed +ℤ (deadline -ℤ armed) ≡ deadline = omega int_laws in
        ap (λ z. not (eqb_ℤ z deadline)) e ∙ ap not (eqb_ℤ-refl deadline)

-- A wait that is left is one for a deadline that is not reached.
sub_time-lt : (deadline now : Time) → pos 0 <ℤ sub_time deadline now → now <ℤ deadline
sub_time-lt deadline now h = elim (Bool-cases (ltb_ℤ now deadline)) [
  | inl lt ↦ ltb_ℤ-lt now deadline lt
  | inr ge ↦ absurd (omega (arith, ltb_ℤ-le now deadline ge, sub_time_nonpos deadline now))
]

-- The deadline is within as many of the longest durations as there are rounds.
abbrev pub IsWithin : ℕ → Time → Time → Type 0
IsWithin n deadline armed = deadline ≤ℤ armed +ℤ pos (n * 9_223_372_036_854_775_807)

IsWithin-next :
    (n : ℕ) (deadline armed now : Time)
    → IsWithin (suc n) deadline armed
    → armed +ℤ max_int64 ≤ℤ now
    → IsWithin n deadline now
IsWithin-next n deadline armed now h k = omega int_laws

emit_deadline_emits :
    (id : Text) (deadline armed : Time) (has_stop : Bool) (rounds : List Round)
    → armed <ℤ deadline
    → IsWithin (length rounds) deadline armed
    → Timely deadline armed (sub_time deadline armed) rounds
    → All IsFiring rounds
    → (at : Time) × (events_of (
          emit_deadline id deadline
            (is_capped armed (sub_time deadline armed) deadline)
            has_stop
            rounds)
        ≡ leaf_event id at ∷ [])
emit_deadline_emits id deadline armed has_stop [] lt within timely firing = absurd (omega int_laws)
emit_deadline_emits id deadline armed has_stop (r ∷ rounds) lt within timely firing =
    go (emit_deadline-Course id deadline _ has_stop r rounds) (λ before later.
      emit_deadline_emits id deadline r.now r.timer.has_stop rounds before later timely.1 firing.1)
  where
    f : IsFiring r
    f = firing.0

    go :
        {actions : List Action}
        → Course id deadline
            (is_capped armed (sub_time deadline armed) deadline)
            has_stop
            r
            rounds
            actions
        → (r.now <ℤ deadline
            → IsWithin (length rounds) deadline r.now
            → (at : Time) × (events_of (
                  emit_deadline id deadline
                    (is_capped r.now (sub_time deadline r.now) deadline)
                    r.timer.has_stop
                    rounds)
                ≡ leaf_event id at ∷ []))
        → (at : Time) × (events_of actions ≡ leaf_event id at ∷ [])
    go (emits {t} e why) ih = (
      t,
      events_of-stop_if_last (publish_if r.delivers (leaf_event id t)) has_stop
          ∙ rw f.delivers refl,
    )
    go (rearms {t} e c w h) ih =
        let before = sub_time-lt deadline r.now (leb_ℤ-lt (sub_time deadline r.now) (pos 0) w) in
        let k = subst (λ d. armed +ℤ d ≤ℤ r.now) (capped_max deadline armed lt c) (timely.0 t e) in
        let (at, q) = ih before (IsWithin-next (length rounds) deadline armed r.now within k) in
        (
          at,
          events_of-stop_if_first has_stop (
                started r.timer (sub_time deadline r.now)
                ∷ emit_deadline id deadline (is_capped r.now (sub_time deadline r.now) deadline)
                    r.timer.has_stop rounds)
              ∙ q,
        )
    go (no_channel e h) ih = cc (sym h ∙ f.channel)
    go (returns n) ih = absurd (n f.at f.wake)

-- If each timer fires, no earlier than its wait after it is made, and events are sent, then a run emits
-- exactly one event, within as many timers as the longest duration, 2 ^ 63 - 1 nanoseconds, fits into
-- the time that is left at the second reading of the clock, rounded up.
pub run_emits_in_time :
    (condition : DateTimeCondition) (env : Surroundings)
    → env.delivers ≡ true
    → env.timer.has_channel ≡ true
    → IsWithin (length env.rounds) condition.deadline env.second_now
    → Timely condition.deadline env.second_now
        (sub_time condition.deadline env.second_now)
        env.rounds
    → All IsFiring env.rounds
    → (at : Time) × (events_of (run condition env) ≡ leaf_event condition.id at ∷ [])
run_emits_in_time condition env delivers channel within timely firing = go (run-Start condition env)
  where
    go :
        {actions : List Action}
        → Start condition env actions
        → (at : Time) × (events_of actions ≡ leaf_event condition.id at ∷ [])
    go (at_once h) = (env.event_now, rw delivers refl)
    go (waits b c h) =
        emit_deadline_emits condition.id condition.deadline env.second_now env.timer.has_stop
          env.rounds
          (sub_time-lt condition.deadline env.second_now
            (ltb_ℤ-lt (pos 0) (sub_time condition.deadline env.second_now) c))
          within timely firing
    go (no_timer h) = cc (sym h ∙ channel)
