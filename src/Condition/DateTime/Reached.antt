-- ===== src/Condition/DateTime/Reached.antt =====
-- A datetime condition emits nothing before its deadline.
use outage.Base.{Bool, true, false, List, [], ◌∷◌, Text, ◌≡◌, inl, inr, sym, ◌∙◌, subst, arith, All}
use outage.Base.Int.{pos, ◌+ℤ◌, ◌≤ℤ◌, ◌<ℤ◌, leb_ℤ, eq_of_parts}
use outage.Time.Laws.{leb_ℤ-le, ltb_ℤ-le, sub_time_pos}
use outage.Time.{Time, Duration, sub_time}
use outage.Condition.Monitor.{
  Action, started, fired, stop_if, events_of, events_of-stop_if, events_of-stop_if_first,
}
use outage.Condition.DateTime.Course.{
  Course, emits, rearms, no_channel, returns, emit_deadline-Course, Start, at_once, waits, no_timer,
  run-Start,
}
use outage.Condition.DateTime.{
  DateTimeCondition, Surroundings, Round, is_capped, emit_deadline, run,
}

-- A timer that was made at `armed` for `wait` fires no earlier than then, and so does every timer that
-- a round arms again.
abbrev pub Timely : Time → Time → Duration → List Round → Type 0
Timely deadline armed wait [] = Unit {0}
Timely deadline armed wait (r ∷ rounds) =
    ((t : Time) → r.wake ≡ fired t → armed +ℤ wait ≤ℤ r.now)
    × Timely deadline r.now (sub_time deadline r.now) rounds

pub is_capped-false :
    (current : Time) (wait : Duration) (deadline : Time)
    → is_capped current wait deadline ≡ false
    → current +ℤ wait ≡ deadline
is_capped-false current wait deadline h = eq_of_parts (current +ℤ wait) deadline (ground arith)

-- No select before the deadline lets the loop emit.
emit_deadline_early :
    (id : Text) (deadline armed : Time) (has_stop : Bool) (rounds : List Round)
    → Timely deadline armed (sub_time deadline armed) rounds
    → All (λ (r : Round). r.now <ℤ deadline) rounds
    → events_of (
        emit_deadline id deadline
          (is_capped armed (sub_time deadline armed) deadline)
          has_stop
          rounds)
      ≡ []
emit_deadline_early id deadline armed has_stop [] timely early =
    unfold emit_deadline in events_of-stop_if has_stop
emit_deadline_early id deadline armed has_stop (r ∷ rounds) timely early =
    go (emit_deadline-Course id deadline _ has_stop r rounds)
      (emit_deadline_early id deadline r.now r.timer.has_stop rounds timely.1 early.1)
  where
    late :
        {t : Time}
        → r.wake ≡ fired t
        → is_capped armed (sub_time deadline armed) deadline ≡ false
        → ⊥
    late {t} e c =
        let le =
          subst (λ z. z ≤ℤ r.now) (is_capped-false armed (sub_time deadline armed) deadline c)
            (timely.0 t e) in
        let lt = early.0 in absurd (omega arith)

    past : leb_ℤ (sub_time deadline r.now) (pos 0) ≡ true → ⊥
    past w =
        let le = leb_ℤ-le (sub_time deadline r.now) (pos 0) w in
        let p = sub_time_pos deadline r.now early.0 in absurd (omega arith)

    go :
        {actions : List Action}
        → Course id deadline
            (is_capped armed (sub_time deadline armed) deadline)
            has_stop
            r
            rounds
            actions
        → events_of (
            emit_deadline id deadline
              (is_capped r.now (sub_time deadline r.now) deadline)
              r.timer.has_stop
              rounds)
          ≡ []
        → events_of actions ≡ []
    go (emits e (inl c)) ih = absurd (late e c)
    go (emits e (inr w)) ih = absurd (past w)
    go (rearms e c w h) ih =
        events_of-stop_if_first has_stop (
          started r.timer (sub_time deadline r.now)
          ∷ emit_deadline id deadline (is_capped r.now (sub_time deadline r.now) deadline)
              r.timer.has_stop rounds)
        ∙ ih
    go (no_channel e h) ih =
        events_of-stop_if_first has_stop
          (started r.timer (sub_time deadline r.now) ∷ stop_if r.timer.has_stop)
        ∙ events_of-stop_if r.timer.has_stop
    go (returns n) ih = events_of-stop_if has_stop

-- While the clock is before the deadline a run emits nothing, however often its timers fire, if each
-- fires no earlier than its wait after it is made.
pub run_early :
    (condition : DateTimeCondition) (env : Surroundings)
    → env.first_now <ℤ condition.deadline
    → env.second_now <ℤ condition.deadline
    → env.timer.has_channel ≡ true
    → Timely condition.deadline env.second_now
        (sub_time condition.deadline env.second_now)
        env.rounds
    → All (λ (r : Round). r.now <ℤ condition.deadline) env.rounds
    → events_of (run condition env) ≡ []
run_early condition env first second channel timely early = go (run-Start condition env)
  where
    go : {actions : List Action} → Start condition env actions → events_of actions ≡ []
    go (at_once (inl h)) = absurd (omega (arith, ltb_ℤ-le env.first_now condition.deadline h))
    go (at_once (inr h)) = absurd (
        omega (
          arith,
          ltb_ℤ-le (pos 0) (sub_time condition.deadline env.second_now) h,
          sub_time_pos condition.deadline env.second_now second,
        ))
    go (waits b c h) =
        emit_deadline_early condition.id condition.deadline env.second_now env.timer.has_stop
          env.rounds timely early
    go (no_timer h) = cc (sym h ∙ channel)
