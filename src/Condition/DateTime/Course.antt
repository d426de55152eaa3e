-- ===== src/Condition/DateTime/Course.antt =====
-- The ways in which a run of a datetime condition goes on.
use outage.Base.{
  Bool, true, false, not, List, ◌∷◌, ◌++◌, if◌then◌else◌, Text, ◌≡◌, ◌⊎◌, inl, inr, refl,
}
use outage.Base.Int.{pos, ltb_ℤ, leb_ℤ}
use outage.Time.{Time, Duration, sub_time}
use outage.Condition.Monitor.{
  Action, started, Wake, fired, timer_closed, cancelled, leaf_event, publish_if, stop_if,
}
use outage.Condition.DateTime.{
  DateTimeCondition, Surroundings, Round, is_capped, after_wake, emit_deadline, immediate, run,
}

-- What a select does to the loop: it returns after an event, or without one; or it arms the timer
-- again, which may give it a nil channel.
pub data Course (id : Text) (deadline : Time) (capped has_stop : Bool) (r : Round)
    (rounds : List Round) : List Action → Type 0 where
  emits :
      {t : Time}
      → r.wake ≡ fired t
      → (capped ≡ false) ⊎ (leb_ℤ (sub_time deadline r.now) (pos 0) ≡ true)
      → Course id deadline capped has_stop r rounds
          (publish_if r.delivers (leaf_event id t) ++ stop_if has_stop)
  rearms :
      {t : Time}
      → r.wake ≡ fired t
      → capped ≡ true
      → leb_ℤ (sub_time deadline r.now) (pos 0) ≡ false
      → r.timer.has_channel ≡ true
      → Course id deadline capped has_stop r rounds (
          stop_if has_stop
          ++ started r.timer (sub_time deadline r.now)
            ∷ emit_deadline id deadline
                (is_capped r.now (sub_time deadline r.now) deadline)
                r.timer.has_stop
                rounds)
  no_channel :
      {t : Time}
      → r.wake ≡ fired t
      → r.timer.has_channel ≡ false
      → Course id deadline capped has_stop r rounds
          (stop_if has_stop ++ started r.timer (sub_time deadline r.now) ∷ stop_if r.timer.has_stop)
  returns :
      ((t : Time) → r.wake ≡ fired t → ⊥)
      → Course id deadline capped has_stop r rounds (stop_if has_stop)

pub emit_deadline-Course :
    (id : Text) (deadline : Time) (capped has_stop : Bool) (r : Round) (rounds : List Round)
    → Course id deadline capped has_stop r rounds
        (emit_deadline id deadline capped has_stop (r ∷ rounds))
unfolding emit_deadline
emit_deadline-Course id deadline capped has_stop r rounds = go r.wake refl
  where
    rest : List Action
    rest =
        emit_deadline id deadline (is_capped r.now (sub_time deadline r.now) deadline)
          r.timer.has_stop rounds

    fires :
        (c b h : Bool) {t : Time}
        → r.wake ≡ fired t
        → capped ≡ c
        → leb_ℤ (sub_time deadline r.now) (pos 0) ≡ b
        → r.timer.has_channel ≡ h
        → Course id deadline capped has_stop r rounds (
            if not c
            then publish_if r.delivers (leaf_event id t) ++ stop_if has_stop
            else if b
            then publish_if r.delivers (leaf_event id t) ++ stop_if has_stop
            else stop_if has_stop
              ++ started r.timer (sub_time deadline r.now)
                ∷ (if h then rest else stop_if r.timer.has_stop))
    fires false b h e ec eb eh = emits e (inl ec)
    fires true true h e ec eb eh = emits e (inr eb)
    fires true false true e ec eb eh = rearms e ec eb eh
    fires true false false e ec eb eh = no_channel e eh

    go :
        (w : Wake)
        → r.wake ≡ w
        → Course id deadline capped has_stop r rounds
            (after_wake id deadline capped has_stop r rest w)
    go timer_closed e = returns (λ t q. cc)
    go cancelled e = returns (λ t q. cc)
    go (fired t) e =
        fires capped (leb_ℤ (sub_time deadline r.now) (pos 0)) r.timer.has_channel e refl refl refl

-- How a run starts.
pub data Start (condition : DateTimeCondition) (env : Surroundings) : List Action → Type 0 where
  at_once :
      (ltb_ℤ env.first_now condition.deadline ≡ false)
        ⊎ (ltb_ℤ (pos 0) (sub_time condition.deadline env.second_now) ≡ false)
      → Start condition env (immediate condition env)
  waits :
      ltb_ℤ env.first_now condition.deadline ≡ true
      → ltb_ℤ (pos 0) (sub_time condition.deadline env.second_now) ≡ true
      → env.timer.has_channel ≡ true
      → Start condition env (
          started env.timer (sub_time condition.deadline env.second_now)
          ∷ emit_deadline condition.id condition.deadline
              (is_capped env.second_now
                (sub_time condition.deadline env.second_now)
                condition.deadline)
              env.timer.has_stop
              env.rounds)
  no_timer :
      env.timer.has_channel ≡ false
      → Start condition env (
          started env.timer (sub_time condition.deadline env.second_now)
            ∷ stop_if env.timer.has_stop
          ++ immediate condition env)

pub run-Start :
    (condition : DateTimeCondition) (env : Surroundings) → Start condition env (run condition env)
unfolding run
run-Start condition env =
    go (ltb_ℤ env.first_now condition.deadline)
      (ltb_ℤ (pos 0) (sub_time condition.deadline env.second_now)) env.timer.has_channel refl refl
      refl
  where
    wait : Duration
    wait = sub_time condition.deadline env.second_now

    go :
        (b c h : Bool)
        → ltb_ℤ env.first_now condition.deadline ≡ b
        → ltb_ℤ (pos 0) (sub_time condition.deadline env.second_now) ≡ c
        → env.timer.has_channel ≡ h
        → Start condition env (
            if not b
            then immediate condition env
            else if not c
            then immediate condition env
            else if h
            then started env.timer wait
              ∷ emit_deadline condition.id condition.deadline
                  (is_capped env.second_now wait condition.deadline)
                  env.timer.has_stop
                  env.rounds
            else started env.timer wait ∷ stop_if env.timer.has_stop ++ immediate condition env)
    go false c h eb ec eh = at_once (inl eb)
    go true false h eb ec eh = at_once (inr ec)
    go true true true eb ec eh = waits eb ec eh
    go true true false eb ec eh = no_timer eh
