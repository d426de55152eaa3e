-- ===== src/Condition/DateTime/Released.antt =====
-- A datetime condition stops every timer that it makes.
use outage.Base.{Bool, true, false, List, [], ◌∷◌, Text, ◌≡◌, sym, ap, ◌∙◌, append-nil}
use outage.Time.{Time, sub_time}
use outage.Condition.Monitor.{
  Action, leaf_event, stop_if, releases, stop_if-releases, stop_if_first-releases,
  publish_if-releases,
}
use outage.Condition.DateTime.Course.{
  Course, emits, rearms, no_channel, returns, emit_deadline-Course, Start, at_once, waits, no_timer,
  run-Start,
}
use outage.Condition.DateTime.{
  DateTimeCondition, Surroundings, Round, is_capped, emit_deadline, immediate, run,
}

emit_deadline-releases :
    (id : Text) (deadline : Time) (capped has_stop : Bool) (rounds : List Round)
    → releases has_stop (emit_deadline id deadline capped has_stop rounds) ≡ true
emit_deadline-releases id deadline capped has_stop [] =
    unfold emit_deadline in stop_if-releases has_stop
emit_deadline-releases id deadline capped has_stop (r ∷ rounds) =
    go (emit_deadline-Course id deadline capped has_stop r rounds) (
      emit_deadline-releases id deadline (is_capped r.now (sub_time deadline r.now) deadline)
        r.timer.has_stop rounds)
  where
    go :
        {actions : List Action}
        → Course id deadline capped has_stop r rounds actions
        → releases r.timer.has_stop (
            emit_deadline id deadline
              (is_capped r.now (sub_time deadline r.now) deadline)
              r.timer.has_stop
              rounds)
          ≡ true
        → releases has_stop actions ≡ true
    go (emits {t} e why) ih =
        publish_if-releases r.delivers has_stop (leaf_event id t) (stop_if has_stop)
        ∙ stop_if-releases has_stop
    go (rearms e c w h) ih = stop_if_first-releases has_stop _ ∙ ih
    go (no_channel e h) ih = stop_if_first-releases has_stop _ ∙ stop_if-releases r.timer.has_stop
    go (returns n) ih = stop_if-releases has_stop

immediate-releases :
    (condition : DateTimeCondition) (env : Surroundings)
    → releases false (immediate condition env) ≡ true
immediate-releases condition env =
    ap (releases false) (sym (append-nil (immediate condition env)))
    ∙ publish_if-releases env.delivers false (leaf_event condition.id env.event_now) []

-- Every timer, also one that is armed again, is stopped once before the next one is made and before
-- the run ends, on every path, and nothing else is stopped.
pub run-releases_all :
    (condition : DateTimeCondition) (env : Surroundings) → releases false (run condition env) ≡ true
run-releases_all condition env = go (run-Start condition env)
  where
    go : {actions : List Action} → Start condition env actions → releases false actions ≡ true
    go (at_once h) = immediate-releases condition env
    go (waits b c h) =
        emit_deadline-releases condition.id condition.deadline _ env.timer.has_stop env.rounds
    go (no_timer h) =
        stop_if_first-releases env.timer.has_stop (immediate condition env)
        ∙ immediate-releases condition env
