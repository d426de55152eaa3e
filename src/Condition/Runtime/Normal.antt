-- ===== src/Condition/Runtime/Normal.antt =====
-- Every condition has a clock, a timer and a positive poll interval.
use outage.Base.{Option, none, some, List, ◌≡◌, refl, arith}
use outage.Base.Int.{pos, ◌<ℤ◌}
use outage.Condition.Runtime.{
  Customization, Now, NewTimer, Process, Settings, customize_all, default_settings, new_runtime,
  or_else,
}

pub record IsNormal (s : Settings) : Type 0 where
  pub clock : (now : Now) × (s.now ≡ some now)
  pub timer : (new_timer : NewTimer) × (s.new_timer ≡ some new_timer)
  pub interval : pos 0 <ℤ s.poll_interval

or_else-some {ℓ} : {A : Type ℓ} (o : Option A) (a : A) → (b : A) × (or_else o (some a) ≡ some b)
or_else-some none a = (a, refl)
or_else-some (some b) a = (b, refl)

-- Whatever the options, nil ones and nil or zero fields included, the runtime of a condition has a clock
-- and a timer, and a poll interval above zero, which time.NewTicker requires.
pub new_runtime-IsNormal :
    (process : Process) (options : List Customization) → IsNormal (new_runtime process options)
unfolding new_runtime
new_runtime-IsNormal process options =
    let value = customize_all (default_settings process) options in
    record {
      clock = or_else-some value.now process.now;
      timer = or_else-some value.new_timer process.new_timer;
      interval = ground arith;
    }
