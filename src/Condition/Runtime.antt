-- ===== src/Condition/Runtime.antt =====
-- The runtime of a condition (condition.go) and the clock of the process (cmd/outage/datetime_event.go).
-- A function value that may be nil is an Option; a function that observes the process takes the number
-- of its call.
pub mod Normal
use outage.Base.{ℕ, ◌*◌, Bool, true, false, Option, none, some, List, [], ◌∷◌, if◌then◌else◌}
use outage.Base.Int.{ℤ, pos, leb_ℤ, eqb_ℤ}
use outage.Time.{Time, Duration, Location}

-- What newTimer returns: whether the channel is nil, and whether the function that stops it is.
pub record Timer : Type 0 where
  pub has_channel : Bool
  pub has_stop : Bool

abbrev pub Now : Type 0
Now = ℕ → Time

abbrev pub NewTimer : Type 0
NewTimer = ℕ → Duration → Timer

pub record Runtime : Type 0 where
  pub now : Option Now
  pub new_timer : Option NewTimer
  pub poll_interval : Duration

-- The unexported runtime.
pub record Settings : Type 0 where
  pub now : Option Now
  pub new_timer : Option NewTimer
  pub poll_interval : Duration
  pub start_time : Time
  pub has_start_time : Bool

-- An Option of the package: WithRuntime, WithStartTime, or a nil function.
pub data Customization : Type 0 where
  with_runtime : Runtime → Customization
  with_start_time : Time → Customization
  no_option : Customization

-- time.Now and newTimer.
pub record Process : Type 0 where
  pub now : Now
  pub new_timer : NewTimer

abbrev pub file_poll_interval : Duration
file_poll_interval = pos 100_000_000

abbrev pub or_else {ℓ} : {A : Type ℓ} → Option A → Option A → Option A
or_else none o = o
or_else (some a) o = some a

-- The closures that WithRuntime and WithStartTime return.
unfoldable pub customize : Settings → Customization → Settings
customize target no_option = target
customize target (with_start_time value) = record target {
  start_time = value;
  has_start_time = true;
}
customize target (with_runtime value) = record target {
  now = or_else value.now target.now;
  new_timer = or_else value.new_timer target.new_timer;
  poll_interval =
      if eqb_ℤ value.poll_interval (pos 0) then target.poll_interval else value.poll_interval;
}

unfoldable pub customize_all : Settings → List Customization → Settings
customize_all target [] = target
customize_all target (option ∷ options) = customize_all (customize target option) options

abbrev pub default_settings : Process → Settings
default_settings process = record {
  now = some process.now;
  new_timer = some process.new_timer;
  poll_interval = file_poll_interval;
  start_time = pos 0;
  has_start_time = false;
}

-- newRuntime
unfoldable pub new_runtime : Process → List Customization → Settings
new_runtime process options =
    let value = customize_all (default_settings process) options in
    record value {
      now = or_else value.now (some process.now);
      new_timer = or_else value.new_timer (some process.new_timer);
      poll_interval =
          if leb_ℤ value.poll_interval (pos 0) then file_poll_interval else value.poll_interval;
    }

-- runtimeClock of cmd/outage.
pub record RuntimeClock : Type 0 where
  pub now : Option Now
  pub location : Option Location
  pub new_timer : Option NewTimer

-- defaultRuntimeClock, by the process, time.Local and time.UTC.
unfoldable pub default_runtime_clock : Process → Option Location → Location → RuntimeClock
default_runtime_clock process local utc = record {
  now = some process.now;
  location = or_else local (some utc);
  new_timer = some process.new_timer;
}

-- runtimeClock.normalized
unfoldable pub normalized : Process → Option Location → Location → RuntimeClock → RuntimeClock
normalized process local utc clock = record {
  now = or_else clock.now (some process.now);
  location = or_else clock.location (or_else local (some utc));
  new_timer = or_else clock.new_timer (default_runtime_clock process local utc).new_timer;
}
