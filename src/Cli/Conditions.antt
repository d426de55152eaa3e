-- ===== src/Cli/Conditions.antt =====
-- The conditions of internal/cli: signal names (signal_unix.go, signal_windows.go), and the
-- validation and the typed value of one member (cli.go).
pub mod Printing
pub mod Identities
use outage.Base.{
  ℕ, suc, ◌+◌, ◌-◌, ◌/◌, ◌%◌, Bool, true, false, not, ◌&&◌, ◌||◌, Option, none, some, List, [], ◌∷◌,
  ◌++◌, ltb, ◌==◌, if◌then◌else◌, zero, Text, codes, equal, has_prefix, trim_prefix, ◌≡◌, length,
  drop,
}
use outage.Base.Int.{ℤ, pos, negsuc}
use outage.Time.{Time, Duration, Location, TimePackage}
use outage.Cli.Datetime.{datetime_prefix, parse_datetime_event}
use outage.Cli.Result.{
  Result, ok, err, ◌>>=◌, unsupported_event, unsupported_on_platform, invalid_file_event,
  negative_duration, invalid_duration,
}

-- The builds that have a signal_*.go file.
pub data Platform : Type 0 where
  unix windows : Platform

-- syscall.SIGUSR1 and syscall.SIGUSR2.
pub data Signal : Type 0 where
  sigusr1 sigusr2 : Signal

-- What the parse depends on: the build, package time and the location argument.
pub record Env : Type 0 where
  pub platform : Platform
  pub time : TimePackage
  pub location : Option Location

unfoldable pub signal_supported : Platform → Bool
signal_supported unix = true
signal_supported windows = false

unfoldable pub resolve_signal : Platform → Text → Option Signal
resolve_signal windows name = none
resolve_signal unix name =
    if equal name (codes "USR1")
    then some sigusr1
    else if equal name (codes "USR2")
    then some sigusr2
    else none

-- Kind: the four constants, and any other string.
pub data Kind : Type 0 where
  signal file duration date_time : Kind
  other : Text → Kind

unfoldable pub kind_text : Kind → Text
kind_text signal = codes "signal"
kind_text file = codes "file"
kind_text duration = codes "duration"
kind_text date_time = codes "datetime"
kind_text (other k) = k

-- ConditionSpec; `none` is the nil signal.
pub record ConditionSpec : Type 0 where
  pub id : Text
  pub kind : Kind
  pub signal_value : Option Signal
  pub path : Text
  pub duration_value : Duration
  pub deadline : Time

-- conditionIdentity
pub record Identity : Type 0 where
  pub kind : Kind
  pub value : Text

-- `==` on identities: the kinds are compared as the strings that they are.
unfoldable pub identity_equal : Identity → Identity → Bool
identity_equal i j = equal (kind_text i.kind) (kind_text j.kind) && equal i.value j.value

-- identityID
unfoldable pub identity_id : Identity → Text
unfolding kind_text
identity_id i = kind_text i.kind ++ (codes ":" ++ i.value)

-- The decimal digits of a number below 10 ^ fuel, in front of `rest`.
unfoldable pub print_onto : ℕ → ℕ → Text → Text
print_onto zero n rest = rest
print_onto (suc fuel) n rest =
    let digit = b'0' + n % 10 in
    let more = print_onto fuel (n / 10) (digit ∷ rest) in if ltb n 10 then digit ∷ rest else more

unfoldable pub print_nat : ℕ → Text
unfolding print_onto
print_nat n = print_onto (suc n) n []

-- fmt.Sprintf("%d", duration)
unfoldable pub print_int : ℤ → Text
unfolding print_nat
print_int (pos n) = print_nat n
print_int (negsuc n) = codes "-" ++ print_nat (suc n)

abbrev pub duration_prefix : Text
duration_prefix = codes "duration:"

abbrev pub file_prefix : Text
file_prefix = codes "file:"

-- canonicalSignalName
unfoldable pub canonical_signal_name : Text → Option Text
canonical_signal_name event =
    if equal event (codes "signal:USR1") || equal event (codes "signal:SIGUSR1")
    then some (codes "USR1")
    else if equal event (codes "signal:USR2") || equal event (codes "signal:SIGUSR2")
    then some (codes "USR2")
    else none

-- isSignalEvent
unfoldable pub is_signal_event : Text → Bool
is_signal_event event = elim (canonical_signal_name event) [ none ↦ false | some name ↦ true ]

-- parseDurationEvent
unfoldable pub parse_duration_event : TimePackage → Text → Result Duration
parse_duration_event time event =
    let value = trim_prefix event duration_prefix in
    if has_prefix value (codes "-")
    then err (negative_duration event)
    else (elim (time.parse_duration value) [ none ↦ err (invalid_duration event) | some d ↦ ok d ])

-- validateConditionSyntaxAt
unfoldable pub validate_condition_syntax_at : Env → Text → Result (Unit {0})
validate_condition_syntax_at env event =
    if has_prefix event duration_prefix
    then (parse_duration_event env.time event >>= λ _. ok tt)
    else if has_prefix event datetime_prefix
    then (parse_datetime_event env.time event env.location >>= λ _. ok tt)
    else if has_prefix event file_prefix
    then if equal (trim_prefix event file_prefix) [] then err (invalid_file_event event) else ok tt
    else if not (is_signal_event event)
    then err (unsupported_event event)
    else ok tt

-- validateConditionCapabilityAt, with what `supported` returns.
unfoldable pub validate_condition_capability_at : Bool → Text → Result (Unit {0})
validate_condition_capability_at supported event =
    if not (is_signal_event event)
    then ok tt
    else if not supported
    then err (unsupported_on_platform event)
    else ok tt

abbrev blank : ConditionSpec
blank = record {
  id = [];
  kind = other [];
  signal_value = none;
  path = [];
  duration_value = pos 0;
  deadline = pos 0;
}

abbrev pub duration_spec : Duration → ConditionSpec × Identity
duration_spec d =
    let i : Identity = record { kind = duration; value = print_int d } in
    (record blank { id = identity_id i; kind = duration; duration_value = d }, i)

abbrev pub datetime_spec : TimePackage → Time → ConditionSpec × Identity
datetime_spec time t =
    let i : Identity = record { kind = date_time; value = time.format_rfc3339 t } in
    (record blank { id = identity_id i; kind = date_time; deadline = t }, i)

abbrev pub file_spec : Text → ConditionSpec × Identity
file_spec p =
    let i : Identity = record { kind = file; value = p } in
    (record blank { id = identity_id i; kind = file; path = p }, i)

abbrev pub signal_spec : Text → Signal → ConditionSpec × Identity
signal_spec name s =
    let i : Identity = record { kind = signal; value = name } in
    (record blank { id = identity_id i; kind = signal; signal_value = some s }, i)

-- parseConditionSpec
unfoldable pub parse_condition_spec : Env → Text → Result (ConditionSpec × Identity)
parse_condition_spec env raw =
    if has_prefix raw duration_prefix
    then (parse_duration_event env.time raw >>= λ d. ok (duration_spec d))
    else if has_prefix raw datetime_prefix
    then (parse_datetime_event env.time raw env.location >>= λ t. ok (datetime_spec env.time t))
    else if has_prefix raw file_prefix
    then ok (file_spec (trim_prefix raw file_prefix))
    else (elim (canonical_signal_name raw) [
      | none ↦ err (unsupported_event raw)
      | some name ↦ elim (resolve_signal env.platform name) [
        | none ↦ err (unsupported_on_platform raw)
        | some s ↦ ok (signal_spec name s)
      ]
    ])
