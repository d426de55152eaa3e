-- ===== src/Cli/Options.antt =====
-- The options of internal/cli/cli.go and cmd/outage/describe.go: the requests for help, version and
-- description, and `--events-fd`.
pub mod Laws
use outage.Base.{
  ℕ, Bool, true, false, ◌||◌, Option, none, some, List, [], ◌∷◌, ◌++◌, if◌then◌else◌, Text, codes,
  equal, has_prefix, trim_prefix,
}
use outage.Base.Int.{ℤ, pos, ltb_ℤ}
use outage.Cli.Result.{
  Result, ok, err, ◌>>=◌, events_fd_repeated, events_fd_missing_value, events_fd_invalid,
  events_fd_too_small,
}
use outage.Cli.Number.{atoi}

-- HelpRequested
unfoldable pub help_requested : List Text → Bool
help_requested [] = false
help_requested (arg ∷ args) =
    if equal arg (codes "-h") || equal arg (codes "--help") then true else help_requested args

-- VersionRequested
unfoldable pub version_requested : List Text → Bool
version_requested [] = false
version_requested (arg ∷ []) = equal arg (codes "--version")
version_requested (arg ∷ next ∷ args) = false

-- describeRequested
unfoldable pub describe_requested : List Text → Bool
describe_requested [] = false
describe_requested (arg ∷ args) =
    if equal arg (codes "--describe") then true else describe_requested args

-- parseEventsFD
unfoldable pub parse_events_fd : Text → Result ℤ
unfolding atoi
parse_events_fd value = elim (atoi value) [
  | none ↦ err events_fd_invalid
  | some fd ↦ if ltb_ℤ fd (pos 3) then err events_fd_too_small else ok fd
]

-- The variables of the loop of parseEventsFDOptions.
pub record Options : Type 0 where
  pub condition_args : List Text
  pub events_fd : ℤ
  pub events_fd_set : Bool

abbrev pub events_flag : Text
events_flag = codes "--events-fd"

abbrev pub events_flag_equals : Text
events_flag_equals = codes "--events-fd="

abbrev pub with_events_fd : Options → ℤ → Options
with_events_fd o value = record o { events_fd = value; events_fd_set = true }

-- `--events-fd N`, with the arguments behind the flag.
unfoldable pub read_separate : List Text → Options → Result Options
read_separate [] o = if o.events_fd_set then err events_fd_repeated else err events_fd_missing_value
read_separate (value ∷ _) o =
    if o.events_fd_set
    then err events_fd_repeated
    else if has_prefix value (codes "--")
    then err events_fd_missing_value
    else (parse_events_fd value >>= λ fd. ok (with_events_fd o fd))

-- `--events-fd=N`
unfoldable pub read_joined : Text → Options → Result Options
read_joined arg o =
    if o.events_fd_set
    then err events_fd_repeated
    else (parse_events_fd (trim_prefix arg events_flag_equals) >>= λ fd. ok (with_events_fd o fd))

-- The loop; `skip` is set at the argument that `index = valueIndex` passes over.
unfoldable pub options_loop : Bool → List Text → Options → Result Options
options_loop skip [] o = ok o
options_loop true (value ∷ rest) o = options_loop false rest o
options_loop false (arg ∷ rest) o =
    let plain =
      options_loop false rest (record o { condition_args = o.condition_args ++ arg ∷ [] }) in
    if equal arg events_flag
    then (read_separate rest o >>= λ o'. options_loop true rest o')
    else if has_prefix arg events_flag_equals
    then (read_joined arg o >>= λ o'. options_loop false rest o')
    else plain

-- parseEventsFDOptions
unfoldable pub parse_events_fd_options : List Text → Result Options
unfolding options_loop
parse_events_fd_options args =
    options_loop false args
      (record { condition_args = []; events_fd = pos 0; events_fd_set = false })
