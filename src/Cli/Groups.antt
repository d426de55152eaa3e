-- ===== src/Cli/Groups.antt =====
-- The condition groups of internal/cli/cli.go: `--or` between groups and " && " within one.
pub mod Split
pub mod Grammar
use outage.Base.{
  ℕ, zero, suc, ◌-◌, Bool, true, false, not, List, [], ◌∷◌, ◌++◌, map, length, if◌then◌else◌, Text,
  codes, equal, has_prefix, trim_prefix,
}
use outage.Cli.Result.{
  Result, ok, err, ◌>>=◌, missing_condition, or_without_preceding, or_without_condition,
  unexpected_argument,
}

abbrev pub or_flag : Text
or_flag = codes "--or"

abbrev pub or_flag_equals : Text
or_flag_equals = codes "--or="

-- The loop of parseConditionArguments.
unfoldable pub arguments_loop : List Text → Bool → Bool → List Text → Result (List Text)
arguments_loop [] has_condition pending_or values =
    if pending_or then err or_without_condition else ok values
arguments_loop (arg ∷ args) has_condition pending_or values =
    let after_or = arguments_loop args has_condition true values in
    let value = trim_prefix arg or_flag_equals in
    let after_joined = arguments_loop args has_condition pending_or (values ++ value ∷ []) in
    let after_first = arguments_loop args true pending_or (values ++ arg ∷ []) in
    let after_next = arguments_loop args has_condition false (values ++ arg ∷ []) in
    if equal arg or_flag
    then if not has_condition
      then err or_without_preceding
      else if pending_or
      then err or_without_condition
      else after_or
    else if has_prefix arg or_flag_equals
    then if not has_condition
      then err or_without_preceding
      else if pending_or
      then err or_without_condition
      else if equal value []
      then err or_without_condition
      else after_joined
    else if has_prefix arg (codes "-")
    then if pending_or then err or_without_condition else err (unexpected_argument arg)
    else if not has_condition
    then after_first
    else if not pending_or
    then err (unexpected_argument arg)
    else after_next

-- parseConditionArguments
unfoldable pub parse_condition_arguments : List Text → Result (List Text)
unfolding arguments_loop
parse_condition_arguments [] = err missing_condition
parse_condition_arguments (arg ∷ args) = arguments_loop (arg ∷ args) false false []

abbrev pub and_separator : Text
and_separator = codes " && "

-- Puts a byte in front of the first member.
abbrev pub push_front : ℕ → List Text → List Text
push_front c [] = (c ∷ []) ∷ []
push_front c (m ∷ ms) = (c ∷ m) ∷ ms

-- strings.Split(s, sep) for a separator that is not empty: `skip` counts the bytes of a separator
-- that are still to be passed over.
unfoldable pub split_from : Text → ℕ → Text → List Text
split_from sep skip [] = [] ∷ []
split_from sep (suc skip) (c ∷ s) = split_from sep skip s
split_from sep zero (c ∷ s) =
    let next = [] ∷ split_from sep (length sep - 1) s in
    let same = push_front c (split_from sep zero s) in if has_prefix (c ∷ s) sep then next else same

unfoldable pub split : Text → Text → List Text
unfolding split_from
split s sep = split_from sep zero s

-- conditionGroup
pub record ConditionGroup : Type 0 where
  pub members : List Text

-- parseConditionGroups
unfoldable pub parse_condition_groups : List Text → Result (List ConditionGroup)
parse_condition_groups args = parse_condition_arguments args >>= λ values.
    ok (map (λ value. record { members = split value and_separator }) values)
