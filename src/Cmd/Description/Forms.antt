-- ===== src/Cmd/Description/Forms.antt =====
-- The forms of a condition that --describe lists in cmd/outage/describe.go.
use outage.Base.{◌∷◌, [], List, codes, true, false, none}
use outage.Cmd.Description.Types.{ConditionFormDescription, CliArgumentDescription, condition_bool}

-- `signal:`
abbrev pub signal_form : ConditionFormDescription
signal_form = record {
  name = codes "signal";
  syntax =
      codes "signal:USR1"
      ∷ codes "signal:SIGUSR1"
      ∷ codes "signal:USR2"
      ∷ codes "signal:SIGUSR2"
      ∷ [];
  unsupported_on = codes "windows" ∷ [];
  non_empty = none;
  value_preserved = none;
  trigger = [];
  value_format = [];
  non_negative = none;
  zero_allowed = none;
  timezone_less_timezone = [];
  explicit_timezone_requires_seconds = none;
  fractional = none;
  iana = none;
  timezone_less_dst_gap = [];
  timezone_less_dst_overlap = [];
}

-- `file:`
abbrev pub file_form : ConditionFormDescription
file_form = record {
  name = codes "file";
  syntax = codes "file:<path>" ∷ [];
  unsupported_on = [];
  non_empty = condition_bool true;
  value_preserved = condition_bool true;
  trigger = codes "path-resolves-to-regular-file";
  value_format = [];
  non_negative = none;
  zero_allowed = none;
  timezone_less_timezone = [];
  explicit_timezone_requires_seconds = none;
  fractional = none;
  iana = none;
  timezone_less_dst_gap = [];
  timezone_less_dst_overlap = [];
}

-- `duration:`
abbrev pub duration_form : ConditionFormDescription
duration_form = record {
  name = codes "duration";
  syntax = codes "duration:<value>" ∷ [];
  unsupported_on = [];
  non_empty = none;
  value_preserved = none;
  trigger = [];
  value_format = codes "go-duration";
  non_negative = condition_bool true;
  zero_allowed = condition_bool true;
  timezone_less_timezone = [];
  explicit_timezone_requires_seconds = none;
  fractional = none;
  iana = none;
  timezone_less_dst_gap = [];
  timezone_less_dst_overlap = [];
}

-- `datetime:`
abbrev pub datetime_form : ConditionFormDescription
datetime_form = record {
  name = codes "datetime";
  syntax =
      codes "datetime:YYYY-MM-DDTHH:MM"
      ∷ codes "datetime:YYYY-MM-DDTHH:MM:SS"
      ∷ codes "datetime:YYYY-MM-DDTHH:MM:SSZ"
      ∷ codes "datetime:YYYY-MM-DDTHH:MM:SS+HH:MM"
      ∷ codes "datetime:YYYY-MM-DDTHH:MM:SS-HH:MM"
      ∷ [];
  unsupported_on = [];
  non_empty = none;
  value_preserved = none;
  trigger = [];
  value_format = [];
  non_negative = none;
  zero_allowed = none;
  timezone_less_timezone = codes "process-startup";
  explicit_timezone_requires_seconds = condition_bool true;
  fractional = condition_bool false;
  iana = condition_bool false;
  timezone_less_dst_gap = codes "invalid";
  timezone_less_dst_overlap = codes "earliest-absolute-instant";
}

-- ConditionForms
abbrev pub condition_forms : List ConditionFormDescription
condition_forms = signal_form ∷ file_form ∷ duration_form ∷ datetime_form ∷ []

-- `CONDITION`
abbrev pub condition_argument : CliArgumentDescription
condition_argument = record {
  name = codes "CONDITION";
  type = codes "condition";
  required = true;
  repeatable = false;
  conflicts = codes "--describe" ∷ codes "--version" ∷ [];
  and_separator = codes " && ";
  and_semantics =
      codes
        "Members are separated by the exact literal \" && \" separator; operands are not trimmed and the separator is not escapable. Every member must be satisfied and remains latched.";
  or_option = codes "--or";
  or_semantics =
      codes
        "Each --or CONDITION or --or=CONDITION starts an alternative AND group; outage exits when any group is satisfied.";
  or_forms = codes "--or CONDITION" ∷ codes "--or=CONDITION" ∷ [];
}
