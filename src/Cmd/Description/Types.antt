-- ===== src/Cmd/Description/Types.antt =====
-- The description types of cmd/outage/describe.go.
use outage.Base.{ℕ, Bool, Option, some, List, Text}

-- sideEffect has no field.
pub data SideEffect : Type 0 where
  side_effect : SideEffect

pub record StateTransition : Type 0 where
  pub from : Text
  pub event : Text
  pub to : Text

pub record StateDescription : Type 0 where
  pub initial_state : Text
  pub states : List Text
  pub events : List Text
  pub event_fd_events : List Text
  pub transitions : List StateTransition

pub record StreamInterfaceDescription : Type 0 where
  pub role : Text
  pub description : Text
  pub format : Text
  pub option : Text

pub record StreamDescription : Type 0 where
  pub stdin : StreamInterfaceDescription
  pub stdout : StreamInterfaceDescription
  pub stderr : StreamInterfaceDescription
  pub event_fd : StreamInterfaceDescription

pub record ConditionFormDescription : Type 0 where
  pub name : Text
  pub syntax : List Text
  pub unsupported_on : List Text
  pub non_empty : Option Bool
  pub value_preserved : Option Bool
  pub trigger : Text
  pub value_format : Text
  pub non_negative : Option Bool
  pub zero_allowed : Option Bool
  pub timezone_less_timezone : Text
  pub explicit_timezone_requires_seconds : Option Bool
  pub fractional : Option Bool
  pub iana : Option Bool
  pub timezone_less_dst_gap : Text
  pub timezone_less_dst_overlap : Text

pub record CliArgumentDescription : Type 0 where
  pub name : Text
  pub type : Text
  pub required : Bool
  pub repeatable : Bool
  pub conflicts : List Text
  pub and_separator : Text
  pub and_semantics : Text
  pub or_option : Text
  pub or_semantics : Text
  pub or_forms : List Text

pub record CliOptionDescription : Type 0 where
  pub name : Text
  pub type : Text
  pub required : Bool
  pub repeatable : Bool
  pub aliases : List Text
  pub conflicts : List Text
  pub standalone : Bool
  pub priority : Text

pub record CliDescription : Type 0 where
  pub options : List CliOptionDescription
  pub condition_forms : List ConditionFormDescription
  pub arguments : List CliArgumentDescription

pub record Description : Type 0 where
  pub schema_version : ℕ
  pub name : Text
  pub version : Text
  pub cli_schema : CliDescription
  pub stream_semantics : StreamDescription
  pub state_machine : StateDescription
  pub side_effects : List SideEffect

-- conditionBool
abbrev pub condition_bool : Bool → Option Bool
condition_bool value = some value
