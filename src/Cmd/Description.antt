-- ===== src/Cmd/Description.antt =====
-- newDescription of cmd/outage/describe.go.
pub mod Types
pub mod Options
pub mod Forms
pub mod Streams
pub mod Machine
pub mod Lifecycle
pub mod Versions
pub mod Standalone
use outage.Base.{[], ◌∷◌, Text, codes}
use outage.Cmd.Description.Types.{Description}
use outage.Cmd.Description.Options.{options}
use outage.Cmd.Description.Forms.{condition_forms, condition_argument}
use outage.Cmd.Description.Streams.{stream_semantics}
use outage.Cmd.Description.Machine.{state_machine}

-- newDescription, with the version that the build sets.
abbrev pub new_description : Text → Description
new_description version = record {
  schema_version = 1;
  name = codes "outage";
  version = version;
  cli_schema = record {
    options = options;
    condition_forms = condition_forms;
    arguments = condition_argument ∷ [];
  };
  stream_semantics = stream_semantics;
  state_machine = state_machine;
  side_effects = [];
}
