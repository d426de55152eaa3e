-- ===== src/Cmd/Description/Options.antt =====
-- The options that --describe lists in cmd/outage/describe.go.
use outage.Base.{◌∷◌, [], List, codes, true, false}
use outage.Cmd.Description.Types.{CliOptionDescription}

-- `--describe`
abbrev pub describe_option : CliOptionDescription
describe_option = record {
  name = codes "--describe";
  type = codes "boolean";
  required = false;
  repeatable = false;
  aliases = [];
  conflicts = codes "--version" ∷ codes "--events-fd" ∷ codes "--or" ∷ codes "CONDITION" ∷ [];
  standalone = true;
  priority = [];
}

-- `--help`
abbrev pub help_option : CliOptionDescription
help_option = record {
  name = codes "--help";
  type = codes "boolean";
  required = false;
  repeatable = true;
  aliases = codes "-h" ∷ [];
  conflicts = [];
  standalone = false;
  priority = codes "highest";
}

-- `--version`
abbrev pub version_option : CliOptionDescription
version_option = record {
  name = codes "--version";
  type = codes "boolean";
  required = false;
  repeatable = false;
  aliases = [];
  conflicts = codes "--describe" ∷ codes "--events-fd" ∷ codes "--or" ∷ codes "CONDITION" ∷ [];
  standalone = true;
  priority = [];
}

-- `--events-fd`
abbrev pub events_fd_option : CliOptionDescription
events_fd_option = record {
  name = codes "--events-fd";
  type = codes "fd";
  required = false;
  repeatable = false;
  aliases = [];
  conflicts = codes "--describe" ∷ codes "--version" ∷ [];
  standalone = false;
  priority = [];
}

-- `--or`
abbrev pub or_option : CliOptionDescription
or_option = record {
  name = codes "--or";
  type = codes "condition";
  required = false;
  repeatable = true;
  aliases = [];
  conflicts = codes "--describe" ∷ codes "--version" ∷ [];
  standalone = false;
  priority = [];
}

-- Options
abbrev pub options : List CliOptionDescription
options = describe_option ∷ help_option ∷ version_option ∷ events_fd_option ∷ or_option ∷ []
