-- ===== src/Cmd/Descriptor.antt =====
-- The event descriptors: events_fd_unix.go, events_fd_windows.go and events_fd_other.go of cmd/outage.
pub mod Ownership
use outage.Base.{Bool, true, false, not, Option, none, some, List, [], ◌∷◌, ◌++◌, if◌then◌else◌}

-- The errors: of a call of the system, and the program's own.
pub data DescriptorError : Type 0 where
  system_call not_writable not_nonblocking not_stream not_pipe unknown_mode : DescriptorError
  not_no_wait invalid_duplicate unsupported : DescriptorError

pub data FileType : Type 0 where
  fifo socket other_type : FileType

pub record Flags : Type 0 where
  pub read_only : Bool
  pub nonblocking : Bool

-- What the system answers on Unix: F_GETFL and Fstat, and Dup, F_SETFD and os.NewFile.
pub record UnixDescriptor : Type 0 where
  pub flags : Option Flags
  pub file_type : Option FileType
  pub dups : Bool
  pub sets_cloexec : Bool
  pub has_file : Bool

-- On Windows: GetFileType, GetNamedPipeHandleState, and the two calls of DuplicateHandle with
-- CloseHandle and os.NewFile.
pub record WindowsDescriptor : Type 0 where
  pub is_pipe : Option Bool
  pub no_wait : Option Bool
  pub opens_for_writing : Bool
  pub closes : Bool
  pub duplicates : Bool
  pub has_file : Bool

-- The three build constraints.
pub data Descriptor : Type 0 where
  unix : UnixDescriptor → Descriptor
  windows : WindowsDescriptor → Descriptor
  other : Descriptor

abbrev pub validate_file_type : Option FileType → Option DescriptorError
validate_file_type none = some system_call
validate_file_type (some fifo) = none
validate_file_type (some socket) = none
validate_file_type (some other_type) = some not_stream

unfoldable pub validate_unix : UnixDescriptor → Option DescriptorError
validate_unix d = elim d.flags [
  | none ↦ some system_call
  | some flags ↦
      if flags.read_only
      then some not_writable
      else if not flags.nonblocking
      then some not_nonblocking
      else validate_file_type d.file_type
]

-- validateEventPipeMode, by what GetNamedPipeHandleState says of PIPE_NOWAIT.
unfoldable pub validate_event_pipe_mode : Option Bool → Option DescriptorError
validate_event_pipe_mode none = some unknown_mode
validate_event_pipe_mode (some true) = none
validate_event_pipe_mode (some false) = some not_no_wait

-- checkWindowsPipeWritable
unfoldable pub check_windows_pipe_writable : WindowsDescriptor → Option DescriptorError
check_windows_pipe_writable d =
    if not d.opens_for_writing
    then some system_call
    else if not d.closes
    then some system_call
    else none

unfoldable pub validate_windows : WindowsDescriptor → Option DescriptorError
validate_windows d = elim d.is_pipe [
  | none ↦ some system_call
  | some false ↦ some not_pipe
  | some true ↦ elim (validate_event_pipe_mode d.no_wait) [
    | some e ↦ some e
    | none ↦ check_windows_pipe_writable d
  ]
]

-- validateEventDescriptor: its error, if any.
abbrev pub validate_event_descriptor : Descriptor → Option DescriptorError
validate_event_descriptor (unix d) = validate_unix d
validate_event_descriptor (windows d) = validate_windows d
validate_event_descriptor other = some unsupported

-- The calls of a duplication that matter for who holds the duplicate: those of syscall.ForkLock, Dup and
-- DuplicateHandle with whether a child inherits what they make, F_SETFD, and Close.
pub data Call : Type 0 where
  read_lock read_unlock set_cloexec close_owned : Call
  duplicates_as : Bool → Call

-- The error of a duplication, if any, and its calls.
pub record Duplication : Type 0 where
  pub error : Option DescriptorError
  pub calls : List Call

unfoldable pub duplicate_unix : UnixDescriptor → Duplication
duplicate_unix d =
    if not d.dups
    then record { error = some system_call; calls = read_lock ∷ read_unlock ∷ [] }
    else (let locked = read_lock ∷ duplicates_as true ∷ set_cloexec_calls d.sets_cloexec in
        if not d.sets_cloexec
        then record { error = some system_call; calls = locked ++ read_unlock ∷ [] }
        else if not d.has_file
        then record {
          error = some invalid_duplicate;
          calls = locked ++ read_unlock ∷ close_owned ∷ [];
        }
        else record { error = none; calls = locked ++ read_unlock ∷ [] })
  where
    -- F_SETFD, and Close when it fails.
    set_cloexec_calls : Bool → List Call
    set_cloexec_calls true = set_cloexec ∷ []
    set_cloexec_calls false = close_owned ∷ []

unfoldable pub duplicate_windows : WindowsDescriptor → Duplication
duplicate_windows d =
    if not d.duplicates
    then record { error = some system_call; calls = [] }
    else if not d.has_file
    then record { error = some invalid_duplicate; calls = duplicates_as false ∷ close_owned ∷ [] }
    else record { error = none; calls = duplicates_as false ∷ [] }

-- duplicateEventFile
abbrev pub duplicate_event_file : Descriptor → Duplication
duplicate_event_file (unix d) = duplicate_unix d
duplicate_event_file (windows d) = duplicate_windows d
duplicate_event_file other = record { error = some unsupported; calls = [] }
