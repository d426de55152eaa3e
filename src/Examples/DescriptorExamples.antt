-- ===== src/Examples/DescriptorExamples.antt =====
-- cmd/outage/events_fd_unix.go with a process that another goroutine starts.
use outage.Base.{true, false, some, List, [], ◌∷◌, ◌≡◌, refl}
use outage.Cmd.Descriptor.Ownership.{
  duplicate_event_file-owning, Turn, turns, own, forks, idle, owning,
}
use outage.Cmd.Descriptor.{
  Descriptor, duplicate_unix, unix, fifo, invalid_duplicate, read_lock, read_unlock, set_cloexec,
  close_owned, duplicates_as,
}

-- A FIFO whose duplicate os.NewFile refuses.
abbrev without_file : Descriptor
without_file = unix (record {
  flags = some (record { read_only = false; nonblocking = true });
  file_type = some fifo;
  dups = true;
  sets_cloexec = true;
  has_file = false;
})

-- A fork is tried while the duplicate would be inherited, and another before it is closed.
abbrev forked : List Turn
forked =
    own read_lock
    ∷ own (duplicates_as true)
    ∷ forks
    ∷ own set_cloexec
    ∷ own read_unlock
    ∷ forks
    ∷ own close_owned
    ∷ []

duplicate_event_file-owning_example : turns forked idle ≡ owning (some invalid_duplicate)
unfolding duplicate_unix
duplicate_event_file-owning_example = duplicate_event_file-owning without_file forked refl
