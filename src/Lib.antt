-- ===== src/Lib.antt =====
-- outage forwards stdin to stdout until a condition on its command line holds.
--
-- The program's parts, and the modules that model them:
-- * internal/cli/cli.go (Cli): the arguments are taken apart by Cli/Options (parseEventsFDOptions and
--   the requests for help, version and description) and Cli/Groups (parseConditionArguments,
--   parseConditionGroups); Cli/Conditions has parseConditionSpec and the two validations, with
--   internal/cli/signal_unix.go and signal_windows.go as the two values of Platform; Cli/Plans has
--   canonicalPlan and Parse. Cli/Number is strconv.Atoi for a 64-bit int. An error is a
--   constructor of Cli/Result with the arguments of its message, whose text is not modelled.
-- * internal/cli/datetime.go (Cli/Datetime): parseAbsoluteDeadline and earliestLocalInstant, with
--   the guards on 64-bit Unix times written out.
-- * internal/condition (Condition): Events has the events and appendUnique (condition.go); And and Or
--   have the loops of and.go and or.go as steps over the messages of the merged channel. The
--   list of messages is what arrives until the context is cancelled, and each message comes with
--   whether emitEvent delivers. forwardIndexedChild and forwardOrChild are functions of what their
--   sources give, and Merging relates what they send to the orders that the merged channel may have.
--   Runtime is newRuntime with its options, and the clock of cmd/outage/datetime_event.go. Duration,
--   DateTime, File and Signal are the monitors of the same files: a run is a function of what it meets
--   at its clock, its timers, its ticks or its signals, and returns what it does (Monitor) or emits.
--   Registry is the registry of condition.go that shares streams: each region under its mutexes is an
--   operation, and Registry/Steps interleaves the goroutines as a relation; Registry/Observed
--   keeps, beside it, the events that each stream took. Root is runRoot, with the
--   subscriptions of a tree of conditions by run and runChild.
-- * cmd/outage (Cmd): Satisfied has the setup checks of main.go and file_event.go, and Tree has
--   buildConditionTree, whose leaves record which monitor they are and with which arguments;
--   Tree/Runs runs such a tree through the forwarders and the loops of internal/condition. Emitter
--   is events.go: an emitter carries what its descriptor has taken and its number of warnings.
--   Descriptor is the validation and duplication of events_fd_unix.go, events_fd_windows.go and
--   events_fd_other.go, as functions of the system's answers; Ownership puts the forks of other
--   goroutines, which wait for syscall.ForkLock, between the calls of a duplication. Arbitration is
--   waitForCopyOrCondition, where what the channels hold at each select, and which ready channel it takes, are inputs. Run is
--   runWithClock, which puts them together. Description is what --describe prints (describe.go), with a
--   child that follows its state machine.
--
-- Go strings are lists of bytes (Base/Strings, with what is used of package strings). Time has the
-- instants and durations, as integers of nanoseconds with Time.Sub's saturation; the calendar, the
-- zone tables, time.ParseDuration and the RFC 3339 texts are fields of the records TimePackage and
-- Location, which the definitions take as arguments. A clock reading and an os.Stat are numbered
-- observations of a World.
--
-- Fuel: scan_intervals has 2 ^ 63 rounds; its window has fewer nanoseconds, and each
-- round that is not the last moves on by one at least (Cli/Datetime/Fuel).
--
-- Not modelled: the texts of help and of messages, the capacity of channels, the copying of bytes
-- from stdin to stdout, SIGPIPE, the options that buildConditionTree gives to its leaves, the order of
-- the subscribers in a map of the registry, and the printing of the self-description as JSON.
pub mod Base
pub mod Time
pub mod Cli
pub mod Condition
pub mod Cmd
mod Examples
