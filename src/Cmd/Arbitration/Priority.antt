-- ===== src/Cmd/Arbitration/Priority.antt =====
-- The end of the copy goes before a condition that is met at the same time.
use outage.Base.{Bool, true, false, Option, none, some, ◌≡◌, ◌≢◌, refl, inl, inr, Option-cases}
use outage.Cmd.Emitter.{EventEmitter}
use outage.Cmd.Arbitration.{
  Channels, CopyResult, Cutoff, Exit, select, wake, copy_exit, ok_exit, cut_off, exit_enabled,
  handle_condition_event, wait_for_copy_or_condition, when_received,
}

-- copyDone holds its one result until it is received, and the select wakes when a channel is ready.
pub record ChannelLaws (channels : Channels) : Type 0 where
  pub kept_to_wake :
      (result : CopyResult)
      → channels.copy_at_start ≡ some result
      → channels.copy_at_wake ≡ some result
  pub kept_after :
      (result : CopyResult)
      → channels.copy_at_wake ≡ some result
      → channels.copy_after_event ≡ some result
  pub wakes : wake channels ≢ none

-- The exit that the channels' contents determine, without the choice of the select.
abbrev pub settled : Option CopyResult → Option Bool → Cutoff → EventEmitter → Exit
settled (some result) is_open cutoff emitter = copy_exit result (some emitter)
settled none (some true) cutoff emitter = ok_exit (cut_off cutoff (some emitter))
settled none _ cutoff emitter = ok_exit (some emitter)

exit_enabled-settled :
    (start copy : Option CopyResult) (events : Option Bool) (takes_events : Bool)
    (after : Option CopyResult) (cutoff : Cutoff) (emitter : EventEmitter)
    → ((result : CopyResult) → copy ≡ some result → after ≡ some result)
    → select copy events takes_events ≢ none
    → when_received
        (exit_enabled
          (record {
            copy_at_start = start;
            copy_at_wake = copy;
            events_at_wake = events;
            takes_events = takes_events;
            copy_after_event = after;
          })
          cutoff
          emitter)
        (select copy events takes_events)
      ≡ some (settled after events cutoff emitter)
unfolding handle_condition_event
exit_enabled-settled start none none takes_events after cutoff emitter kept wakes =
    absurd (wakes refl)
exit_enabled-settled start none (some true) takes_events none cutoff emitter kept wakes = refl
exit_enabled-settled start none (some false) takes_events none cutoff emitter kept wakes = refl
exit_enabled-settled start none (some is_open) takes_events (some result) cutoff emitter kept
      wakes =
    refl
exit_enabled-settled start (some result) none takes_events after cutoff emitter kept wakes =
    rw (kept result refl) refl
exit_enabled-settled start (some result) (some is_open) true after cutoff emitter kept wakes =
    rw (kept result refl) refl
exit_enabled-settled start (some result) (some is_open) false after cutoff emitter kept wakes =
    rw (kept result refl) refl

-- With event output, the exit does not depend on which ready channel the select takes: a copy that has
-- ended by the time the event is received decides it, with its error if it has one and no event
-- emitted; otherwise the events of a cutoff are emitted exactly when the condition stream delivered.
pub wait_for_copy_or_condition-settled :
    (channels : Channels) (cutoff : Cutoff) (emitter : EventEmitter)
    → ChannelLaws channels
    → wait_for_copy_or_condition channels cutoff (some emitter)
      ≡ some (settled channels.copy_after_event channels.events_at_wake cutoff emitter)
unfolding wait_for_copy_or_condition
wait_for_copy_or_condition-settled channels cutoff emitter laws =
    elim (Option-cases channels.copy_at_start) [
      | inl n ↦ rw n (
          exit_enabled-settled channels.copy_at_start channels.copy_at_wake channels.events_at_wake
            channels.takes_events channels.copy_after_event cutoff emitter laws.kept_after
            laws.wakes)
      | inr (result, e) ↦
          let after = laws.kept_after result (laws.kept_to_wake result e) in rw (e, after) refl
    ]
