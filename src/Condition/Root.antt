-- ===== src/Condition/Root.antt =====
-- How a run of conditions is set up: runRoot and runChild of internal/condition/condition.go, with the
-- subscriptions of run in and.go and or.go.
pub mod Extends
pub mod Started
use outage.Base.{ℕ, Bool, true, false}
use outage.Condition.Registry.{Registry, new_run_registry, start_pending, start_stream, subscribe}

-- A child by its registry key, with its own children; a leaf has none. conditionRegistryKey gives a key
-- of its own to a condition of another package.
mutual
  pub data Child : Type 0 where
    child : ℕ → Children → Child

  pub data Children : Type 0 where
    end : Children
    nil_child : Children → Children
    followed : Child → Children → Children

-- The end of subscribe, by whether it made the stream: runChild has subscribed the child's own children,
-- and the stream starts.
abbrev pub when_made : Bool → ℕ → Registry → Registry → Registry
when_made true i below r = start_stream i below
when_made false i below r = r

-- subscribe of a child with what runChild does, and the loop over the children in run.
unfoldable mutual
  pub subscribe_child : Child → Registry → Registry
  subscribe_child (child key children) r =
      when_made (subscribe key r).1 r.stream_count (subscribe_children children (subscribe key r).0)
        (subscribe key r).0

  pub subscribe_children : Children → Registry → Registry
  subscribe_children end r = r
  subscribe_children (nil_child children) r = subscribe_children children r
  subscribe_children (followed c children) r = subscribe_children children (subscribe_child c r)

-- runRoot for a composition with these children, up to the goroutines that it starts.
unfoldable pub run_root : Children → Registry
run_root children = start_pending (subscribe_children children new_run_registry)
