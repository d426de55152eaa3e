-- ===== src/Examples/RootExamples.antt =====
-- The set-up of internal/condition/condition.go at a tree with a shared leaf.
use outage.Base.{◌≡◌, refl}
use outage.Condition.Root.{Children, child, end, followed, nil_child, subscribe_children, run_root}
use outage.Condition.Root.Started.{IsSetUp, run_root-IsSetUp}
use outage.Condition.Registry.{subscribe, create, attach, start_stream, start_pending}

-- (A && B) || (A && C), with a nil child.
abbrev overlapping : Children
overlapping =
    followed (child 10 (followed (child 1 end) (followed (child 2 end) end)))
      (nil_child (followed (child 11 (followed (child 1 end) (followed (child 3 end) end))) end))

-- A is monitored once.
overlapping_streams : (run_root overlapping).stream_count ≡ 5
unfolding run_root subscribe_children subscribe create attach start_stream start_pending
overlapping_streams = refl

run_root-IsSetUp_example : IsSetUp overlapping
run_root-IsSetUp_example = run_root-IsSetUp overlapping
