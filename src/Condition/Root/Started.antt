-- ===== src/Condition/Root/Started.antt =====
-- No monitor dispatches before every branch of the run has subscribed.
use outage.Base.{ℕ, ◌<◌, Bool, true, false, ◌≡◌, refl, ap, ◌∙◌, subst, arith}
use outage.Condition.Registry.{
  Registry, waiting, receiving, new_run_registry, launch, start_pending, subscribe,
}
use outage.Condition.Registry.Steps.{Reach, start, next, subscribes, starts_stream, starts_pending}
use outage.Condition.Root.{
  child, Children, end, nil_child, followed, subscribe_child, subscribe_children, when_made,
  run_root,
}
use outage.Condition.Root.Extends.{
  Extends, Extends-refl, Extends-trans, Made, subscribe-Made, start_stream-Extends,
}

-- What a subscription of children keeps, from a registry that a run comes to before it starts.
record Sets (r s : Registry) : Type 0 where
  extends : Extends r s
  reach : Reach s

when_made-Sets :
    (b : Bool) (r s t : Registry)
    → r.started ≡ false
    → Made b r s
    → Reach s
    → (s.started ≡ false → Sets s t)
    → Sets r (when_made b r.stream_count t s)
when_made-Sets false r s t quiet m reach below = record { extends = m; reach = reach }
when_made-Sets true r s t quiet (a, b, c, d) reach below =
    let x = below (a ∙ quiet) in
    let more = x.extends.more in
    record {
      extends = start_stream-Extends r s t quiet (a, b, c, d) x.extends;
      reach =
          next x.reach
            (starts_stream r.stream_count (omega arith)
              (x.extends.kept r.stream_count (omega arith) ∙ c))
            refl;
    }

subscribe_children-Sets :
    (children : Children) (r : Registry)
    → r.started ≡ false
    → Reach r
    → Sets r (subscribe_children children r)
unfolding subscribe_children subscribe_child
subscribe_children-Sets end r quiet reach = record { extends = Extends-refl r; reach = reach }
subscribe_children-Sets (nil_child children) r quiet reach =
    subscribe_children-Sets children r quiet reach
subscribe_children-Sets (followed (child key below) children) r quiet reach =
    let s = (subscribe key r).0 in
    let reach' : Reach s = next reach (subscribes key) refl in
    let x : Sets r (subscribe_child (child key below) r) =
      when_made-Sets (subscribe key r).1 r s (subscribe_children below s) quiet
        (subscribe-Made key r) reach' (λ q. subscribe_children-Sets below s q reach') in
    let y =
      subscribe_children-Sets children (subscribe_child (child key below) r)
        (x.extends.started ∙ quiet) x.reach in
    record { extends = Extends-trans x.extends y.extends; reach = y.reach }

start_pending-fields :
    (r : Registry)
    → r.started ≡ false
    → ((start_pending r).started ≡ true)
      × ((start_pending r).stream_count ≡ r.stream_count)
      × ((i : ℕ) → ((start_pending r).stream_at i).phase ≡ launch (r.stream_at i).phase)
unfolding start_pending
start_pending-fields r off = (rw off refl, rw off refl, λ i. rw off refl)

-- Where a run stands once its conditions are set up.
pub record IsSetUp (children : Children) : Type 0 where
  pub held :
      (i : ℕ)
      → i < (subscribe_children children new_run_registry).stream_count
      → ((subscribe_children children new_run_registry).stream_at i).phase ≡ waiting
  pub started : (run_root children).started ≡ true
  pub runs :
      (i : ℕ)
      → i < (run_root children).stream_count
      → ((run_root children).stream_at i).phase ≡ receiving
  pub reach : Reach (run_root children)

-- Whatever the tree of conditions, with shared and with nil children: no stream dispatches while the
-- branches subscribe, when the root run has been set up every stream that was made dispatches, and the
-- steps are those of a run, so that what holds of every interleaving holds from there on.
pub run_root-IsSetUp : (children : Children) → IsSetUp children
unfolding run_root
run_root-IsSetUp children =
    let r = subscribe_children children new_run_registry in
    let x = subscribe_children-Sets children new_run_registry refl start in
    let off : r.started ≡ false = x.extends.started in
    let (on, count, phases) = start_pending-fields r off in
    let held = λ (i : ℕ) (l : i < r.stream_count). x.extends.waits i (omega arith) l in
    record {
      held = held;
      started = on;
      runs = λ i l. phases i ∙ ap launch (held i (subst (λ n. i < n) count l));
      reach = next x.reach starts_pending refl;
    }
