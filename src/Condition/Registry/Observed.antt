-- ===== src/Condition/Registry/Observed.antt =====
-- What dispatch takes from the source of each stream, beside the steps of a run.
use outage.Base.{ℕ, Option, some, List, [], ◌∷◌, ◌++◌, ◌≡◌}
use outage.Condition.Events.{Event}
use outage.Condition.Registry.{Registry, new_run_registry, subscribe, update}
use outage.Condition.Registry.Steps.{
  Step, Reach, start, next, cancels_root, subscribes, starts_stream, starts_pending, receives,
  source_ends, delivers, skips, abandons, served, finishes, ends, unsubscribes, cancels,
}

-- The events that each stream has taken so far, and had taken when each subscription was made.
pub record History : Type 0 where
  pub taken : ℕ → List Event
  pub before : ℕ → List Event

abbrev pub observe : {r : Registry} {o : Option Registry} → Step r o → History → History
observe {r} (subscribes key) g = record g {
  before = update g.before r.sub_count (g.taken ((subscribe key r).0.sub_at r.sub_count).stream);
}
observe (receives i e lt p) g = record g { taken = update g.taken i (g.taken i ++ e ∷ []) }
observe cancels_root g = g
observe (starts_stream i lt p) g = g
observe starts_pending g = g
observe (source_ends i lt p) g = g
observe (delivers i e n rest lt p) g = g
observe (skips i e n rest lt p) g = g
observe (abandons i e n rest lt p d) g = g
observe (served i e lt p) g = g
observe (finishes i lt p) g = g
observe (ends i lt p) g = g
observe (unsubscribes n lt) g = g
observe (cancels i lt t) g = g

-- The registries that a run may come to, with its history.
pub data Observed : Registry → History → Type 0 where
  begins : Observed new_run_registry (record { taken = λ _. []; before = λ _. [] })
  goes_on :
      {r s : Registry} {g : History} {o : Option Registry}
      → Observed r g
      → (step : Step r o) → o ≡ some s
      → Observed s (observe step g)

pub Observed-Reach : {r : Registry} {g : History} → Observed r g → Reach r
Observed-Reach begins = start
Observed-Reach (goes_on observed step e) = next (Observed-Reach observed) step e
