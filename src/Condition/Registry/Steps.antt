-- ===== src/Condition/Registry/Steps.antt =====
-- The goroutines of a run, interleaved in any order.
use outage.Base.{ℕ, ◌<◌, true, Option, some, List, [], ◌∷◌, ◌≡◌, ◌⊎◌}
use outage.Condition.Events.{Event}
use outage.Condition.Registry.{
  Registry, made, receiving, sending, finishing, closing, at_phase, cancel, deliver, end_finish,
  finish, new_run_registry, receive, start_pending, start_stream, subscribe, unsubscribe,
}

-- The stream's context is done.
abbrev pub IsDone : Registry → ℕ → Type 0
IsDone r i = ((r.stream_at i).cancelled ≡ true) ⊎ (r.cancelled ≡ true)

-- A step of one goroutine; its result is `none` if it panics.
pub data Step (r : Registry) : Option Registry → Type 0 where
  cancels_root : Step r (some (record r { cancelled = true }))
  subscribes : (key : ℕ) → Step r (some (subscribe key r).0)
  starts_stream :
      (i : ℕ) → i < r.stream_count → (r.stream_at i).phase ≡ made → Step r (some (start_stream i r))
  starts_pending : Step r (some (start_pending r))
  receives :
      (i : ℕ) (e : Event)
      → i < r.stream_count
      → (r.stream_at i).phase ≡ receiving
      → Step r (some (receive i e r))
  -- The source is closed, or the context is done at the select.
  source_ends :
      (i : ℕ)
      → i < r.stream_count
      → (r.stream_at i).phase ≡ receiving
      → Step r (some (at_phase i finishing r))
  delivers :
      (i : ℕ) (e : Event) (n : ℕ) (rest : List ℕ)
      → i < r.stream_count
      → (r.stream_at i).phase ≡ sending e (n ∷ rest)
      → Step r (deliver i e n rest r)
  -- The subscriber's context is done.
  skips :
      (i : ℕ) (e : Event) (n : ℕ) (rest : List ℕ)
      → i < r.stream_count
      → (r.stream_at i).phase ≡ sending e (n ∷ rest)
      → Step r (some (at_phase i (sending e rest) (unsubscribe n r)))
  abandons :
      (i : ℕ) (e : Event) (n : ℕ) (rest : List ℕ)
      → i < r.stream_count
      → (r.stream_at i).phase ≡ sending e (n ∷ rest)
      → IsDone r i
      → Step r (some (at_phase i finishing r))
  served :
      (i : ℕ) (e : Event)
      → i < r.stream_count
      → (r.stream_at i).phase ≡ sending e []
      → Step r (some (at_phase i receiving r))
  finishes : (i : ℕ) → i < r.stream_count → (r.stream_at i).phase ≡ finishing → Step r (finish i r)
  ends :
      (i : ℕ)
      → i < r.stream_count
      → (r.stream_at i).phase ≡ closing
      → Step r (some (end_finish i r))
  unsubscribes : (n : ℕ) → n < r.sub_count → Step r (some (unsubscribe n r))
  cancels :
      (i : ℕ) → i < r.stream_count → (r.stream_at i).to_cancel ≡ true → Step r (some (cancel i r))

-- The registries that a run may come to.
pub data Reach : Registry → Type 0 where
  start : Reach new_run_registry
  next : {r s : Registry} {o : Option Registry} → Reach r → Step r o → o ≡ some s → Reach s
