-- ===== src/Condition/Merging.antt =====
-- What the forwarders of and.go and or.go share: their sources, and the channel into which they send.
pub mod Orders
use outage.Base.{ℕ, Bool, Option, List, [], ◌∷◌, get_or, set, ◌≡◌}
use outage.Condition.Events.{Event}

-- What a round of a forwarder meets: an event of its source, or its end, with whether the send into
-- `merged` goes through before the context is done.
abbrev pub Readings : Type 0
Readings = List (Option Event × Bool)

-- The channel takes the heads of the senders' queues in any order, until all are empty; each message
-- meets its surroundings at the receiver.
pub data Merges {A S : Type 0} : List (List A) → List (S × A) → Type 0 where
  done : {queues : List (List A)} → ((i : ℕ) → get_or queues i [] ≡ []) → Merges queues []
  take :
      {queues : List (List A)} {env : S} {m : A} {queue : List A} {ms : List (S × A)} (i : ℕ)
      → get_or queues i [] ≡ m ∷ queue
      → Merges (set queues i queue) ms
      → Merges queues ((env, m) ∷ ms)
