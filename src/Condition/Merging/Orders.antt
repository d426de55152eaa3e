-- ===== src/Condition/Merging/Orders.antt =====
-- Whatever the forwarders send, the merged channel has an order for it.
use outage.Base.{ℕ, zero, suc, List, [], ◌∷◌, get_or, All, ◌≡◌, refl}
use outage.Condition.Merging.{Merges, done, take}

module _ {A S : Type 0} where
  Merges_behind :
      (messages : List (S × A)) {queues : List (List A)}
      → Merges queues messages
      → Merges ([] ∷ queues) messages
  Merges_behind [] (done {queues} h) = done (empty queues h)
    where
      empty :
          (queues : List (List A))
          → ((i : ℕ) → get_or queues i [] ≡ [])
          → (i : ℕ) → get_or ([] ∷ queues) i [] ≡ []
      empty queues h zero = refl
      empty queues h (suc i) = h i
  Merges_behind ((env, m) ∷ messages) (take i g rest) = take (suc i) g (Merges_behind messages rest)

  abbrev all_in : S → List A → List (S × A) → List (S × A)
  all_in env [] messages = messages
  all_in env (m ∷ queue) messages = (env, m) ∷ all_in env queue messages

  Merges-all_in :
      (env : S) (queue : List A) {queues : List (List A)} (messages : List (S × A))
      → Merges queues messages
      → Merges (queue ∷ queues) (all_in env queue messages)
  Merges-all_in env [] messages merges = Merges_behind messages merges
  Merges-all_in env (m ∷ queue) messages merges =
      take 0 refl (Merges-all_in env queue messages merges)

  All-all_in :
      (P : S → Type 0) (env : S) (queue : List A) (messages : List (S × A))
      → P env
      → All (λ (m : S × A). P m.0) messages
      → All (λ (m : S × A). P m.0) (all_in env queue messages)
  All-all_in P env [] messages p h = h
  All-all_in P env (m ∷ queue) messages p h = (p, All-all_in P env queue messages p h)

  -- Every queue can be received, one after the other.
  pub Merges_exists :
      (P : S → Type 0) (env : S) (queues : List (List A))
      → P env
      → (messages : List (S × A)) × Merges queues messages × All (λ (m : S × A). P m.0) messages
  Merges_exists P env [] p = ([], done (λ i. refl), tt)
  Merges_exists P env (queue ∷ queues) p =
      let (messages, merges, h) = Merges_exists P env queues p in
      (
        all_in env queue messages,
        Merges-all_in env queue messages merges,
        All-all_in P env queue messages p h,
      )
