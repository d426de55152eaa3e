-- ===== src/Condition/Registry/Safety.antt =====
-- What holds of the registry in every interleaving.
use outage.Base.{
  ℕ, ◌<◌, Bool, true, false, Option, none, some, [], In, there, ◌≡◌, ◌≢◌, ◌⊎◌, inl, inr, refl, sym,
  ap, ◌∙◌, subst,
}
use outage.Condition.Registry.Steps.{
  Step, Reach, start, next, cancels_root, subscribes, starts_stream, starts_pending, receives,
  source_ends, delivers, skips, abandons, served, finishes, ends, unsubscribes, cancels,
}
use outage.Condition.Registry.Sound.{Inv, is_over, to_serve, update-all}
use outage.Condition.Registry.Phases.{
  at_phase-Inv, start_stream-Inv, receive-Inv, cancel-Inv, end_finish-Inv, start_pending-Inv,
}
use outage.Condition.Registry.Channels.{deliver-Inv, finish-Inv}
use outage.Condition.Registry.Subscribes.{subscribe-Inv}
use outage.Condition.Registry.Leaves.{unsubscribe-Inv}
use outage.Condition.Registry.{
  Registry, Stream, finishing, receiving, sending, leave, leave_if, member, new_run_registry,
  unsubscribe,
}

new_run_registry-Inv : Inv new_run_registry
new_run_registry-Inv = record {
  sound = λ i lt. elim lt [ ];
  entry_lt = λ key i e. cc;
  entry = λ key i e. cc;
}

-- unsubscribe leaves the goroutines where they are.
pub unsubscribe-phase :
    (r : Registry) (n i : ℕ) → ((unsubscribe n r).stream_at i).phase ≡ (r.stream_at i).phase
unfolding unsubscribe leave
unsubscribe-phase r n i = go (member n (r.stream_at j).subs)
  where
    j : ℕ
    j = (r.sub_at n).stream

    go : (b : Bool) → ((leave_if b n j r).stream_at i).phase ≡ (r.stream_at i).phase
    go true =
        update-all (λ k (s : Stream). s.phase ≡ (r.stream_at k).phase) r.stream_at j _ refl i
          (λ ne. refl)
    go false = refl

-- A step does not panic, and keeps the invariant.
Step-Inv :
    {r : Registry} {o : Option Registry} → Step r o → Inv r → (t : Registry) × (o ≡ some t) × Inv t
Step-Inv {r} cancels_root inv =
    (_, refl, record { sound = inv.sound; entry_lt = inv.entry_lt; entry = inv.entry })
Step-Inv {r} (subscribes key) inv = (_, refl, subscribe-Inv key r inv)
Step-Inv {r} (starts_stream i lt p) inv = (_, refl, start_stream-Inv r i p inv)
Step-Inv {r} starts_pending inv = (_, refl, start_pending-Inv r inv)
Step-Inv {r} (receives i e lt p) inv = (_, refl, receive-Inv r i e p inv)
Step-Inv {r} (source_ends i lt p) inv =
    (_, refl, at_phase-Inv r i finishing (ap is_over (sym p)) (λ n x. elim x [ ]) inv)
Step-Inv {r} (delivers i e n rest lt p) inv = deliver-Inv r i e n rest lt p inv
Step-Inv {r} (skips i e n rest lt p) inv =
    let p' = unsubscribe-phase r n i ∙ p in
    (
      _,
      refl,
      at_phase-Inv (unsubscribe n r) i (sending e rest) (ap is_over (sym p'))
          (λ m x. inr (subst (In m) (ap to_serve (sym p')) (there x))) (unsubscribe-Inv r n inv),
    )
Step-Inv {r} (abandons i e n rest lt p d) inv =
    (_, refl, at_phase-Inv r i finishing (ap is_over (sym p)) (λ m x. elim x [ ]) inv)
Step-Inv {r} (served i e lt p) inv =
    (_, refl, at_phase-Inv r i receiving (ap is_over (sym p)) (λ m x. elim x [ ]) inv)
Step-Inv {r} (finishes i lt p) inv = finish-Inv r i lt p inv
Step-Inv {r} (ends i lt p) inv = (_, refl, end_finish-Inv r i p lt inv)
Step-Inv {r} (unsubscribes n lt) inv = (_, refl, unsubscribe-Inv r n inv)
Step-Inv {r} (cancels i lt t) inv = (_, refl, cancel-Inv r i t inv)

pub Reach-Inv : {r : Registry} → Reach r → Inv r
Reach-Inv start = new_run_registry-Inv
Reach-Inv (next {s} reach step e) =
    let (t, q, inv) = Step-Inv step (Reach-Inv reach) in subst Inv (some-injective (sym q ∙ e)) inv
  where
    some-injective : {a b : Registry} → some a ≡ some b → a ≡ b
    some-injective h = cc

-- In no interleaving of subscribers, monitors and cancellations does a step send on a closed channel or
-- close a channel twice.
pub Step-ne-none : {r : Registry} {o : Option Registry} → Reach r → Step r o → o ≢ none
Step-ne-none reach step e =
    let (t, q, inv) = Step-Inv step (Reach-Inv reach) in absurd (some-ne-none (sym q ∙ e))
  where
    some-ne-none : {a : Registry} → some a ≢ none
    some-ne-none h = cc

module _ {r : Registry} (reach : Reach r) where
  -- A condition has at most one stream that is open and has subscribers, and a subscription of the
  -- condition joins that one.
  pub Reach-shared :
      (i j : ℕ)
      → i < r.stream_count
      → j < r.stream_count
      → (r.stream_at i).closed ≡ false
      → (r.stream_at j).closed ≡ false
      → (r.stream_at i).subs ≢ []
      → (r.stream_at j).subs ≢ []
      → (r.stream_at i).key ≡ (r.stream_at j).key
      → (i ≡ j) × (r.streams (r.stream_at i).key ≡ some i)
  Reach-shared i j ilt jlt ic jc ine jne same =
      let p = ((Reach-Inv reach).sound i ilt).registered ic ine in
      let q = ((Reach-Inv reach).sound j jlt).registered jc jne in
      (index (sym p ∙ ap r.streams same ∙ q), p)
    where
      index : {a b : ℕ} → some a ≡ some b → a ≡ b
      index h = cc

  -- A monitor that nobody listens to is not left running: its stream is closed or cancelled, or the
  -- subscriber that left it last is about to cancel it. And the map never leads a new subscriber to a
  -- stream that is cancelled but not closed.
  pub Reach-released :
      (i : ℕ)
      → i < r.stream_count
      → ((r.stream_at i).subs ≡ []
          → (r.stream_at i).closed ≡ false
          → ((r.stream_at i).to_cancel ≡ true) ⊎ ((r.stream_at i).cancelled ≡ true))
        × ((key : ℕ)
            → r.streams key ≡ some i
            → (r.stream_at i).closed ≡ false
            → (r.stream_at i).cancelled ≡ false)
  Reach-released i lt = (
    (λ empty live. ((Reach-Inv reach).sound i lt).released live empty),
    (λ key e live. elim ((Reach-Inv reach).entry key i e).runs [
      | inl c ↦ absurd (true-ne-false (sym c ∙ live))
      | inr (t, f, ne) ↦ f
    ]),
  )
    where
      true-ne-false : true ≢ false
      true-ne-false h = cc
