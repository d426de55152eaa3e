-- ===== src/Condition/Registry/Broadcast.antt =====
-- What subscribers are sent, in every interleaving.
use outage.Base.{
  ℕ, ◌<◌, true, false, ◌&&◌, Option, some, List, [], ◌∷◌, ◌++◌, In, here, there, ==_iff, ◌==◌,
  if◌then◌else◌, append-nil, Bool-cases, ◌≡◌, ◌⊎◌, inl, inr, refl, sym, ap, ◌∙◌, subst, arith,
}
use outage.Condition.Events.{Event}
use outage.Condition.Registry.{
  Phase, Registry, made, waiting, receiving, finishing, closing, finished, sending, end_finish,
  member,
}
use outage.Condition.Registry.Steps.{
  Step, cancels_root, subscribes, starts_stream, starts_pending, receives, source_ends, delivers,
  skips, abandons, served, finishes, ends, unsubscribes, cancels,
}
use outage.Condition.Registry.Sound.{Inv, to_serve}
use outage.Condition.Registry.Safety.{Reach-Inv}
use outage.Condition.Registry.Observed.{History, Observed, Observed-Reach, begins, goes_on, observe}
use outage.Condition.Registry.Heard.{Heard, is_serving, in_flight}
use outage.Condition.Registry.Serving.{
  at_phase-Heard, over-Heard, start_stream-Heard, cancel-Heard, receive-Heard,
}
use outage.Condition.Registry.Leaving.{
  member-not_In, unsubscribe-Heard, skip-Heard, start_pending-Heard,
}
use outage.Condition.Registry.Sending.{deliver-Heard}
use outage.Condition.Registry.Finishing.{finish-Heard}
use outage.Condition.Registry.Joining.{subscribe-Heard}

Step-Heard :
    {r : Registry} {o : Option Registry} {g : History} (step : Step r o)
    → Inv r
    → Heard r g
    → (t : Registry) × (o ≡ some t) × Heard t (observe step g)
unfolding end_finish
Step-Heard {r} cancels_root inv heard =
    (_, refl, record { hears = heard.hears; no_gap = heard.no_gap })
Step-Heard {r} {g = g} (subscribes key) inv heard = (_, refl, subscribe-Heard key r g inv heard)
Step-Heard {r} {g = g} (starts_stream i lt p) inv heard =
    (_, refl, start_stream-Heard r g i heard p)
Step-Heard {r} {g = g} starts_pending inv heard = (_, refl, start_pending-Heard r g heard)
Step-Heard {r} {g = g} (receives i e lt p) inv heard =
    (_, refl, receive-Heard r g i heard e inv p lt)
Step-Heard {r} {g = g} (source_ends i lt p) inv heard =
    (_, refl, over-Heard r g i heard _ refl refl)
Step-Heard {r} {g = g} (delivers i e n rest lt p) inv heard =
    deliver-Heard r g i e n rest lt p inv heard
Step-Heard {r} {g = g} (skips i e n rest lt p) inv heard =
    let own = (inv.sound i lt).served_hold n (subst (In n) (ap to_serve (sym p)) (here refl)) in
    (_, refl, skip-Heard r g heard i n e rest own.of_stream p)
Step-Heard {r} {g = g} (abandons i e n rest lt p d) inv heard =
    (_, refl, over-Heard r g i heard _ refl refl)
Step-Heard {r} {g = g} (served i e lt p) inv heard =
    (_, refl, at_phase-Heard r g i heard receiving (λ _. ap is_serving p) (ap to_serve p) refl)
Step-Heard {r} {g = g} (finishes i lt p) inv heard = finish-Heard r g i lt inv heard
Step-Heard {r} {g = g} (ends i lt p) inv heard = (_, refl, over-Heard r g i heard _ refl refl)
Step-Heard {r} {g = g} (unsubscribes n lt) inv heard = (_, refl, unsubscribe-Heard r g heard n)
Step-Heard {r} {g = g} (cancels i lt t) inv heard = (_, refl, cancel-Heard r g i heard)

Observed-Heard : {r : Registry} {g : History} → Observed r g → Heard r g
Observed-Heard begins = record { hears = λ i lt. elim lt [ ]; no_gap = λ n lt. elim lt [ ] }
Observed-Heard (goes_on {r} {s} {g} observed step e) =
    let (t, q, heard) =
      Step-Heard step (Reach-Inv (Observed-Reach observed)) (Observed-Heard observed) in
    subst (λ t. Heard t (observe step g)) (some-injective (sym q ∙ e)) heard
  where
    some-injective : {a b : Registry} → some a ≡ some b → a ≡ b
    some-injective h = cc

-- The event that dispatch has still to send to a subscription.
abbrev pub unsent : ℕ → Phase → List Event
unsent n (sending e ns) = if member n ns then e ∷ [] else []
unsent n made = []
unsent n waiting = []
unsent n receiving = []
unsent n finishing = []
unsent n closing = []
unsent n finished = []

member-In : (n : ℕ) (ns : List ℕ) → member n ns ≡ true → In n ns
member-In n [] h = cc
member-In n (m ∷ ns) h = elim (Bool-cases (n == m)) [
  | inl e ↦ here ((==_iff n m).0 e)
  | inr f ↦ there (member-In n ns (ground arith))
]

module _ (n : ℕ) (before sent taken : List Event) where
  idle_lem : before ++ sent ≡ taken → before ++ (sent ++ []) ≡ taken
  idle_lem h = ap (λ es. before ++ es) (append-nil sent) ∙ h

  -- All is sent, but for the event in flight to those that wait for it.
  unsent_lem :
      (p : Phase)
      → (¬ (In n (to_serve p)) → before ++ sent ≡ taken)
      → (In n (to_serve p) → before ++ (sent ++ in_flight p) ≡ taken)
      → before ++ (sent ++ unsent n p) ≡ taken
  unsent_lem (sending e ns) current pending = elim (Bool-cases (member n ns)) [
    | inl t ↦ rw t (pending (member-In n ns t))
    | inr f ↦ rw f (idle_lem (current (member-not_In n ns f)))
  ]
  unsent_lem made current pending = idle_lem (current (λ x. elim x [ ]))
  unsent_lem waiting current pending = idle_lem (current (λ x. elim x [ ]))
  unsent_lem receiving current pending = idle_lem (current (λ x. elim x [ ]))
  unsent_lem finishing current pending = idle_lem (current (λ x. elim x [ ]))
  unsent_lem closing current pending = idle_lem (current (λ x. elim x [ ]))
  unsent_lem finished current pending = idle_lem (current (λ x. elim x [ ]))

-- In every interleaving, each subscription of a stream has been sent, in order and with nothing left
-- out or repeated, the events that the stream took since the subscription was made, up to some point;
-- and while the stream serves the subscription, that is all of them but the event that dispatch has still
-- to send to it.
pub Observed-sent :
    {r : Registry} {g : History}
    → Observed r g
    → (i n : ℕ) → i < r.stream_count
    → n < r.sub_count
    → (r.sub_at n).stream ≡ i
    → (rest : List Event) × (g.before n ++ ((r.sub_at n).sent ++ rest) ≡ g.taken i)
      × ((rest ≡ unsent n (r.stream_at i).phase)
          ⊎ (member n (r.stream_at i).subs && is_serving (r.stream_at i).phase ≡ false))
Observed-sent {r} {g} observed i n ilt nlt own =
    let heard = Observed-Heard observed in
    let h = heard.hears i ilt in
    let (rest, e) = heard.no_gap n nlt in
    elim (Bool-cases (member n (r.stream_at i).subs && is_serving (r.stream_at i).phase)) [
      | inl t ↦ (
        _,
        unsent_lem n (g.before n) (r.sub_at n).sent (g.taken i) (r.stream_at i).phase
            (h.current (ground arith) n (member-In n (r.stream_at i).subs (ground arith)))
            (h.pending n),
        inl refl,
      )
      | inr f ↦ (rest, e ∙ ap g.taken own, inr f)
    ]
