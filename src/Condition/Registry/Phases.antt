-- ===== src/Condition/Registry/Phases.antt =====
-- The operations of the registry that change no subscriptions and no entries keep its invariant.
use outage.Base.{
  ℕ, ◌<◌, Bool, true, false, In, ◌≡◌, ◌⊎◌, inl, inr, refl, sym, ap, ◌∙◌, subst, if◌then◌else◌,
  Bool-cases,
}
use outage.Condition.Events.{Event}
use outage.Condition.Registry.{
  Phase, Registry, Stream, made, waiting, receiving, finishing, closing, finished, sending,
  at_phase, cancel, end_finish, launch, receive, start_pending, start_stream,
}
use outage.Condition.Registry.Sound.{Inv, IsSound, changed-Inv, is_over, to_serve}

IsSound-phase :
    (r : Registry) {i : ℕ} {s : Stream} (p : Phase)
    → is_over p ≡ is_over s.phase
    → ((n : ℕ) → In n (to_serve p) → In n s.subs ⊎ In n (to_serve s.phase))
    → IsSound r.sub_at r.sub_count r.streams i s
    → IsSound r.sub_at r.sub_count r.streams i (record s { phase = p })
IsSound-phase r {i} {s} p over serves q = record {
  subs_hold = q.subs_hold;
  served_hold = λ n x. elim (serves n x) [ inl a ↦ q.subs_hold n a | inr b ↦ q.served_hold n b ];
  nodup = q.nodup;
  closed_over = q.closed_over ∙ sym over;
  closed_empty = q.closed_empty;
  registered = q.registered;
  released = q.released;
}

module _ (r : Registry) (i : ℕ) (p : Phase) where
  pub at_phase-Inv :
      is_over p ≡ is_over (r.stream_at i).phase
      → ((n : ℕ)
          → In n (to_serve p)
          → In n (r.stream_at i).subs ⊎ In n (to_serve (r.stream_at i).phase))
      → Inv r
      → Inv (at_phase i p r)
  at_phase-Inv over serves inv =
      changed-Inv r i (record (r.stream_at i) { phase = p }) inv
        (λ lt. IsSound-phase r p over serves (inv.sound i lt))
        (λ key e. let q = inv.entry key i e in record { of_key = q.of_key; runs = q.runs })

module _ (r : Registry) (i : ℕ) where
  pub start_stream-Inv : (r.stream_at i).phase ≡ made → Inv r → Inv (start_stream i r)
  unfolding start_stream
  start_stream-Inv e inv =
      at_phase-Inv r i (if r.started then receiving else waiting)
        (begins r.started ∙ ap is_over (sym e)) (λ n x. absurd (idle r.started n x)) inv
    where
      begins : (b : Bool) → is_over (if b then receiving else waiting) ≡ false
      begins true = refl
      begins false = refl

      idle : (b : Bool) (n : ℕ) → In n (to_serve (if b then receiving else waiting)) → ⊥
      idle true n x = elim x [ ]
      idle false n x = elim x [ ]

  pub receive-Inv : (e : Event) → (r.stream_at i).phase ≡ receiving → Inv r → Inv (receive i e r)
  unfolding receive
  receive-Inv e q inv =
      at_phase-Inv r i (sending e (r.stream_at i).subs) (ap is_over (sym q)) (λ n x. inl x) inv

  pub cancel-Inv : (r.stream_at i).to_cancel ≡ true → Inv r → Inv (cancel i r)
  unfolding cancel
  cancel-Inv t inv =
      changed-Inv r i (record (r.stream_at i) { cancelled = true; to_cancel = false }) inv
        (λ lt.
          let q = inv.sound i lt in
          record {
            subs_hold = q.subs_hold;
            served_hold = q.served_hold;
            nodup = q.nodup;
            closed_over = q.closed_over;
            closed_empty = q.closed_empty;
            registered = q.registered;
            released = λ c e. inr refl;
          })
        (λ key e.
          let q = inv.entry key i e in
          record {
            of_key = q.of_key;
            runs = elim q.runs [ inl c ↦ inl c | inr (f, _, _) ↦ absurd (cc (sym t ∙ f)) ];
          })

  pub end_finish-Inv :
      (r.stream_at i).phase ≡ closing → i < r.stream_count → Inv r → Inv (end_finish i r)
  unfolding end_finish
  end_finish-Inv p lt inv =
      let q = inv.sound i lt in
      let c : (r.stream_at i).closed ≡ true = q.closed_over ∙ ap is_over p in
      changed-Inv r i (record (r.stream_at i) { cancelled = true; phase = finished }) inv
        (λ _. record {
          subs_hold = q.subs_hold;
          served_hold = λ n x. elim x [ ];
          nodup = q.nodup;
          closed_over = c;
          closed_empty = q.closed_empty;
          registered = q.registered;
          released = λ d e. inr refl;
        })
        (λ key e. record { of_key = (inv.entry key i e).of_key; runs = inl c })

launch-is_over : (p : Phase) → is_over (launch p) ≡ is_over p
launch-is_over made = refl
launch-is_over waiting = refl
launch-is_over receiving = refl
launch-is_over finishing = refl
launch-is_over closing = refl
launch-is_over finished = refl
launch-is_over (sending e ns) = refl

pub launch-to_serve : (p : Phase) → to_serve (launch p) ≡ to_serve p
launch-to_serve made = refl
launch-to_serve waiting = refl
launch-to_serve receiving = refl
launch-to_serve finishing = refl
launch-to_serve closing = refl
launch-to_serve finished = refl
launch-to_serve (sending e ns) = refl

pub start_pending-Inv : (r : Registry) → Inv r → Inv (start_pending r)
unfolding start_pending
start_pending-Inv r inv = elim (Bool-cases r.started) [
  | inl t ↦ simp t inv
  | inr t ↦ simp t (record {
    sound = λ i lt.
        IsSound-phase r (launch (r.stream_at i).phase) (launch-is_over (r.stream_at i).phase)
          (λ n x. inr (subst (In n) (launch-to_serve (r.stream_at i).phase) x)) (inv.sound i lt);
    entry_lt = inv.entry_lt;
    entry = λ key i e. let q = inv.entry key i e in record { of_key = q.of_key; runs = q.runs };
  })
]
