-- ===== src/Condition/Registry/Channels.antt =====
-- Sending and closing: no channel panics, and the invariant is kept.
use outage.Base.{
  ℕ, ◌<◌, true, false, some, List, [], ◌∷◌, ◌++◌, In, here, there, IsNodup, ◌≡◌, ◌≢◌, inl, inr,
  refl, sym, ap, ◌∙◌, subst,
}
use outage.Condition.Events.{Event}
use outage.Condition.Registry.{
  Registry, Subscription, closing, finishing, sending, at_phase, close_all, deliver, finish, send,
  update, with_stream, with_sub,
}
use outage.Condition.Registry.Sound.{
  Inv, IsSound, IsEntry, Holds, IsSound-mono, is_over, to_serve, update-all,
}
use outage.Condition.Registry.Phases.{at_phase-Inv}

-- What is sent does not change whom a subscription belongs to, or whether its channel is open.
sent-Holds :
    (sub_at : ℕ → Subscription) (sub_count i n : ℕ) (sent : List Event) (m : ℕ)
    → Holds sub_at sub_count i m
    → Holds (update sub_at n (record (sub_at n) { sent = sent })) sub_count i m
sent-Holds sub_at sub_count i n sent m h = record {
  exists = h.exists;
  of_stream =
      update-all (λ k t. (sub_at k).stream ≡ i → t.stream ≡ i) sub_at n
        (record (sub_at n) { sent = sent }) (λ e. e) m (λ d e. e) h.of_stream;
  is_open =
      update-all (λ k t. (sub_at k).ch_closed ≡ false → t.ch_closed ≡ false) sub_at n
        (record (sub_at n) { sent = sent }) (λ e. e) m (λ d e. e) h.is_open;
}

sent-Inv :
    (r : Registry) (n : ℕ) (sent : List Event)
    → Inv r
    → Inv (with_sub n (record (r.sub_at n) { sent = sent }) r)
sent-Inv r n sent inv = record {
  sound = λ i lt. IsSound-mono (sent-Holds r.sub_at r.sub_count i n sent) (λ e. e) (inv.sound i lt);
  entry_lt = inv.entry_lt;
  entry = inv.entry;
}

-- A send of dispatch is on an open channel.
pub deliver-Inv :
    (r : Registry) (i : ℕ) (e : Event) (n : ℕ) (rest : List ℕ)
    → i < r.stream_count
    → (r.stream_at i).phase ≡ sending e (n ∷ rest)
    → Inv r
    → (t : Registry) × (deliver i e n rest r ≡ some t) × Inv t
unfolding deliver send
deliver-Inv r i e n rest lt p inv =
    let served = λ (m : ℕ) (x : In m (n ∷ rest)).
      (inv.sound i lt).served_hold m (subst (In m) (ap to_serve (sym p)) x) in
    let h = served n (here refl) in
    let r' = with_sub n (record (r.sub_at n) { sent = (r.sub_at n).sent ++ e ∷ [] }) r in
    (
      at_phase i (sending e rest) r',
      rw h.is_open refl,
      at_phase-Inv r' i (sending e rest) (ap is_over (sym p))
          (λ m x. inr (subst (In m) (ap to_serve (sym p)) (there x)))
          (sent-Inv r n ((r.sub_at n).sent ++ e ∷ []) inv),
    )

-- The subscriptions after their channels are closed.
abbrev pub closed_subs : List ℕ → (ℕ → Subscription) → ℕ → Subscription
closed_subs [] f = f
closed_subs (n ∷ ns) f = closed_subs ns (update f n (record (f n) { ch_closed = true }))

pub close_all_lem :
    (ns : List ℕ) (r : Registry)
    → IsNodup ns
    → ((n : ℕ) → In n ns → (r.sub_at n).ch_closed ≡ false)
    → close_all ns r ≡ some (record r { sub_at = closed_subs ns r.sub_at })
unfolding close_all
close_all_lem [] r d h = refl
close_all_lem (n ∷ ns) r d h =
    let r' = with_sub n (record (r.sub_at n) { ch_closed = true }) r in
    let ih = close_all_lem ns r' d.1 (λ m x.
      update-all (λ k t. In k ns → t.ch_closed ≡ false) r.sub_at n
        (record (r.sub_at n) { ch_closed = true }) (λ y. absurd (d.0 y)) m (λ ne y. h m (there y))
        x) in
    rw (h n (here refl)) ih

pub closed_subs-other :
    (ns : List ℕ) (f : ℕ → Subscription) (m : ℕ) → ¬ (In m ns) → closed_subs ns f m ≡ f m
closed_subs-other [] f m out = refl
closed_subs-other (n ∷ ns) f m out =
    closed_subs-other ns (update f n (record (f n) { ch_closed = true })) m (λ x. out (there x))
    ∙ update-all (λ k t. ¬ (In k (n ∷ ns)) → t ≡ f k) f n (record (f n) { ch_closed = true })
        (λ o. absurd (o (here refl))) m (λ ne o. refl) out

-- finish closes open channels only.
pub finish-Inv :
    (r : Registry) (i : ℕ)
    → i < r.stream_count
    → (r.stream_at i).phase ≡ finishing
    → Inv r
    → (t : Registry) × (finish i r ≡ some t) × Inv t
unfolding finish
finish-Inv r i lt p inv =
    let q = inv.sound i lt in
    let subs = (r.stream_at i).subs in
    let after = record (r.stream_at i) { closed = true; subs = []; phase = closing } in
    let sub_at' = closed_subs subs r.sub_at in
    (
      with_stream i after (record r { sub_at = sub_at' }),
      rw (close_all_lem subs r q.nodup (λ n x. (q.subs_hold n x).is_open)) refl,
      record {
        sound = λ j jlt.
            update-all (λ k t. k < r.stream_count → IsSound sub_at' r.sub_count r.streams k t)
              r.stream_at i after
              (λ _. record {
                subs_hold = λ n x. elim x [ ];
                served_hold = λ n x. elim x [ ];
                nodup = tt;
                closed_over = refl;
                closed_empty = λ c. refl;
                registered = λ c. cc;
                released = λ c. cc;
              })
              j (λ ne klt. IsSound-mono (other j ne) (λ e. e) (inv.sound j klt)) jlt;
        entry_lt = inv.entry_lt;
        entry = λ key j e.
            update-all (λ k t. r.streams key ≡ some k → IsEntry key t) r.stream_at i after
              (λ f. record { of_key = (inv.entry key i f).of_key; runs = inl refl }) j
              (λ ne. inv.entry key j) e;
      },
    )
  where
    other :
        (j : ℕ)
        → i ≢ j
        → (n : ℕ) → Holds r.sub_at r.sub_count j n
        → Holds (closed_subs (r.stream_at i).subs r.sub_at) r.sub_count j n
    other j ne n h =
        let out = λ (x : In n (r.stream_at i).subs).
          ne (sym ((inv.sound i lt).subs_hold n x).of_stream ∙ h.of_stream) in
        let same = closed_subs-other (r.stream_at i).subs r.sub_at n out in
        record {
          exists = h.exists;
          of_stream = ap (λ (t : Subscription). t.stream) same ∙ h.of_stream;
          is_open = ap (λ (t : Subscription). t.ch_closed) same ∙ h.is_open;
        }
