-- ===== src/Condition/Registry/Sending.antt =====
-- A send of dispatch keeps what has been heard.
use outage.Base.{
  ℕ, ◌<◌, some, List, [], ◌∷◌, ◌++◌, In, here, there, IsNodup, append-nil, ◌≡◌, ◌≢◌, ◌⊎◌, inl, inr,
  refl, sym, ap, ◌∙◌, subst,
}
use outage.Condition.Events.{Event}
use outage.Condition.Registry.{
  Registry, Subscription, sending, at_phase, deliver, send, update, with_sub,
}
use outage.Condition.Registry.Sound.{Inv, split_at, to_serve, update-all}
use outage.Condition.Registry.Subscribes.{update_self, update_ne}
use outage.Condition.Registry.Observed.{History}
use outage.Condition.Registry.Heard.{Hears, Heard, Hears-mono, is_serving, in_flight}

-- The subscriptions that a stream has or is to serve belong to it.
pub members-of_stream :
    (r : Registry) (j m : ℕ)
    → Inv r
    → j < r.stream_count
    → In m (r.stream_at j).subs ⊎ In m (to_serve (r.stream_at j).phase)
    → (r.sub_at m).stream ≡ j
members-of_stream r j m inv lt (inl x) = ((inv.sound j lt).subs_hold m x).of_stream
members-of_stream r j m inv lt (inr x) = ((inv.sound j lt).served_hold m x).of_stream

module _ (r : Registry) (g : History) (i : ℕ) (e : Event) (n : ℕ) (rest : List ℕ)
    (lt : i < r.stream_count) (p : (r.stream_at i).phase ≡ sending e (n ∷ rest)) (inv : Inv r)
    (heard : Heard r g) where
  abbrev new_sub : Subscription
  new_sub = record (r.sub_at n) { sent = (r.sub_at n).sent ++ e ∷ [] }

  abbrev sub_at' : ℕ → Subscription
  sub_at' = update r.sub_at n new_sub

  mine : In n (to_serve (r.stream_at i).phase)
  mine = subst (In n) (ap to_serve (sym p)) (here refl)

  sent_self : g.before n ++ (sub_at' n).sent ≡ g.taken i
  sent_self =
      ap (λ (s : Subscription). g.before n ++ s.sent) (update_self r.sub_at n new_sub)
      ∙ subst (λ es. g.before n ++ ((r.sub_at n).sent ++ es) ≡ g.taken i) (ap in_flight p)
          ((heard.hears i lt).pending n mine)

  sent_ne : (m : ℕ) → n ≢ m → (r.sub_at m).sent ≡ (sub_at' m).sent
  sent_ne m ne = ap (λ (s : Subscription). s.sent) (sym (update_ne r.sub_at n new_sub m ne))

  deliver-Hears :
      Hears sub_at' g.before (g.taken i) (record (r.stream_at i) { phase = sending e rest })
  deliver-Hears =
      let h = heard.hears i lt in
      let d = subst IsNodup (ap to_serve p) h.nodup in
      record {
        current = λ _ m x out.
            split_at
              (λ k.
                In k (r.stream_at i).subs
                → ¬ (In k rest)
                → g.before k ++ (sub_at' k).sent ≡ g.taken i)
              n (λ _ _. sent_self)
              (λ k ne y out_k.
                subst (λ es. g.before k ++ es ≡ g.taken i) (sent_ne k ne)
                  (h.current (ap is_serving p) k y
                    (λ z. other k ne out_k (subst (In k) (ap to_serve p) z))))
              m x out;
        pending = λ m x.
            let ne = λ (q : n ≡ m). d.0 (subst (λ k. In k rest) (sym q) x) in
            subst (λ es. g.before m ++ (es ++ e ∷ []) ≡ g.taken i) (sent_ne m ne)
              (subst (λ es. g.before m ++ ((r.sub_at m).sent ++ es) ≡ g.taken i) (ap in_flight p)
                (h.pending m (subst (In m) (ap to_serve (sym p)) (there x))));
        nodup = d.1;
      }
    where
      other : (k : ℕ) → n ≢ k → ¬ (In k rest) → In k (n ∷ rest) → ⊥
      other k ne out (here q) = ne (sym q)
      other k ne out (there y) = out y

  pub deliver-Heard : (t : Registry) × (deliver i e n rest r ≡ some t) × Heard t g
  unfolding deliver send
  deliver-Heard =
      let own = (inv.sound i lt).served_hold n mine in
      (
        at_phase i (sending e rest) (with_sub n new_sub r),
        rw own.is_open refl,
        record {
          hears = λ j jlt.
              update-all (λ k t. k < r.stream_count → Hears sub_at' g.before (g.taken k) t)
                r.stream_at i (record (r.stream_at i) { phase = sending e rest })
                (λ _. deliver-Hears) j
                (λ ne klt.
                  Hears-mono
                    (λ m x. (
                      refl,
                      sent_ne m (λ q. ne (
                          sym own.of_stream
                          ∙ ap (λ k. (r.sub_at k).stream) q
                          ∙ members-of_stream r j m inv klt x)),
                    ))
                    (heard.hears j klt))
                jlt;
          no_gap = λ m mlt.
              update-all
                (λ k s.
                  k < r.sub_count
                  → (es : List Event) × (g.before k ++ (s.sent ++ es) ≡ g.taken s.stream))
                r.sub_at n new_sub (λ _. ([], all_sent own.of_stream)) m
                (λ _ klt. heard.no_gap m klt) mlt;
        },
      )
    where
      all_sent :
          (r.sub_at n).stream ≡ i
          → g.before n ++ (((r.sub_at n).sent ++ e ∷ []) ++ []) ≡ g.taken (r.sub_at n).stream
      all_sent own =
          ap (λ es. g.before n ++ es) (append-nil ((r.sub_at n).sent ++ e ∷ []))
          ∙ ap (λ (s : Subscription). g.before n ++ s.sent) (sym (update_self r.sub_at n new_sub))
          ∙ sent_self
          ∙ ap g.taken (sym own)
