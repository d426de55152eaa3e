-- ===== src/Condition/Registry/Serving.antt =====
-- The operations of the registry that send nothing keep what has been heard.
use outage.Base.{
  ℕ, ◌<◌, ==_iff, Bool, true, false, List, [], ◌∷◌, ◌++◌, In, IsNodup, ◌≡◌, ◌≢◌, refl, sym, ap, ◌∙◌,
  subst, if◌then◌else◌, append_assoc,
}
use outage.Condition.Events.{Event}
use outage.Condition.Registry.{
  Phase, Registry, Stream, made, waiting, receiving, sending, at_phase, cancel, receive,
  start_stream, update,
}
use outage.Condition.Registry.Sound.{Inv, to_serve, update-all}
use outage.Condition.Registry.Observed.{History}
use outage.Condition.Registry.Heard.{
  Hears, Heard, ended-Hears, Hears-weaken, changed-Heard, is_serving,
}

-- A phase with the same to serve.
Hears-phase :
    (r : Registry) (g : History) (i : ℕ) (s t : Stream)
    → t.subs ≡ s.subs
    → (is_serving t.phase ≡ true → is_serving s.phase ≡ true)
    → to_serve s.phase ≡ []
    → to_serve t.phase ≡ []
    → Hears r.sub_at g.before (g.taken i) s
    → Hears r.sub_at g.before (g.taken i) t
Hears-phase r g i s t same on none_left none_left' h =
    Hears-weaken s t on (λ n x out. (subst (In n) same x, λ y. elim (subst (In n) none_left y) [ ]))
      (λ n x. elim (subst (In n) none_left' x) [ ]) (subst IsNodup (sym none_left') tt) h

module _ (r : Registry) (g : History) (i : ℕ) (heard : Heard r g) where
  pub at_phase-Heard :
      (p : Phase)
      → (is_serving p ≡ true → is_serving (r.stream_at i).phase ≡ true)
      → to_serve (r.stream_at i).phase ≡ []
      → to_serve p ≡ []
      → Heard (at_phase i p r) g
  at_phase-Heard p on a b =
      changed-Heard r g i (record (r.stream_at i) { phase = p }) heard
        (λ lt.
          Hears-phase r g i (r.stream_at i) (record (r.stream_at i) { phase = p }) refl on a b
            (heard.hears i lt))

  pub over-Heard :
      (t : Stream)
      → is_serving t.phase ≡ false
      → to_serve t.phase ≡ []
      → Heard (record r { stream_at = update r.stream_at i t }) g
  over-Heard t off none_left =
      changed-Heard r g i t heard (λ lt. ended-Hears r.sub_at g.before (g.taken i) t off none_left)

  pub start_stream-Heard : (r.stream_at i).phase ≡ made → Heard (start_stream i r) g
  unfolding start_stream
  start_stream-Heard e =
      at_phase-Heard (if r.started then receiving else waiting) (λ _. ap is_serving e)
        (ap to_serve e) (idle r.started)
    where
      idle : (b : Bool) → to_serve (if b then receiving else waiting) ≡ []
      idle true = refl
      idle false = refl

  pub cancel-Heard : Heard (cancel i r) g
  unfolding cancel
  cancel-Heard =
      let t = record (r.stream_at i) { cancelled = true; to_cancel = false } in
      changed-Heard r g i t heard (λ lt.
        let h = heard.hears i lt in
        record { current = h.current; pending = h.pending; nodup = h.nodup })

  -- An event is taken, and goes to the subscriptions that the stream has.
  pub receive-Heard :
      (e : Event)
      → Inv r
      → (r.stream_at i).phase ≡ receiving
      → i < r.stream_count
      → Heard (receive i e r) (record g { taken = update g.taken i (g.taken i ++ e ∷ []) })
  unfolding receive
  receive-Heard e inv p lt = record {
    hears = λ j jlt.
        update-all
          (λ k t.
            k < r.stream_count
            → Hears r.sub_at g.before (update g.taken i (g.taken i ++ e ∷ []) k) t)
          r.stream_at i (record (r.stream_at i) { phase = sending e (r.stream_at i).subs })
          (λ _. record {
            current = λ o n x out. absurd (out x);
            pending = λ n x.
                let h =
                  (heard.hears i lt).current (ap is_serving p) n x
                    (λ y. elim (subst (In n) (ap to_serve p) y) [ ]) in
                sym (append_assoc (g.before n) (r.sub_at n).sent (e ∷ []))
                ∙ ap (λ es. es ++ e ∷ []) h
                ∙ sym (taken_self i);
            nodup = (inv.sound i lt).nodup;
          })
          j
          (λ ne klt.
            subst (λ es. Hears r.sub_at g.before es (r.stream_at j)) (sym (taken_ne j ne))
              (heard.hears j klt))
          jlt;
    no_gap = λ n nlt. longer (r.sub_at n).stream n (heard.no_gap n nlt);
  }
    where
      taken_self : (k : ℕ) → update g.taken k (g.taken k ++ e ∷ []) k ≡ g.taken k ++ e ∷ []
      taken_self k = rw ((==_iff k k).1 refl) refl

      taken_ne : (j : ℕ) → i ≢ j → update g.taken i (g.taken i ++ e ∷ []) j ≡ g.taken j
      taken_ne j ne =
          update-all (λ k es. i ≢ k → es ≡ g.taken k) g.taken i (g.taken i ++ e ∷ [])
            (λ n. absurd (n refl)) j (λ _ _. refl) ne

      longer :
          (j n : ℕ)
          → (rest : List Event) × (g.before n ++ ((r.sub_at n).sent ++ rest) ≡ g.taken j)
          → (rest : List Event) × (g.before n ++ ((r.sub_at n).sent ++ rest)
              ≡ update g.taken i (g.taken i ++ e ∷ []) j)
      longer j n =
          update-all
            (λ k es.
              (rest : List Event) × (g.before n ++ ((r.sub_at n).sent ++ rest) ≡ g.taken k)
              → (rest : List Event) × (g.before n ++ ((r.sub_at n).sent ++ rest) ≡ es))
            g.taken i (g.taken i ++ e ∷ [])
            (λ (rest, q). (
              rest ++ e ∷ [],
              ap (λ es. g.before n ++ es) (sym (append_assoc (r.sub_at n).sent rest (e ∷ [])))
                  ∙ sym (append_assoc (g.before n) ((r.sub_at n).sent ++ rest) (e ∷ []))
                  ∙ ap (λ es. es ++ e ∷ []) q,
            ))
            j (λ ne q. q)
