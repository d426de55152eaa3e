-- ===== src/Condition/Registry/Heard.antt =====
-- What the subscriptions of a stream have been sent of the events that it has taken.
use outage.Base.{
  ℕ, ◌<◌, Bool, true, false, List, [], ◌∷◌, ◌++◌, In, IsNodup, ◌≡◌, ◌⊎◌, inl, inr, sym, ◌∙◌, subst,
}
use outage.Condition.Events.{Event}
use outage.Condition.Registry.{
  Phase, Registry, Stream, Subscription, made, waiting, receiving, finishing, closing, finished,
  sending,
}
use outage.Condition.Registry.Sound.{changed, to_serve, update-all}
use outage.Condition.Registry.Observed.{History}

-- A phase before finish.
abbrev pub is_serving : Phase → Bool
is_serving made = true
is_serving waiting = true
is_serving receiving = true
is_serving (sending e ns) = true
is_serving finishing = false
is_serving closing = false
is_serving finished = false

-- The event that dispatch is sending.
abbrev pub in_flight : Phase → List Event
in_flight (sending e ns) = e ∷ []
in_flight made = []
in_flight waiting = []
in_flight receiving = []
in_flight finishing = []
in_flight closing = []
in_flight finished = []

-- A subscription that is not waiting for the event in flight has been sent all that was taken since it
-- was made; one that is has been sent all but that event.
pub record Hears (sub_at : ℕ → Subscription) (before : ℕ → List Event) (taken : List Event)
    (s : Stream) : Type 0 where
  pub current :
      is_serving s.phase ≡ true
      → (n : ℕ) → In n s.subs
      → ¬ (In n (to_serve s.phase))
      → before n ++ (sub_at n).sent ≡ taken
  pub pending :
      (n : ℕ) → In n (to_serve s.phase) → before n ++ ((sub_at n).sent ++ in_flight s.phase) ≡ taken
  pub nodup : IsNodup (to_serve s.phase)

pub record Heard (r : Registry) (g : History) : Type 0 where
  pub hears : (i : ℕ) → i < r.stream_count → Hears r.sub_at g.before (g.taken i) (r.stream_at i)
  pub no_gap :
      (n : ℕ)
      → n < r.sub_count
      → (rest : List Event) × (g.before n ++ ((r.sub_at n).sent ++ rest)
          ≡ g.taken (r.sub_at n).stream)

-- A stream with no more to serve.
pub ended-Hears :
    (sub_at : ℕ → Subscription) (before : ℕ → List Event) (taken : List Event) (s : Stream)
    → is_serving s.phase ≡ false
    → to_serve s.phase ≡ []
    → Hears sub_at before taken s
ended-Hears sub_at before taken s off none_left = record {
  current = λ on. absurd (cc (sym on ∙ off));
  pending = λ n x. elim (subst (In n) none_left x) [ ];
  nodup = subst IsNodup (sym none_left) tt;
}

-- Fewer subscriptions to serve.
pub Hears-weaken :
    {sub_at : ℕ → Subscription} {before : ℕ → List Event} {taken : List Event} (s t : Stream)
    → (is_serving t.phase ≡ true → is_serving s.phase ≡ true)
    → ((n : ℕ)
        → In n t.subs
        → ¬ (In n (to_serve t.phase))
        → In n s.subs × (¬ (In n (to_serve s.phase))))
    → ((n : ℕ)
        → In n (to_serve t.phase)
        → In n (to_serve s.phase) × (in_flight s.phase ≡ in_flight t.phase))
    → IsNodup (to_serve t.phase)
    → Hears sub_at before taken s
    → Hears sub_at before taken t
Hears-weaken {sub_at} {before} {taken} s t on fewer serves nodup h = record {
  current = λ o n x out. let (y, out') = fewer n x out in h.current (on o) n y out';
  pending = λ n x.
      let (y, e) = serves n x in
      subst (λ es. before n ++ ((sub_at n).sent ++ es) ≡ taken) e (h.pending n y);
  nodup = nodup;
}

-- Hears is about the subscriptions of the stream only.
pub Hears-mono :
    {sub_at sub_at' : ℕ → Subscription} {before before' : ℕ → List Event} {taken : List Event}
    {s : Stream}
    → ((n : ℕ)
        → In n s.subs ⊎ In n (to_serve s.phase)
        → (before n ≡ before' n) × ((sub_at n).sent ≡ (sub_at' n).sent))
    → Hears sub_at before taken s
    → Hears sub_at' before' taken s
Hears-mono {sub_at} {sub_at'} {before} {before'} {taken} {s} same h = record {
  current = λ o n x out.
      let (a, b) = same n (inl x) in
      subst (λ es. es ++ (sub_at' n).sent ≡ taken) a
        (subst (λ es. before n ++ es ≡ taken) b (h.current o n x out));
  pending = λ n x.
      let (a, b) = same n (inr x) in
      subst (λ es. es ++ ((sub_at' n).sent ++ in_flight s.phase) ≡ taken) a
        (subst (λ es. before n ++ (es ++ in_flight s.phase) ≡ taken) b (h.pending n x));
  nodup = h.nodup;
}

-- Changing one stream, and no subscription.
pub changed-Heard :
    (r : Registry) (g : History) (i : ℕ) (s : Stream)
    → Heard r g
    → (i < r.stream_count → Hears r.sub_at g.before (g.taken i) s)
    → Heard (changed r i s) g
changed-Heard r g i s heard here_hears = record {
  hears = λ j lt.
      update-all (λ k t. k < r.stream_count → Hears r.sub_at g.before (g.taken k) t) r.stream_at i s
        here_hears j (λ ne. heard.hears j) lt;
  no_gap = heard.no_gap;
}
