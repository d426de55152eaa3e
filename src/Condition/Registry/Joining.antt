-- ===== src/Condition/Registry/Joining.antt =====
-- subscribe keeps what has been heard.
use outage.Base.{
  ℕ, suc, ◌<◌, Bool, true, false, Option, none, some, List, [], ◌∷◌, ◌++◌, In, here, there,
  In-append_cases, append-nil, ◌≡◌, ◌≢◌, ◌⊎◌, inl, inr, sym, ap, ◌∙◌, subst, arith,
}
use outage.Condition.Events.{Event}
use outage.Condition.Registry.{
  Registry, Stream, Subscription, attach, create, subscribe, subscribe_to, update,
}
use outage.Condition.Registry.Sound.{Inv, split_at, to_serve, update-all}
use outage.Condition.Registry.Subscribes.{update_self, update_ne}
use outage.Condition.Registry.Observed.{History}
use outage.Condition.Registry.Heard.{Hears, Heard, Hears-mono}

-- The subscriptions that streams have or are to serve exist.
record Existing (r : Registry) : Type 0 where
  subs_exist :
      (i : ℕ)
      → i < r.stream_count
      → (n : ℕ) → In n (r.stream_at i).subs ⊎ In n (to_serve (r.stream_at i).phase)
      → n < r.sub_count

Inv-Existing : (r : Registry) → Inv r → Existing r
Inv-Existing r inv = record {
  subs_exist = λ i lt n x. elim x [
    | inl y ↦ ((inv.sound i lt).subs_hold n y).exists
    | inr y ↦ ((inv.sound i lt).served_hold n y).exists
  ];
}

-- A new subscription of stream i has had nothing, of all that is still to be taken.
abbrev joined : ℕ → Registry → History → History
joined i r g = record g { before = update g.before r.sub_count (g.taken i) }

module _ (r : Registry) (g : History) (i : ℕ) (closed : Bool) (exist : Existing r)
    (heard : Heard r g) where
  abbrev new_sub : Subscription
  new_sub = record { stream = i; ch_closed = closed; sent = [] }

  abbrev sub_at' : ℕ → Subscription
  sub_at' = update r.sub_at r.sub_count new_sub

  abbrev before' : ℕ → List Event
  before' = update g.before r.sub_count (g.taken i)

  others-Hears : (j : ℕ) → j < r.stream_count → Hears sub_at' before' (g.taken j) (r.stream_at j)
  others-Hears j lt =
      Hears-mono
        (λ m x.
          let ne = λ (q : r.sub_count ≡ m). old m q (exist.subs_exist j lt m x) in
          (
            sym (update_ne g.before r.sub_count (g.taken i) m ne),
            ap (λ (s : Subscription). s.sent) (sym (update_ne r.sub_at r.sub_count new_sub m ne)),
          ))
        (heard.hears j lt)
    where
      old : (m : ℕ) → r.sub_count ≡ m → m < r.sub_count → ⊥
      old m q lt = omega arith

  -- The new subscription has all that its stream has taken behind it.
  new_self : before' r.sub_count ++ (sub_at' r.sub_count).sent ≡ g.taken i
  new_self =
      ap (λ (s : Subscription). before' r.sub_count ++ s.sent)
        (update_self r.sub_at r.sub_count new_sub)
      ∙ append-nil (before' r.sub_count)
      ∙ update_self g.before r.sub_count (g.taken i)

  new-no_gap :
      (n : ℕ)
      → n < suc r.sub_count
      → (rest : List Event) × (before' n ++ ((sub_at' n).sent ++ rest) ≡ g.taken (sub_at' n).stream)
  new-no_gap =
      split_at
        (λ n.
          n < suc r.sub_count
          → (rest : List Event) × (before' n ++ ((sub_at' n).sent ++ rest)
              ≡ g.taken (sub_at' n).stream))
        r.sub_count
        (λ _. (
          [],
          ap (λ es. before' r.sub_count ++ es) (append-nil (sub_at' r.sub_count).sent)
              ∙ new_self
              ∙ ap (λ (s : Subscription). g.taken s.stream)
                  (sym (update_self r.sub_at r.sub_count new_sub)),
        ))
        (λ n ne lt.
          let (rest, h) = heard.no_gap n (below n ne lt) in
          let same = sym (update_ne r.sub_at r.sub_count new_sub n ne) in
          (
            rest,
            subst (λ (s : Subscription). before' n ++ (s.sent ++ rest) ≡ g.taken s.stream) same
                (ap (λ es. es ++ ((r.sub_at n).sent ++ rest))
                    (update_ne g.before r.sub_count (g.taken i) n ne)
                  ∙ h),
          ))
    where
      below : (n : ℕ) → r.sub_count ≢ n → n < suc r.sub_count → n < r.sub_count
      below n ne lt = ground arith

  joined-Hears :
      i < r.stream_count
      → Hears sub_at' before'
          (g.taken i)
          (record (r.stream_at i) { subs = (r.stream_at i).subs ++ r.sub_count ∷ [] })
  joined-Hears lt =
      let h = others-Hears i lt in
      record {
        current = λ o m x out. elim (In-append_cases (r.stream_at i).subs x) [
          | inl y ↦ h.current o m y out
          | inr (here q) ↦ subst (λ k. before' k ++ (sub_at' k).sent ≡ g.taken i) (sym q) new_self
          | inr (there y) ↦ elim y [ ]
        ];
        pending = h.pending;
        nodup = h.nodup;
      }

attach-Heard :
    (r : Registry) (g : History) (i : ℕ) (closed : Bool)
    → Existing r
    → Heard r g
    → Heard (attach closed i r) (joined ((attach closed i r).sub_at r.sub_count).stream r g)
unfolding attach
attach-Heard r g i true exist heard =
    rw
      (ap (λ (s : Subscription). s.stream)
        (update_self r.sub_at r.sub_count (new_sub r g i true exist heard)))
      (record {
        hears = others-Hears r g i true exist heard;
        no_gap = new-no_gap r g i true exist heard;
      })
attach-Heard r g i false exist heard =
    rw
      (ap (λ (s : Subscription). s.stream)
        (update_self r.sub_at r.sub_count (new_sub r g i false exist heard)))
      (record {
        hears = λ j lt.
            update-all
              (λ k t.
                k < r.stream_count
                → Hears (sub_at' r g i false exist heard) (before' r g i false exist heard)
                    (g.taken k) t)
              r.stream_at i
              (record (r.stream_at i) { subs = (r.stream_at i).subs ++ r.sub_count ∷ [] })
              (joined-Hears r g i false exist heard) j (λ _. others-Hears r g i false exist heard j)
              lt;
        no_gap = new-no_gap r g i false exist heard;
      })

-- A new stream has no subscriptions.
create-Heard :
    (key : ℕ) (r : Registry) (g : History)
    → Existing r
    → Heard r g
    → Existing (create key r) × Heard (create key r) g
unfolding create
create-Heard key r g exist heard = (
  record {
    subs_exist = λ j lt n.
        update-all
          (λ k (s : Stream).
            k < suc r.stream_count → In n s.subs ⊎ In n (to_serve s.phase) → n < r.sub_count)
          r.stream_at r.stream_count _ (λ _ x. elim x [ inl y ↦ elim y [ ] | inr y ↦ elim y [ ] ]) j
          (λ ne klt. exist.subs_exist j (below j ne klt) n) lt;
  },
  record {
    hears = λ j lt.
        update-all (λ k s. k < suc r.stream_count → Hears r.sub_at g.before (g.taken k) s)
          r.stream_at r.stream_count _
          (λ _. record { current = λ o n x. elim x [ ]; pending = λ n x. elim x [ ]; nodup = tt }) j
          (λ ne klt. heard.hears j (below j ne klt)) lt;
    no_gap = heard.no_gap;
  },
)
  where
    below : (j : ℕ) → r.stream_count ≢ j → j < suc r.stream_count → j < r.stream_count
    below j ne lt = ground arith

pub subscribe-Heard :
    (key : ℕ) (r : Registry) (g : History)
    → Inv r
    → Heard r g
    → Heard (subscribe key r).0 (joined ((subscribe key r).0.sub_at r.sub_count).stream r g)
unfolding subscribe create
subscribe-Heard key r g inv heard = go (r.streams key)
  where
    exist : Existing r
    exist = Inv-Existing r inv

    go :
        (o : Option ℕ)
        → Heard
            (subscribe_to o key r).0
            (joined ((subscribe_to o key r).0.sub_at r.sub_count).stream r g)
    go none =
        let (exist', heard') = create-Heard key r g exist heard in
        attach-Heard (create key r) g r.stream_count _ exist' heard'
    go (some i) = attach-Heard r g i (r.stream_at i).closed exist heard
