-- ===== src/Condition/Registry/Joins.antt =====
-- subscribe keeps the invariant of the registry.
use outage.Base.{
  ℕ, suc, ◌<◌, Bool, true, false, some, List, [], ◌∷◌, ◌++◌, In, here, there, In-append_cases,
  IsNodup, IsNodup-concat, ◌≡◌, ◌≢◌, ◌⊎◌, inl, inr, refl, sym, ap, ◌∙◌, subst, arith,
}
use outage.Condition.Registry.{Registry, Stream, Subscription, attach, join, update}
use outage.Condition.Registry.Sound.{
  Inv, IsSound, IsEntry, Holds, IsSound-mono, is_over, to_serve, split_at, update-all,
  update_everywhere,
}

-- A stream that a subscription may join: as IsSound, but for having a subscriber.
pub record IsJoinable (r : Registry) (i : ℕ) (s : Stream) : Type 0 where
  pub subs_hold : (n : ℕ) → In n s.subs → Holds r.sub_at r.sub_count i n
  pub served_hold : (n : ℕ) → In n (to_serve s.phase) → Holds r.sub_at r.sub_count i n
  pub nodup : IsNodup s.subs
  pub closed_over : s.closed ≡ is_over s.phase
  pub closed_empty : s.closed ≡ true → s.subs ≡ []
  pub registered : r.streams s.key ≡ some i
  pub runs : (s.closed ≡ true) ⊎ (s.to_cancel ≡ false) × (s.cancelled ≡ false)

pub record JoinInv (r : Registry) (i : ℕ) : Type 0 where
  pub exists : i < r.stream_count
  pub self : IsJoinable r i (r.stream_at i)
  pub others :
      (j : ℕ)
      → i ≢ j
      → j < r.stream_count
      → IsSound r.sub_at r.sub_count r.streams j (r.stream_at j)
  pub entry_lt : (key j : ℕ) → r.streams key ≡ some j → j < r.stream_count
  pub entry_key : (key j : ℕ) → r.streams key ≡ some j → (r.stream_at j).key ≡ key
  pub entry : (key j : ℕ) → i ≢ j → r.streams key ≡ some j → IsEntry key (r.stream_at j)

-- A new subscription leaves the others alone.
fresh-Holds :
    (r : Registry) (i : ℕ) (sub : Subscription) (n : ℕ)
    → Holds r.sub_at r.sub_count i n
    → Holds (update r.sub_at r.sub_count sub) (suc r.sub_count) i n
fresh-Holds r i sub n h =
    let same : update r.sub_at r.sub_count sub n ≡ r.sub_at n =
      update-all (λ k t. k < r.sub_count → t ≡ r.sub_at k) r.sub_at r.sub_count sub
        (λ lt. absurd (omega arith)) n (λ ne lt. refl) h.exists in
    record {
      exists = let e = h.exists in omega arith;
      of_stream = ap (λ (t : Subscription). t.stream) same ∙ h.of_stream;
      is_open = ap (λ (t : Subscription). t.ch_closed) same ∙ h.is_open;
    }

own-Holds :
    (r : Registry) (i : ℕ) (sub : Subscription)
    → sub.stream ≡ i
    → sub.ch_closed ≡ false
    → Holds (update r.sub_at r.sub_count sub) (suc r.sub_count) i r.sub_count
own-Holds r i sub e c =
    let same : update r.sub_at r.sub_count sub r.sub_count ≡ sub =
      update-all (λ k t. r.sub_count ≡ k → t ≡ sub) r.sub_at r.sub_count sub (λ _. refl) r.sub_count
        (λ ne q. absurd (ne q)) refl in
    record {
      exists = omega arith;
      of_stream = ap (λ (t : Subscription). t.stream) same ∙ e;
      is_open = ap (λ (t : Subscription). t.ch_closed) same ∙ c;
    }

concat-ne-nil : (ns : List ℕ) (n : ℕ) → ns ++ n ∷ [] ≢ []
concat-ne-nil [] n e = cc
concat-ne-nil (m ∷ ns) n e = cc

module _ (r : Registry) (i : ℕ) (inv : JoinInv r i) where
  abbrev stream : Stream
  stream = r.stream_at i

  abbrev new_sub : Bool → Subscription
  new_sub closed = record { stream = i; ch_closed = closed; sent = [] }

  abbrev sub_at' : Bool → ℕ → Subscription
  sub_at' closed = update r.sub_at r.sub_count (new_sub closed)

  abbrev IsSound' : Bool → ℕ → Stream → Type 0
  IsSound' closed = IsSound (sub_at' closed) (suc r.sub_count) r.streams

  other-IsSound :
      (closed : Bool) (j : ℕ) → i ≢ j → j < r.stream_count → IsSound' closed j (r.stream_at j)
  other-IsSound closed j ne lt =
      IsSound-mono (fresh-Holds r j (new_sub closed)) (λ e. e) (inv.others j ne lt)

  -- The channel of a subscription of a closed stream is closed at once.
  joined_closed :
      stream.closed ≡ true → Inv (record r { sub_at = sub_at' true; sub_count = suc r.sub_count })
  joined_closed c = record {
    sound =
        split_at (λ j. j < r.stream_count → IsSound' true j (r.stream_at j)) i
          (λ _. record {
            subs_hold = λ n x. fresh-Holds r i (new_sub true) n (inv.self.subs_hold n x);
            served_hold = λ n x. fresh-Holds r i (new_sub true) n (inv.self.served_hold n x);
            nodup = inv.self.nodup;
            closed_over = inv.self.closed_over;
            closed_empty = inv.self.closed_empty;
            registered = λ d. cc;
            released = λ d. cc;
          })
          (other-IsSound true);
    entry_lt = inv.entry_lt;
    entry = λ key.
        split_at (λ j. r.streams key ≡ some j → IsEntry key (r.stream_at j)) i
          (λ e. record { of_key = inv.entry_key key i e; runs = inl c }) (inv.entry key);
  }

  abbrev joined_stream : Stream
  joined_stream = record stream { subs = stream.subs ++ r.sub_count ∷ [] }

  joined_open :
      stream.closed ≡ false
      → Inv (record r {
        stream_at = update r.stream_at i joined_stream;
        sub_at = sub_at' false;
        sub_count = suc r.sub_count;
      })
  joined_open c = record {
    sound =
        update_everywhere (λ j s. j < r.stream_count → IsSound' false j s) r.stream_at i
          joined_stream
          (λ _. record {
            subs_hold = λ n x. held n (In-append_cases stream.subs x);
            served_hold = λ n x. fresh-Holds r i (new_sub false) n (inv.self.served_hold n x);
            nodup =
                IsNodup-concat stream.subs r.sub_count inv.self.nodup
                  (λ x. let lt = (inv.self.subs_hold r.sub_count x).exists in absurd (omega arith));
            closed_over = inv.self.closed_over;
            closed_empty = λ d. cc;
            registered = λ d ne. inv.self.registered;
            released = λ d e. absurd (concat-ne-nil stream.subs r.sub_count e);
          })
          (λ j ne. other-IsSound false j ne);
    entry_lt = inv.entry_lt;
    entry = λ key.
        update_everywhere (λ j s. r.streams key ≡ some j → IsEntry key s) r.stream_at i
          joined_stream
          (λ e. record { of_key = inv.entry_key key i e; runs = inr (running inv.self.runs) })
          (λ j ne. inv.entry key j ne);
  }
    where
      held :
          (n : ℕ)
          → In n stream.subs ⊎ In n (r.sub_count ∷ [])
          → Holds (sub_at' false) (suc r.sub_count) i n
      held n (inl x) = fresh-Holds r i (new_sub false) n (inv.self.subs_hold n x)
      held n (inr (here e)) =
          subst (Holds (sub_at' false) (suc r.sub_count) i) (sym e)
            (own-Holds r i (new_sub false) refl refl)
      held n (inr (there x)) = elim x [ ]

      running :
          (stream.closed ≡ true) ⊎ (stream.to_cancel ≡ false) × (stream.cancelled ≡ false)
          → (stream.to_cancel ≡ false)
            × (stream.cancelled ≡ false)
            × (stream.subs ++ r.sub_count ∷ [] ≢ [])
      running (inl d) = absurd (cc)
      running (inr (t, f)) = (t, f, concat-ne-nil stream.subs r.sub_count)

pub join-Inv : (r : Registry) (i : ℕ) → JoinInv r i → Inv (join i r)
unfolding attach
join-Inv r i inv = go (r.stream_at i).closed refl
  where
    go : (b : Bool) → (r.stream_at i).closed ≡ b → Inv (attach b i r)
    go true c = joined_closed r i inv c
    go false c = joined_open r i inv c

pub running-JoinInv : (r : Registry) (key i : ℕ) → r.streams key ≡ some i → Inv r → JoinInv r i
running-JoinInv r key i e inv =
    let lt = inv.entry_lt key i e in
    let q = inv.sound i lt in
    let n = inv.entry key i e in
    record {
      exists = lt;
      self = record {
        subs_hold = q.subs_hold;
        served_hold = q.served_hold;
        nodup = q.nodup;
        closed_over = q.closed_over;
        closed_empty = q.closed_empty;
        registered = subst (λ k. r.streams k ≡ some i) (sym n.of_key) e;
        runs = elim n.runs [ inl c ↦ inl c | inr (t, f, _) ↦ inr (t, f) ];
      };
      others = λ j ne jlt. inv.sound j jlt;
      entry_lt = inv.entry_lt;
      entry_key = λ k j x. (inv.entry k j x).of_key;
      entry = λ k j ne x. inv.entry k j x;
    }
