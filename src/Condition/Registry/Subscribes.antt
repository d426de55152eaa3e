-- ===== src/Condition/Registry/Subscribes.antt =====
-- subscribe as a whole: it joins the stream of the map, or one that it makes.
use outage.Base.{
  ℕ, suc, ◌<◌, ◌==◌, ==_iff, false, Option, none, some, [], ◌≡◌, ◌≢◌, ◌⊎◌, inl, inr, refl, sym, ap,
  ◌∙◌, subst, arith, Bool-cases,
}
use outage.Condition.Registry.{Registry, Stream, create, made, subscribe, subscribe_to, update}
use outage.Condition.Registry.Sound.{Inv, IsSound, IsEntry, IsSound-mono, update-all}
use outage.Condition.Registry.Joins.{IsJoinable, JoinInv, join-Inv, running-JoinInv}

pub update_self {ℓ} : {A : Type ℓ} (f : ℕ → A) (i : ℕ) (v : A) → update f i v i ≡ v
update_self f i v = rw ((==_iff i i).1 refl) refl

pub update_ne {ℓ} : {A : Type ℓ} (f : ℕ → A) (i : ℕ) (v : A) (j : ℕ) → i ≢ j → update f i v j ≡ f j
update_ne f i v j ne = elim (Bool-cases (i == j)) [
  | inl e ↦ absurd (ne ((==_iff i j).0 e))
  | inr n ↦ rw n refl
]

module _ (r : Registry) (key : ℕ) (free : r.streams key ≡ none) (inv : Inv r) where
  abbrev new_stream : Stream
  new_stream = record {
    key = key;
    subs = [];
    closed = false;
    cancelled = false;
    to_cancel = false;
    phase = made;
  }

  abbrev streams' : ℕ → Option ℕ
  streams' = update r.streams key (some r.stream_count)

  -- An entry is the new stream, or an old one under another key.
  entry-cases :
      (k j : ℕ)
      → streams' k ≡ some j
      → (key ≡ k) × (r.stream_count ≡ j) ⊎ (r.stream_count ≢ j) × (r.streams k ≡ some j)
  entry-cases k j =
      update-all
        (λ l o.
          o ≡ some j
          → (key ≡ l) × (r.stream_count ≡ j) ⊎ (r.stream_count ≢ j) × (r.streams l ≡ some j))
        r.streams key (some r.stream_count) (λ e. inl (refl, cc)) k
        (λ ne e. inr ((λ same. let lt = inv.entry_lt k j e in absurd (omega arith)), e))

  old-streams : (k j : ℕ) → r.streams k ≡ some j → streams' k ≡ some j
  old-streams k j e =
      update-all (λ l o. r.streams l ≡ some j → o ≡ some j) r.streams key (some r.stream_count)
        (λ q. cc (sym free ∙ q)) k (λ ne q. q) e

  create-JoinInv : JoinInv (create key r) r.stream_count
  unfolding create
  create-JoinInv = record {
    exists = omega arith;
    self =
        subst (IsJoinable (create key r) r.stream_count)
          (sym (update_self r.stream_at r.stream_count new_stream))
          (record {
            subs_hold = λ n x. elim x [ ];
            served_hold = λ n x. elim x [ ];
            nodup = tt;
            closed_over = refl;
            closed_empty = λ c. refl;
            registered = update_self r.streams key (some r.stream_count);
            runs = inr (refl, refl);
          });
    others = λ j ne lt.
        subst (IsSound r.sub_at r.sub_count streams' j)
          (sym (update_ne r.stream_at r.stream_count new_stream j ne))
          (IsSound-mono (λ n h. h) (old-streams (r.stream_at j).key j)
            (inv.sound j (below j ne lt)));
    entry_lt = λ k j e. elim (entry-cases k j e) [
      | inl (_, q) ↦ omega arith
      | inr (_, q) ↦ let lt = inv.entry_lt k j q in omega arith
    ];
    entry_key = λ k j e. elim (entry-cases k j e) [
      | inl (q, same) ↦
          subst (λ i. (update r.stream_at r.stream_count new_stream i).key ≡ k) same
            (ap (λ (s : Stream). s.key) (update_self r.stream_at r.stream_count new_stream) ∙ q)
      | inr (ne, q) ↦
          ap (λ (s : Stream). s.key) (update_ne r.stream_at r.stream_count new_stream j ne)
          ∙ (inv.entry k j q).of_key
    ];
    entry = λ k j ne e. elim (entry-cases k j e) [
      | inl (_, same) ↦ absurd (ne same)
      | inr (_, q) ↦
          subst (IsEntry k) (sym (update_ne r.stream_at r.stream_count new_stream j ne))
            (inv.entry k j q)
    ];
  }
    where
      below : (j : ℕ) → r.stream_count ≢ j → j < suc r.stream_count → j < r.stream_count
      below j ne lt = ground arith

pub subscribe-Inv : (key : ℕ) (r : Registry) → Inv r → Inv (subscribe key r).0
unfolding subscribe
subscribe-Inv key r inv = go (r.streams key) refl
  where
    go : (o : Option ℕ) → r.streams key ≡ o → Inv (subscribe_to o key r).0
    go none n = join-Inv (create key r) r.stream_count (create-JoinInv r key n inv)
    go (some i) e = join-Inv r i (running-JoinInv r key i e inv)
