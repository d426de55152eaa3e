-- ===== src/Condition/Registry/Leaves.antt =====
-- unsubscribe keeps the invariant of the registry.
use outage.Base.{
  ℕ, ◌<◌, ◌==◌, ==_iff, Bool, true, false, not, ◌&&◌, ◌||◌, Option, none, some, List, [], ◌∷◌, In,
  here, there, IsNodup, ◌≡◌, ◌≢◌, ◌⊎◌, inl, inr, refl, sym, ap, ◌∙◌, arith, if◌then◌else◌,
  Bool-cases, and_right,
}
use outage.Condition.Registry.{
  Registry, Stream, is_empty, leave, leave_if, member, points_to, remove, unsubscribe, update,
}
use outage.Condition.Registry.Sound.{
  Inv, IsSound, IsEntry, IsSound-mono, update-all, update_everywhere,
}

pub remove-In : (n : ℕ) (ns : List ℕ) {m : ℕ} → In m (remove n ns) → In m ns
remove-In n [] x = x
remove-In n (k ∷ ns) {m} x = go (n == k) (λ (y : In m (remove n ns)). remove-In n ns y) x
  where
    go :
        (b : Bool)
        → (In m (remove n ns) → In m ns)
        → In m (if b then remove n ns else k ∷ remove n ns)
        → In m (k ∷ ns)
    go true ih y = there (ih y)
    go false ih (here e) = here e
    go false ih (there y) = there (ih y)

remove-IsNodup : (n : ℕ) (ns : List ℕ) → IsNodup ns → IsNodup (remove n ns)
remove-IsNodup n [] d = tt
remove-IsNodup n (k ∷ ns) d = elim (Bool-cases (n == k)) [
  | inl e ↦ rw e (remove-IsNodup n ns d.1)
  | inr f ↦ rw f ((λ x. d.0 (remove-In n ns x)), remove-IsNodup n ns d.1)
]

is_empty-nil : (ns : List ℕ) → is_empty ns ≡ true → ns ≡ []
is_empty-nil [] e = refl
is_empty-nil (n ∷ ns) e = cc

nil-is_empty : (ns : List ℕ) → ns ≡ [] → is_empty ns ≡ true
nil-is_empty ns e = ap is_empty e

points_to-eq : (o : Option ℕ) (i : ℕ) → points_to o i ≡ true → o ≡ some i
points_to-eq none i e = cc
points_to-eq (some j) i e = ap some ((==_iff j i).0 e)

eq-points_to : (o : Option ℕ) (i : ℕ) → o ≡ some i → points_to o i ≡ true
eq-points_to o i e = ap (λ x. points_to x i) e ∙ (==_iff i i).1 refl

-- Whether a stream that is left is empty.
module _ (ns : List ℕ) (closed empty : Bool) (e : (is_empty ns && not closed) ≡ empty) where
  empty-false : ns ≢ [] → empty ≡ false
  empty-false ne = elim (Bool-cases (is_empty ns)) [
    | inl t ↦ absurd (ne (is_empty-nil ns t))
    | inr f ↦ sym e ∙ ap (λ b. b && not closed) f
  ]

  empty-true : closed ≡ false → ns ≡ [] → empty ≡ true
  empty-true c n = sym e ∙ ap (λ b. b && not closed) (nil-is_empty ns n) ∙ ap not c

true-ne-false : true ≢ false
true-ne-false e = cc

or_true : (a b : Bool) → b ≡ true → (a || b) ≡ true
or_true a b h = ground arith

or_false : (a b : Bool) → a ≡ false → b ≡ false → (a || b) ≡ false
or_false a b h k = ground arith

module _ (r : Registry) (i n : ℕ) (inv : Inv r) where
  abbrev stream : Stream
  stream = r.stream_at i

  abbrev subs' : List ℕ
  subs' = remove n stream.subs

  abbrev streams' : Bool → ℕ → Option ℕ
  streams' b = if b then update r.streams stream.key none else r.streams

  -- What the map still has, it had.
  kept :
      (b : Bool) (k j : ℕ)
      → streams' b k ≡ some j
      → (r.streams k ≡ some j) × ((b ≡ true) → stream.key ≢ k)
  kept false k j e = (e, λ c. cc)
  kept true k j e =
      update-all (λ l o. o ≡ some j → (r.streams l ≡ some j) × ((true ≡ true) → stream.key ≢ l))
        r.streams stream.key none (λ q. absurd (cc q)) k (λ ne q. (q, λ _. ne)) e

  -- The entries of the other streams stay.
  keeps :
      (b : Bool) (j k : ℕ)
      → i ≢ j
      → (b ≡ true → r.streams stream.key ≡ some i)
      → r.streams k ≡ some j
      → streams' b k ≡ some j
  keeps false j k ne mine e = e
  keeps true j k ne mine e =
      update-all (λ l o. r.streams l ≡ some j → o ≡ some j) r.streams stream.key none
        (λ q. absurd (ne (index (sym (mine refl) ∙ q)))) k (λ d q. q) e
    where
      index : {a b : ℕ} → some a ≡ some b → a ≡ b
      index q = cc

  module _ (empty pointed : Bool) (e : (is_empty subs' && not stream.closed) ≡ empty)
      (p : points_to (r.streams stream.key) i ≡ pointed) where
    self-IsSound :
        i < r.stream_count
        → IsSound r.sub_at r.sub_count
            (streams' (empty && pointed))
            i
            (record stream { subs = subs'; to_cancel = stream.to_cancel || empty })
    self-IsSound lt =
        let q = inv.sound i lt in
        record {
          subs_hold = λ m x. q.subs_hold m (remove-In n stream.subs x);
          served_hold = q.served_hold;
          nodup = remove-IsNodup n stream.subs q.nodup;
          closed_over = q.closed_over;
          closed_empty = λ c. ap (remove n) (q.closed_empty c);
          registered = λ c ne.
              ap (λ b. streams' (b && pointed) stream.key)
                (empty-false subs' stream.closed empty e ne)
              ∙ q.registered c (λ none_left. ne (ap (remove n) none_left));
          released = λ c none_left.
              inl (
                or_true stream.to_cancel empty
                  (empty-true subs' stream.closed empty e c none_left));
        }

    self-IsEntry :
        (k : ℕ)
        → streams' (empty && pointed) k ≡ some i
        → IsEntry k (record stream { subs = subs'; to_cancel = stream.to_cancel || empty })
    self-IsEntry k q =
        let (old, away) = kept (empty && pointed) k i q in
        let entry = inv.entry k i old in
        record { of_key = entry.of_key; runs = go old away entry.of_key entry.runs }
      where
        go :
            r.streams k ≡ some i
            → ((empty && pointed) ≡ true → stream.key ≢ k)
            → stream.key ≡ k
            → (stream.closed ≡ true)
              ⊎ (stream.to_cancel ≡ false) × (stream.cancelled ≡ false) × (stream.subs ≢ [])
            → (stream.closed ≡ true)
              ⊎ ((stream.to_cancel || empty) ≡ false) × (stream.cancelled ≡ false) × (subs' ≢ [])
        go old away of_key (inl c) = inl c
        go old away of_key (inr (t, f, ne)) = elim (Bool-cases stream.closed) [
          | inl c ↦ inl c
          | inr c ↦ elim (Bool-cases (is_empty subs')) [
            | inl none_left ↦
                let is_pointed =
                  sym p ∙ eq-points_to (r.streams stream.key) i (ap r.streams of_key ∙ old) in
                let is_vacated =
                  empty-true subs' stream.closed empty e c (is_empty-nil subs' none_left) in
                absurd (away (ap (λ b. b && pointed) is_vacated ∙ is_pointed) of_key)
            | inr some_left ↦
                let ne' = λ (q : subs' ≡ []).
                  absurd (true-ne-false (sym (nil-is_empty subs' q) ∙ some_left)) in
                inr (
                  or_false stream.to_cancel empty t (empty-false subs' stream.closed empty e ne'),
                  f,
                  ne',
                )
          ]
        ]

    leave-Inv : Inv (record r {
      streams = streams' (empty && pointed);
      stream_at =
          update r.stream_at i
            (record stream { subs = subs'; to_cancel = stream.to_cancel || empty });
    })
    leave-Inv = record {
      sound =
          update_everywhere
            (λ j s.
              j < r.stream_count → IsSound r.sub_at r.sub_count (streams' (empty && pointed)) j s)
            r.stream_at i _ self-IsSound
            (λ j ne lt.
              IsSound-mono (λ m h. h)
                (keeps (empty && pointed) j (r.stream_at j).key ne
                  (λ b. points_to-eq (r.streams stream.key) i (p ∙ and_right empty pointed b)))
                (inv.sound j lt));
      entry_lt = λ k j q. inv.entry_lt k j (kept (empty && pointed) k j q).0;
      entry = λ k.
          update_everywhere (λ j s. streams' (empty && pointed) k ≡ some j → IsEntry k s)
            r.stream_at i _ (self-IsEntry k)
            (λ j ne q. inv.entry k j (kept (empty && pointed) k j q).0);
    }

pub unsubscribe-Inv : (r : Registry) (n : ℕ) → Inv r → Inv (unsubscribe n r)
unfolding unsubscribe leave
unsubscribe-Inv r n inv = go (member n (r.stream_at (r.sub_at n).stream).subs)
  where
    go : (b : Bool) → Inv (leave_if b n (r.sub_at n).stream r)
    go true = leave-Inv r (r.sub_at n).stream n inv _ _ refl refl
    go false = inv
