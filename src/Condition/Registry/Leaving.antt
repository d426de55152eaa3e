-- ===== src/Condition/Registry/Leaving.antt =====
-- unsubscribe and startPending keep what has been heard.
use outage.Base.{
  ℕ, ◌==◌, ==_iff, Bool, true, false, List, [], ◌∷◌, In, here, there, IsNodup, ◌≡◌, inl, inr, refl,
  sym, ap, ◌∙◌, subst, arith, Bool-cases,
}
use outage.Condition.Events.{Event}
use outage.Condition.Registry.{
  Phase, Registry, Stream, made, waiting, receiving, finishing, closing, finished, sending,
  at_phase, launch, leave, leave_if, member, remove, start_pending, unsubscribe,
}
use outage.Condition.Registry.Sound.{to_serve, update-all}
use outage.Condition.Registry.Leaves.{remove-In}
use outage.Condition.Registry.Phases.{launch-to_serve}
use outage.Condition.Registry.Safety.{unsubscribe-phase}
use outage.Condition.Registry.Observed.{History}
use outage.Condition.Registry.Heard.{Heard, Hears-weaken, changed-Heard, is_serving, in_flight}

remove-not_In : (n : ℕ) (ns : List ℕ) → ¬ (In n (remove n ns))
remove-not_In n [] x = elim x [ ]
remove-not_In n (k ∷ ns) x = elim (Bool-cases (n == k)) [
  | inl e ↦ remove-not_In n ns (dropped e x)
  | inr f ↦ elim (behind f x) [ here q ↦ cc ((==_iff n k).1 q) | there y ↦ remove-not_In n ns y ]
]
  where
    dropped : (n == k) ≡ true → In n (remove n (k ∷ ns)) → In n (remove n ns)
    dropped e y = rw e at y

    behind : (n == k) ≡ false → In n (remove n (k ∷ ns)) → In n (k ∷ remove n ns)
    behind f y = rw f at y

pub member-not_In : (n : ℕ) (ns : List ℕ) → member n ns ≡ false → ¬ (In n ns)
member-not_In n [] h x = elim x [ ]
member-not_In n (k ∷ ns) h (here e) = let t = (==_iff n k).1 e in ground arith
member-not_In n (k ∷ ns) h (there x) = member-not_In n ns (ground arith) x

module _ (r : Registry) (g : History) (heard : Heard r g) where
  pub unsubscribe-Heard : (n : ℕ) → Heard (unsubscribe n r) g
  unfolding unsubscribe leave
  unsubscribe-Heard n = go (member n (r.stream_at j).subs)
    where
      j : ℕ
      j = (r.sub_at n).stream

      go : (b : Bool) → Heard (leave_if b n j r) g
      go false = heard
      go true = record {
        hears =
            (changed-Heard r g j _ heard (λ lt.
              Hears-weaken (r.stream_at j) _ (λ o. o)
                (λ m x out. (remove-In n (r.stream_at j).subs x, out)) (λ m x. (x, refl))
                (heard.hears j lt).nodup (heard.hears j lt))).hears;
        no_gap = heard.no_gap;
      }

  -- A subscription that has left is not among those of its stream.
  unsubscribe-not_In :
      (n i : ℕ) → (r.sub_at n).stream ≡ i → ¬ (In n ((unsubscribe n r).stream_at i).subs)
  unfolding unsubscribe leave
  unsubscribe-not_In n i e = elim (Bool-cases (member n (r.stream_at (r.sub_at n).stream).subs)) [
    | inl t ↦ rw t (
        update-all (λ k (s : Stream). (r.sub_at n).stream ≡ k → ¬ (In n s.subs)) r.stream_at
          (r.sub_at n).stream _ (λ _. remove-not_In n (r.stream_at (r.sub_at n).stream).subs) i
          (λ ne q. absurd (ne q)) e)
    | inr f ↦ rw f (
        subst (λ k. ¬ (In n (r.stream_at k).subs)) e
          (member-not_In n (r.stream_at (r.sub_at n).stream).subs f))
  ]

  -- The subscriber that is next is passed over, and leaves.
  pub skip-Heard :
      (i n : ℕ) (e : Event) (rest : List ℕ)
      → (r.sub_at n).stream ≡ i
      → (r.stream_at i).phase ≡ sending e (n ∷ rest)
      → Heard (at_phase i (sending e rest) (unsubscribe n r)) g
  skip-Heard i n e rest own p =
      let r' = unsubscribe n r in
      let p' : (r'.stream_at i).phase ≡ sending e (n ∷ rest) = unsubscribe-phase r n i ∙ p in
      let heard' = unsubscribe-Heard n in
      let t = record (r'.stream_at i) { phase = sending e rest } in
      let gone = unsubscribe-not_In n i own in
      changed-Heard r' g i t heard' (λ lt.
        let h = heard'.hears i lt in
        Hears-weaken (r'.stream_at i) t (λ _. ap is_serving p')
          (λ m x out. (x, λ y. other m x out gone (subst (In m) (ap to_serve p') y)))
          (λ m x. (subst (In m) (ap to_serve (sym p')) (there x), ap in_flight p'))
          (subst IsNodup (ap to_serve p') h.nodup).1 h)
    where
      other :
          (m : ℕ)
          → In m ((unsubscribe n r).stream_at i).subs
          → ¬ (In m rest)
          → ¬ (In n ((unsubscribe n r).stream_at i).subs)
          → In m (n ∷ rest)
          → ⊥
      other m x out gone (here q) =
          gone (subst (λ k. In k ((unsubscribe n r).stream_at i).subs) q x)
      other m x out gone (there y) = out y

launch-is_serving : (p : Phase) → is_serving (launch p) ≡ is_serving p
launch-is_serving made = refl
launch-is_serving waiting = refl
launch-is_serving receiving = refl
launch-is_serving finishing = refl
launch-is_serving closing = refl
launch-is_serving finished = refl
launch-is_serving (sending e ns) = refl

launch-in_flight : (p : Phase) → in_flight (launch p) ≡ in_flight p
launch-in_flight made = refl
launch-in_flight waiting = refl
launch-in_flight receiving = refl
launch-in_flight finishing = refl
launch-in_flight closing = refl
launch-in_flight finished = refl
launch-in_flight (sending e ns) = refl

pub start_pending-Heard : (r : Registry) (g : History) → Heard r g → Heard (start_pending r) g
unfolding start_pending
start_pending-Heard r g heard = elim (Bool-cases r.started) [
  | inl t ↦ simp t heard
  | inr t ↦ simp t (record {
    hears = λ i lt.
        let s = r.stream_at i in
        let same = launch-to_serve s.phase in
        Hears-weaken s (record s { phase = launch s.phase })
          (λ o. sym (launch-is_serving s.phase) ∙ o)
          (λ n x out. (x, λ y. out (subst (In n) (sym same) y)))
          (λ n x. (subst (In n) same x, sym (launch-in_flight s.phase)))
          (subst IsNodup (sym same) (heard.hears i lt).nodup) (heard.hears i lt);
    no_gap = heard.no_gap;
  })
]
