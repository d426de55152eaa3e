-- ===== src/Condition/And/Emission.antt =====
-- The loop emits exactly when every child has had an event.
use outage.Base.{
  ℕ, suc, ◌<◌, Bool, true, false, [], ◌∷◌, get_or, set, replicate, length, ltb, ◌≡◌, ◌≢◌, inl, inr,
  refl, sym, ap, ◌∙◌, subst, arith, Bool-cases, Text, length-set, length-replicate,
  get_or-replicate, set-same,
}
use outage.Time.{Time}
use outage.Condition.Events.{Mode, Event}
use outage.Condition.And.Open.{
  IsOpen, IsOpen-remaining, latch-IsOpen, on_closed-IsOpen, initial-IsOpen,
}
use outage.Condition.And.Latch.{
  turn-closed, Messages, Fires, now, later, Needs, all_matched-of_get, latch-fields, turn-matched,
  turn-latched, turn_complete, loop-next, loop-Needs,
}
use outage.Condition.And.{
  Message, event, closed, State, Surroundings, all_matched, latch, publish, turn, loop, initial,
  run,
}
use outage.Condition.And.Ordered.{AfterEvents, IsDelivering, set-true-keeps}

module _ (id : Text) (mode : Mode) where
  -- A complete cycle is published.
  loop-publish :
      (env : Surroundings) (m : Message) (ms : Messages) (s t : State)
      → ltb 0 s.remaining_open ≡ true
      → env.delivers ≡ true
      → turn id mode env m s ≡ publish id mode env t
      → loop id mode ((env, m) ∷ ms) s ≢ []
  unfolding loop publish
  loop-publish env m ms s t o d h e = ground arith

  Needs-matched :
      (env : Surroundings) (index : ℕ) (e : Event) (s : State) (i : ℕ) (ms : Messages)
      → get_or s.matched index false ≡ true
      → Needs id mode s i ((env, event index e) ∷ ms)
      → Needs id mode s i ms
  Needs-matched env index e s i ms m (inl h) = inl h
  Needs-matched env index e s i ms m (inr (later f)) = inr f
  Needs-matched env index e s i ms m (inr (now e' q)) =
      inl (subst (λ k. get_or s.matched k false ≡ true) (index-of q) m)
    where
      index-of : {j k : ℕ} {a b : Event} → event j a ≡ event k b → j ≡ k
      index-of p = cc

  Needs-latched :
      (env : Surroundings) (index : ℕ) (e : Event) (s : State) (i : ℕ) (ms : Messages)
      → i < length s.matched
      → Needs id mode s i ((env, event index e) ∷ ms)
      → Needs id mode (latch index e s) i ms
  Needs-latched env index e s i ms l (inr (later f)) = inr f
  Needs-latched env index e s i ms l (inl h) = inl (
      ap (λ x. get_or x i false) (latch-fields index e s).0
      ∙ set-true-keeps s.matched index i l (inr h))
  Needs-latched env index e s i ms l (inr (now e' q)) = inl (
      ap (λ x. get_or x i false) (latch-fields index e s).0
      ∙ set-true-keeps s.matched index i l (inl (index-of q)))
    where
      index-of : {j k : ℕ} {a b : Event} → event j a ≡ event k b → j ≡ k
      index-of p = cc

  Needs-closed :
      (env : Surroundings) (index : ℕ) (s t : State) (i : ℕ) (ms : Messages)
      → t.matched ≡ s.matched
      → Needs id mode s i ((env, closed index) ∷ ms)
      → Needs id mode t i ms
  Needs-closed env index s t i ms q (inl h) = inl (subst (λ m. get_or m i false ≡ true) (sym q) h)
  Needs-closed env index s t i ms q (inr (later f)) = inr f
  Needs-closed env index s t i ms q (inr (now e p)) = absurd (apart p)
    where
      apart : {j k : ℕ} {a : Event} → closed j ≡ event k a → ⊥
      apart x = cc

  -- The loop emits as soon as no child needs an event any more.
  loop_emits :
      (ms : Messages) (s : State)
      → IsOpen s
      → all_matched s.matched ≡ false
      → IsDelivering ms
      → AfterEvents s.matched ms
      → ((i : ℕ) → i < length s.matched → Needs id mode s i ms)
      → loop id mode ms s ≢ []
  loop_emits [] s v a d r h = λ _. cc (all_matched-of_get s.matched (λ i l. latched i (h i l)))
    where
      latched : (i : ℕ) → Needs id mode s i [] → get_or s.matched i false ≡ true
      latched i (inl m) = m
      latched i (inr f) = elim f [ ]
  loop_emits ((env, closed index) ∷ ms) s v a d r h =
      let o = IsOpen-remaining s v a in
      let (l, matched, after) = r in
      let (t, c, q, v') = on_closed-IsOpen index s v l matched in
      λ x.
        loop_emits ms t v' (ap all_matched q ∙ a) d.1 (subst (λ m. AfterEvents m ms) (sym q) after)
          (λ i l. Needs-closed env index s t i ms q (h i (subst (λ m. i < length m) q l)))
          (sym (loop-next id mode env (closed index) ms s t o (turn-closed id mode env index s ∙ c))
            ∙ x)
  loop_emits ((env, event index e) ∷ ms) s v a d r h =
      let o = IsOpen-remaining s v a in
      elim (Bool-cases (get_or s.matched index false)) [
        | inl m ↦ λ x.
            loop_emits ms s v a d.1
              (subst (λ l. AfterEvents l ms) (set-same s.matched index true false r.0 m) r.1)
              (λ i l. Needs-matched env index e s i ms m (h i l))
              (sym (
                  loop-next id mode env (event index e) ms s s o
                    (turn-matched id mode env index e s m))
                ∙ x)
        | inr m ↦ elim (Bool-cases (all_matched (set s.matched index true))) [
          | inl c ↦
              loop-publish env (event index e) ms s (latch index e s) o d.0
                (turn_complete id mode env index e s m c)
          | inr c ↦
              let t = latch index e s in
              let (q, p) = latch-fields index e s in
              let n : length t.matched ≡ length s.matched =
                ap length q ∙ length-set s.matched index true in
              λ x.
                loop_emits ms t (latch-IsOpen index e s v) (ap all_matched q ∙ c) d.1
                  (subst (λ l. AfterEvents l ms) (sym q) r.1)
                  (λ i l.
                    Needs-latched env index e s i ms (subst (λ k. i < k) n l)
                      (h i (subst (λ k. i < k) n l)))
                  (sym (
                      loop-next id mode env (event index e) ms s t o
                        (turn-latched id mode env index e s m c))
                    ∙ x)
        ]
      ]

initial-fields :
    (n : ℕ) (t : Time)
    → ((initial n t).matched ≡ replicate n false) × ((initial n t).remaining_open ≡ n)
unfolding initial
initial-fields n t = (refl, refl)

all_matched-initial : (n : ℕ) → all_matched (replicate (suc n) false) ≡ false
unfolding all_matched
all_matched-initial n = refl

run-loop :
    (id : Text) (mode : Mode) (k : ℕ) (t : Time) (d : Bool) (ms : Messages)
    → run id mode (suc k) t d ms ≡ loop id mode ms (initial (suc k) t)
unfolding run
run-loop id mode k t d ms = refl

-- Whatever the messages, an AND with children emits only if every child had an event.
pub run-Fires :
    (id : Text) (mode : Mode) (k : ℕ) (t : Time) (d : Bool) (ms : Messages)
    → run id mode (suc k) t d ms ≢ []
    → (i : ℕ) → i < suc k
    → Fires i ms
run-Fires id mode k t d ms h i l =
    unlatched
      (loop-Needs id mode ms (initial (suc k) t) (λ e. h (run-loop id mode k t d ms ∙ e)) i l')
  where
    n : length (initial (suc k) t).matched ≡ suc k
    n = ap length (initial-fields (suc k) t).0 ∙ length-replicate (suc k) false

    l' : i < length (initial (suc k) t).matched
    l' = subst (λ x. i < x) (sym n) l

    unlatched : Needs id mode (initial (suc k) t) i ms → Fires i ms
    unlatched (inr f) = f
    unlatched (inl m) =
        let q =
          sym (get_or-replicate (suc k) i false)
          ∙ sym (ap (λ x. get_or x i false) (initial-fields (suc k) t).0)
          ∙ m in
        cc

-- If each child's stream ends only behind an event of it, and every child has an event, an AND emits.
pub run_emits_if :
    (id : Text) (mode : Mode) (k : ℕ) (t : Time) (d : Bool) (ms : Messages)
    → IsDelivering ms
    → AfterEvents (replicate (suc k) false) ms
    → ((i : ℕ) → i < suc k → Fires i ms)
    → run id mode (suc k) t d ms ≢ []
run_emits_if id mode k t d ms del after f e =
    let s = initial (suc k) t in
    let q = (initial-fields (suc k) t).0 in
    let n : length s.matched ≡ suc k = ap length q ∙ length-replicate (suc k) false in
    loop_emits id mode ms s (initial-IsOpen (suc k) t) (ap all_matched q ∙ all_matched-initial k)
      del (subst (λ l. AfterEvents l ms) (sym q) after) (λ i l. inr (f i (subst (λ x. i < x) n l)))
      (sym (run-loop id mode k t d ms) ∙ e)
