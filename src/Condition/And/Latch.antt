-- ===== src/Condition/And/Latch.antt =====
-- When the loop emits: once every child has had an event.
use outage.Base.{
  ℕ, zero, suc, ◌<◌, ◌-◌, Bool, true, false, List, [], ◌∷◌, get_or, set, length, ltb, ◌==◌, ==_iff,
  ◌≡◌, ◌≢◌, ◌⊎◌, inl, inr, refl, sym, ap, ◌∙◌, arith, Bool-cases, Text, subst, length-set,
  get_or-set_ne,
}
use outage.Condition.Events.{Mode, Event}
use outage.Condition.And.{
  Message, event, closed, State, Surroundings, next, stopped, all_matched, on_closed, on_event,
  latch, publish, turn, loop,
}

abbrev pub Messages : Type 0
Messages = List (Surroundings × Message)

-- A child's event is among the messages.
pub data Fires (i : ℕ) : Messages → Type 0 where
  now :
      {env : Surroundings} {m : Message} {ms : Messages} (e : Event)
      → m ≡ event i e
      → Fires i ((env, m) ∷ ms)
  later : {m : Surroundings × Message} {ms : Messages} → Fires i ms → Fires i (m ∷ ms)

pub all_matched-get :
    (matched : List Bool) (i : ℕ)
    → all_matched matched ≡ true
    → i < length matched
    → get_or matched i false ≡ true
unfolding all_matched
all_matched-get [] i h l = elim l [ ]
all_matched-get (v ∷ matched) zero h l = ground arith
all_matched-get (v ∷ matched) (suc i) h l = ground (arith, all_matched-get matched i)

pub all_matched-of_get :
    (matched : List Bool)
    → ((i : ℕ) → i < length matched → get_or matched i false ≡ true)
    → all_matched matched ≡ true
unfolding all_matched
all_matched-of_get [] h = refl
all_matched-of_get (v ∷ matched) h =
    rw (h 0 (omega arith)) (all_matched-of_get matched (λ i l. h (suc i) (omega arith)))

-- A latched child is the one of the event, or was latched before.
get_or-latch :
    (matched : List Bool) (index i : ℕ)
    → get_or (set matched index true) i false ≡ true
    → (index ≡ i) ⊎ (get_or matched i false ≡ true)
get_or-latch matched index i h = elim (Bool-cases (index == i)) [
  | inl e ↦ inl ((==_iff index i).0 e)
  | inr n ↦
      inr (sym (get_or-set_ne matched index i true false (λ e. cc ((==_iff index i).1 e))) ∙ h)
]

pub loop-done :
    (id : Text) (mode : Mode) (m : Surroundings × Message) (ms : Messages) (s : State)
    → ltb 0 s.remaining_open ≡ false
    → loop id mode (m ∷ ms) s ≡ []
unfolding loop
loop-done id mode m ms s h = rw h refl

module _ (id : Text) (mode : Mode) (env : Surroundings) (index : ℕ) (e : Event) (s : State) where
  pub turn-matched :
      get_or s.matched index false ≡ true → turn id mode env (event index e) s ≡ next s
  unfolding turn on_event
  turn-matched h = rw h refl

  pub turn-latched :
      get_or s.matched index false ≡ false
      → all_matched (set s.matched index true) ≡ false
      → turn id mode env (event index e) s ≡ next (latch index e s)
  unfolding turn on_event latch
  turn-latched h a = rw (h, a) refl

  pub turn_complete :
      get_or s.matched index false ≡ false
      → all_matched (set s.matched index true) ≡ true
      → turn id mode env (event index e) s ≡ publish id mode env (latch index e s)
  unfolding turn on_event latch
  turn_complete h a = rw (h, a) refl

pub latch-fields :
    (index : ℕ) (e : Event) (s : State)
    → ((latch index e s).matched ≡ set s.matched index true)
      × ((latch index e s).remaining_open ≡ s.remaining_open)
unfolding latch
latch-fields index e s = (refl, refl)

-- A closed stream is passed over, or ends the loop.
on_closed-cases :
    (index : ℕ) (s : State)
    → (on_closed index s ≡ stopped)
      ⊎ ((t : State) × (on_closed index s ≡ next t) × (t.matched ≡ s.matched))
unfolding on_closed
on_closed-cases index s = elim (Bool-cases (get_or s.closed_child index false)) [
  | inl c ↦ inr (s, rw c refl, refl)
  | inr c ↦ elim (Bool-cases (get_or s.matched index false)) [
    | inl m ↦ inr (
      record s {
        closed_child = set s.closed_child index true;
        remaining_open = s.remaining_open - 1;
      },
      rw (c, m) refl,
      refl,
    )
    | inr m ↦ inl (rw (c, m) refl)
  ]
]

pub turn-closed :
    (id : Text) (mode : Mode) (env : Surroundings) (index : ℕ) (s : State)
    → turn id mode env (closed index) s ≡ on_closed index s
unfolding turn
turn-closed id mode env index s = refl

module _ (id : Text) (mode : Mode) where
  pub loop-next :
      (env : Surroundings) (m : Message) (ms : Messages) (s t : State)
      → ltb 0 s.remaining_open ≡ true
      → turn id mode env m s ≡ next t
      → loop id mode ((env, m) ∷ ms) s ≡ loop id mode ms t
  unfolding loop
  loop-next env m ms s t o h = rw (o, h) refl

  pub loop-stopped :
      (env : Surroundings) (m : Message) (ms : Messages) (s : State)
      → turn id mode env m s ≡ stopped
      → loop id mode ((env, m) ∷ ms) s ≡ []
  unfolding loop
  loop-stopped env m ms s h = ground arith

  pub loop-nil : (s : State) → loop id mode [] s ≡ []
  unfolding loop
  loop-nil s = refl

  abbrev pub Needs : State → ℕ → Messages → Type 0
  Needs s i ms = (get_or s.matched i false ≡ true) ⊎ Fires i ms

  Needs-cons :
      (s : State) {i : ℕ} {ms : Messages} (m : Surroundings × Message)
      → Needs s i ms
      → Needs s i (m ∷ ms)
  Needs-cons s m (inl h) = inl h
  Needs-cons s m (inr f) = inr (later f)

  Needs-latch :
      (env : Surroundings) (index : ℕ) (e : Event) (s : State) (i : ℕ) (ms : Messages)
      → Needs (latch index e s) i ms
      → Needs s i ((env, event index e) ∷ ms)
  Needs-latch env index e s i ms (inr f) = inr (later f)
  Needs-latch env index e s i ms (inl h) =
      elim (get_or-latch s.matched index i
        (ap (λ l. get_or l i false) (sym (latch-fields index e s).0) ∙ h)) [
          | inl q ↦ inr (now e (ap (λ k. event k e) q))
          | inr old ↦ inl old
        ]

  -- An emission has had an event of every child that was not latched before.
  pub loop-Needs :
      (ms : Messages) (s : State)
      → loop id mode ms s ≢ []
      → (i : ℕ) → i < length s.matched
      → Needs s i ms
  loop-Needs [] s h i l = absurd (h (loop-nil s))
  loop-Needs ((env, closed index) ∷ ms) s h i l = elim (Bool-cases (ltb 0 s.remaining_open)) [
    | inr o ↦ absurd (h (loop-done id mode (env, closed index) ms s o))
    | inl o ↦ elim (on_closed-cases index s) [
      | inl c ↦
          absurd (h (loop-stopped env (closed index) ms s (turn-closed id mode env index s ∙ c)))
      | inr (t, c, q) ↦
          let e = loop-next env (closed index) ms s t o (turn-closed id mode env index s ∙ c) in
          let r = loop-Needs ms t (λ x. h (e ∙ x)) i (subst (λ m. i < length m) (sym q) l) in
          Needs-cons s (env, closed index) (subst (λ m. (get_or m i false ≡ true) ⊎ Fires i ms) q r)
    ]
  ]
  loop-Needs ((env, event index e) ∷ ms) s h i l = elim (Bool-cases (ltb 0 s.remaining_open)) [
    | inr o ↦ absurd (h (loop-done id mode (env, event index e) ms s o))
    | inl o ↦ elim (Bool-cases (get_or s.matched index false)) [
      | inl m ↦
          let q = loop-next env (event index e) ms s s o (turn-matched id mode env index e s m) in
          Needs-cons s (env, event index e) (loop-Needs ms s (λ x. h (q ∙ x)) i l)
      | inr m ↦ elim (Bool-cases (all_matched (set s.matched index true))) [
        | inl a ↦
            let l' : i < length (set s.matched index true) =
              subst (λ n. i < n) (sym (length-set s.matched index true)) l in
            Needs-latch env index e s i ms (
              inl
                (ap (λ x. get_or x i false) (latch-fields index e s).0 ∙ all_matched-get _ i a l'))
        | inr a ↦
            let t = latch index e s in
            let q =
              loop-next env (event index e) ms s t o (turn-latched id mode env index e s m a) in
            let l' : i < length t.matched =
              subst (λ n. i < n)
                (sym (ap length (latch-fields index e s).0 ∙ length-set s.matched index true)) l in
            Needs-latch env index e s i ms (loop-Needs ms t (λ x. h (q ∙ x)) i l')
      ]
    ]
  ]
