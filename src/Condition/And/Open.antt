-- ===== src/Condition/And/Open.antt =====
-- While a child has had no event, the loop of an AND goes on.
use outage.Base.{
  ℕ, zero, suc, ◌-◌, ◌<◌, Bool, true, false, List, [], ◌∷◌, get_or, set, length, ltb, ◌≡◌, refl,
  sym, ap, ◌∙◌, subst, arith, inl, inr, Bool-cases, length-set, get_or-set_cases, get_or-replicate,
  replicate,
}
use outage.Time.{Time}
use outage.Condition.Events.{Event}
use outage.Condition.And.{State, all_matched, latch, on_closed, next, initial}

-- The children whose stream has not ended.
abbrev pub count_open : List Bool → ℕ
count_open [] = 0
count_open (true ∷ closed_child) = count_open closed_child
count_open (false ∷ closed_child) = suc (count_open closed_child)

count_open-set :
    (closed_child : List Bool) (i : ℕ)
    → i < length closed_child
    → get_or closed_child i false ≡ false
    → suc (count_open (set closed_child i true)) ≡ count_open closed_child
count_open-set [] i l h = elim l [ ]
count_open-set (true ∷ c) zero l h = cc
count_open-set (false ∷ c) zero l h = refl
count_open-set (true ∷ c) (suc i) l h = count_open-set c i (omega arith) h
count_open-set (false ∷ c) (suc i) l h = ap suc (count_open-set c i (omega arith) h)

-- A child that has had no event is open.
count_open-min :
    (matched closed_child : List Bool)
    → length closed_child ≡ length matched
    → ((i : ℕ) → get_or closed_child i false ≡ true → get_or matched i false ≡ true)
    → all_matched matched ≡ false
    → ltb 0 (count_open closed_child) ≡ true
unfolding all_matched
count_open-min [] c n h a = cc
count_open-min (m ∷ matched) [] n h a = cc
count_open-min (m ∷ matched) (false ∷ c) n h a = ground arith
count_open-min (true ∷ matched) (true ∷ c) n h a =
    count_open-min matched c (ground arith) (λ i. h (suc i)) a
count_open-min (false ∷ matched) (true ∷ c) n h a = let t = h 0 refl in cc

-- remainingOpen counts the open children, and a child whose stream has ended has had an event.
pub record IsOpen (s : State) : Type 0 where
  pub lengths : length s.closed_child ≡ length s.matched
  pub counted : s.remaining_open ≡ count_open s.closed_child
  pub closed_matched :
      (i : ℕ) → get_or s.closed_child i false ≡ true → get_or s.matched i false ≡ true

pub IsOpen-remaining :
    (s : State) → IsOpen s → all_matched s.matched ≡ false → ltb 0 s.remaining_open ≡ true
IsOpen-remaining s v a =
    subst (λ n. ltb 0 n ≡ true) (sym v.counted)
      (count_open-min s.matched s.closed_child v.lengths v.closed_matched a)

pub latch-IsOpen : (index : ℕ) (e : Event) (s : State) → IsOpen s → IsOpen (latch index e s)
unfolding latch
latch-IsOpen index e s v = record {
  lengths = v.lengths ∙ sym (length-set s.matched index true);
  counted = v.counted;
  closed_matched = λ i h. elim (get_or-set_cases s.matched index i true false) [
    | inl (_, q) ↦ q
    | inr q ↦ q ∙ v.closed_matched i h
  ];
}

-- The end of a matched child's stream is passed over.
pub on_closed-IsOpen :
    (index : ℕ) (s : State)
    → IsOpen s
    → index < length s.matched
    → get_or s.matched index false ≡ true
    → (t : State) × (on_closed index s ≡ next t) × (t.matched ≡ s.matched) × IsOpen t
unfolding on_closed
on_closed-IsOpen index s v l m = elim (Bool-cases (get_or s.closed_child index false)) [
  | inl c ↦ (s, rw c refl, refl, v)
  | inr c ↦ (
    record s {
      closed_child = set s.closed_child index true;
      remaining_open = s.remaining_open - 1;
    },
    rw (c, m) refl,
    refl,
    record {
      lengths = length-set s.closed_child index true ∙ v.lengths;
      counted =
          let fewer =
            count_open-set s.closed_child index (subst (λ n. index < n) (sym v.lengths) l) c in
          let all_open = v.counted in omega arith;
      closed_matched = λ i h. elim (get_or-set_cases s.closed_child index i true false) [
        | inl (e, _) ↦ subst (λ k. get_or s.matched k false ≡ true) e m
        | inr q ↦ v.closed_matched i (sym q ∙ h)
      ];
    },
  )
]

count_open-replicate : (n : ℕ) → count_open (replicate n false) ≡ n
count_open-replicate zero = refl
count_open-replicate (suc n) = ap suc (count_open-replicate n)

pub initial-IsOpen : (n : ℕ) (t : Time) → IsOpen (initial n t)
unfolding initial
initial-IsOpen n t = record {
  lengths = refl;
  counted = sym (count_open-replicate n);
  closed_matched = λ i h. let no = get_or-replicate n i false in cc;
}
