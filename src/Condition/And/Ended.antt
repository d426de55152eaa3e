-- ===== src/Condition/And/Ended.antt =====
-- The end of a stream in a cycle.
use outage.Base.{
  ℕ, ◌<◌, true, false, ◌-◌, [], ◌∷◌, ◌++◌, get_or, set, length, ◌≡◌, inl, inr, refl, sym, ap, ◌∙◌,
  subst, arith, Bool-cases,
}
use outage.Condition.And.Latch.{Messages}
use outage.Condition.And.Open.{on_closed-IsOpen}
use outage.Condition.And.Cycles.{
  first_sources, ends, Fires-append_cases, Fires-append_left, has_end-append, has_closed_child-set,
  has_closed_child-get,
}
use outage.Condition.And.Sources.{first_sources-passed}
use outage.Condition.And.{
  closed, State, Surroundings, next, stopped, all_matched, has_closed_child, on_closed,
}
use outage.Condition.And.Kept.{Kept, in_range, not_closed}

next-injective : {a b : State} → next a ≡ next b → a ≡ b
next-injective q = cc

module _ (n : ℕ) (p : Messages) (s : State) (kept : Kept n p s) (env : Surroundings) (i : ℕ)
    (lt : i < n) where
  closed_after :
      {t : State}
      → on_closed i s ≡ next t
      → get_or s.matched i false ≡ true
      → has_closed_child t.closed_child ≡ true
  unfolding on_closed
  closed_after {t} h m = elim (Bool-cases (get_or s.closed_child i false)) [
    | inl c ↦
        let e : on_closed i s ≡ next s = rw c refl in
        subst (λ (u : State). has_closed_child u.closed_child ≡ true)
          (next-injective {a = s} {b = t} (sym e ∙ h)) (has_closed_child-get s.closed_child i c)
    | inr c ↦
        let after = record s {
          closed_child = set s.closed_child i true;
          remaining_open = s.remaining_open - 1;
        } in
        let e : on_closed i s ≡ next after = rw (c, m) refl in
        subst (λ (u : State). has_closed_child u.closed_child ≡ true)
          (next-injective {a = after} {b = t} (sym e ∙ h))
          (has_closed_child-set s.closed_child i
            (subst (λ k. i < k) (sym kept.is_open.lengths) (in_range n p s kept env i lt)))
  ]

  -- The end of a stream leaves the sources.
  closed-sources : (j : ℕ) → j < n → first_sources j (p ++ (env, closed i) ∷ []) ≡ first_sources j p
  closed-sources j l = elim (Bool-cases (get_or s.matched j false)) [
    | inl h ↦ first_sources-passed j p (env, closed i) (inl (kept.matched_fires j h))
    | inr h ↦
        first_sources-passed j p (env, closed i)
          (inr ((λ f. absurd (cc (sym (kept.fires_matched j l f) ∙ h))), refl))
  ]

  -- The sources are those of before.
  on_closed-sources :
      {t : State}
      → on_closed i s ≡ next t
      → get_or s.matched i false ≡ true
      → s.matched_sources ≡ t.matched_sources
  unfolding on_closed
  on_closed-sources {t} h m = elim (Bool-cases (get_or s.closed_child i false)) [
    | inl c ↦
        let e : on_closed i s ≡ next s = rw c refl in
        ap (λ (u : State). u.matched_sources) (next-injective {a = s} {b = t} (sym e ∙ h))
    | inr c ↦
        let after = record s {
          closed_child = set s.closed_child i true;
          remaining_open = s.remaining_open - 1;
        } in
        let e : on_closed i s ≡ next after = rw (c, m) refl in
        ap (λ (u : State). u.matched_sources) (next-injective {a = after} {b = t} (sym e ∙ h))
  ]

  pub closed-Kept :
      get_or s.matched i false ≡ true
      → (t : State) × (on_closed i s ≡ next t) × Kept n (p ++ (env, closed i) ∷ []) t
  closed-Kept m =
      let (t, e, same, is_open) =
        on_closed-IsOpen i s kept.is_open (in_range n p s kept env i lt) m in
      let split = has_end-append p ((env, closed i) ∷ []) in
      let seen = closed_after e m in
      let moved = on_closed-sources e m in
      (
        t,
        e,
        record {
          going = ends env i kept.going (kept.matched_fires i m);
          width = ap length same ∙ kept.width;
          matched_fires = λ j h.
              Fires-append_left ((env, closed i) ∷ [])
                (kept.matched_fires j (ap (λ l. get_or l j false) (sym same) ∙ h));
          fires_matched = λ j l f. elim (Fires-append_cases p f) [
            | inl g ↦ ap (λ l. get_or l j false) same ∙ kept.fires_matched j l g
            | inr g ↦ absurd (not_closed g)
          ];
          waits = ap all_matched same ∙ kept.waits;
          is_open = is_open;
          source_width = ap length (sym moved) ∙ kept.source_width;
          sources_kept = λ j l.
              ap (λ x. get_or x j []) (sym moved)
              ∙ kept.sources_kept j l
              ∙ sym (closed-sources j l);
          ends_seen = ground arith;
        },
      )

  pub closed-stopped : get_or s.matched i false ≡ false → on_closed i s ≡ stopped
  unfolding on_closed
  closed-stopped m = elim (Bool-cases (get_or s.closed_child i false)) [
    | inl c ↦ let matched = kept.is_open.closed_matched i c in absurd (cc (sym matched ∙ m))
    | inr c ↦ rw (c, m) refl
  ]
