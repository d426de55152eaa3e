-- ===== src/Condition/And/Kept.antt =====
-- What the loop's variables keep of the messages of a cycle.
use outage.Base.{
  ◌⊎◌, ==_iff, ◌==◌, get_or-set_self, get_or-set_ne, ℕ, ◌<◌, true, false, [], ◌∷◌, ◌++◌, get_or,
  set, length, ◌≡◌, ◌≢◌, inl, inr, refl, sym, ap, ◌∙◌, subst, arith, Bool-cases, length-set,
  get_or-set_cases,
}
use outage.Condition.Events.{event_sources, Event}
use outage.Condition.And.Latch.{Messages, Fires, now, later}
use outage.Condition.And.Open.{IsOpen, latch-IsOpen}
use outage.Condition.And.Ordered.{set-true-keeps}
use outage.Condition.And.Cycles.{
  first_sources, Going, goes_on, has_end, Fires-append_cases, Fires-append_left, Fires-append_right,
  has_end-append, missing,
}
use outage.Condition.And.Sources.{first_sources-append_none, first_sources-passed}
use outage.Condition.And.{event, closed, State, Surroundings, all_matched, has_closed_child, latch}

pub record Kept (n : ℕ) (p : Messages) (s : State) : Type 0 where
  pub going : Going n p
  pub width : length s.matched ≡ n
  pub matched_fires : (i : ℕ) → get_or s.matched i false ≡ true → Fires i p
  pub fires_matched : (i : ℕ) → i < n → Fires i p → get_or s.matched i false ≡ true
  pub waits : all_matched s.matched ≡ false
  pub is_open : IsOpen s
  pub source_width : length s.matched_sources ≡ n
  pub sources_kept : (j : ℕ) → j < n → get_or s.matched_sources j [] ≡ first_sources j p
  pub ends_seen : has_closed_child s.closed_child ≡ has_end p

index-of : {i j : ℕ} {a b : Event} → event i a ≡ event j b → i ≡ j
index-of p = cc

pub Fires-event :
    {i j : ℕ} {env : Surroundings} {e : Event} → Fires j ((env, event i e) ∷ []) → i ≡ j
Fires-event (now e q) = index-of q
Fires-event (later f) = elim f [ ]

pub not_closed : {i j : ℕ} {env : Surroundings} → ¬ (Fires j ((env, closed i) ∷ []))
not_closed (now e q) = cc
not_closed (later f) = elim f [ ]

module _ (n : ℕ) (p : Messages) (s : State) (kept : Kept n p s) (env : Surroundings) (i : ℕ)
    (lt : i < n) where
  pub in_range : i < length s.matched
  in_range = subst (λ k. i < k) (sym kept.width) lt

  -- An event after which some child is not matched.
  event-Going :
      (e : Event) (t : State)
      → length t.matched ≡ n
      → ((j : ℕ) → j < n → Fires j (p ++ (env, event i e) ∷ []) → get_or t.matched j false ≡ true)
      → all_matched t.matched ≡ false
      → Going n (p ++ (env, event i e) ∷ [])
  event-Going e t width fires waits =
      let (j, l, q) = missing t.matched waits in
      let jlt : j < n = subst (λ k. j < k) width l in
      goes_on env i e kept.going j jlt (λ f. apart (sym (fires j jlt f) ∙ q))
    where
      apart : true ≢ false
      apart h = cc

  no_new_end : (e : Event) → has_end p ≡ has_end (p ++ (env, event i e) ∷ [])
  no_new_end e = let split = has_end-append p ((env, event i e) ∷ []) in ground arith

  -- The event of another child, or of one that is matched, leaves the sources of child j.
  sources-passed :
      (e : Event) (j : ℕ)
      → j < n
      → ((i == j) ≡ false) ⊎ (get_or s.matched i false ≡ true)
      → first_sources j (p ++ (env, event i e) ∷ []) ≡ first_sources j p
  sources-passed e j l why = elim (Bool-cases (get_or s.matched j false)) [
    | inl h ↦ first_sources-passed j p (env, event i e) (inl (kept.matched_fires j h))
    | inr h ↦
        let other : (i == j) ≡ false = elim why [
          | inl o ↦ o
          | inr m ↦ elim (Bool-cases (i == j)) [
            | inl same ↦ absurd (
                cc (sym (subst (λ k. get_or s.matched k false ≡ true) ((==_iff i j).0 same) m) ∙ h))
            | inr o ↦ o
          ]
        ] in
        first_sources-passed j p (env, event i e)
          (inr ((λ f. absurd (cc (sym (kept.fires_matched j l f) ∙ h))), rw other refl))
  ]

  pub latch-sources :
      (e : Event) (j : ℕ)
      → get_or s.matched i false ≡ false
      → j < n
      → get_or (set s.matched_sources i (event_sources e)) j []
        ≡ first_sources j (p ++ (env, event i e) ∷ [])
  latch-sources e j m l = elim (Bool-cases (i == j)) [
    | inl q ↦
        subst
          (λ k.
            get_or (set s.matched_sources i (event_sources e)) k []
            ≡ first_sources k (p ++ (env, event i e) ∷ []))
          ((==_iff i j).0 q)
          (get_or-set_self s.matched_sources i (event_sources e) []
              (subst (λ k. i < k) (sym kept.source_width) lt)
            ∙ sym first_one)
    | inr q ↦
        get_or-set_ne s.matched_sources i j (event_sources e) []
          (λ r. absurd (cc ((==_iff i j).1 r)))
        ∙ kept.sources_kept j l
        ∙ sym (sources-passed e j l (inl q))
  ]
    where
      same : (i == i) ≡ true
      same = (==_iff i i).1 refl

      first_one : first_sources i (p ++ (env, event i e) ∷ []) ≡ event_sources e
      first_one =
          first_sources-append_none i p ((env, event i e) ∷ [])
            (λ f. absurd (cc (sym (kept.fires_matched i lt f) ∙ m)))
          ∙ rw same refl

  pub matched-Kept :
      (e : Event) → get_or s.matched i false ≡ true → Kept n (p ++ (env, event i e) ∷ []) s
  matched-Kept e m = record {
    going = event-Going e s kept.width fires kept.waits;
    width = kept.width;
    matched_fires = λ j h. Fires-append_left ((env, event i e) ∷ []) (kept.matched_fires j h);
    fires_matched = fires;
    waits = kept.waits;
    is_open = kept.is_open;
    source_width = kept.source_width;
    sources_kept = λ j l. kept.sources_kept j l ∙ sym (sources-passed e j l (inr m));
    ends_seen = kept.ends_seen ∙ no_new_end e;
  }
    where
      fires :
          (j : ℕ) → j < n → Fires j (p ++ (env, event i e) ∷ []) → get_or s.matched j false ≡ true
      fires j l f = elim (Fires-append_cases p f) [
        | inl g ↦ kept.fires_matched j l g
        | inr g ↦ subst (λ k. get_or s.matched k false ≡ true) (Fires-event g) m
      ]

  -- A latched child has had an event, now or before.
  pub latch-Fires :
      (e : Event) (j : ℕ)
      → get_or (set s.matched i true) j false ≡ true
      → Fires j (p ++ (env, event i e) ∷ [])
  latch-Fires e j h = elim (get_or-set_cases s.matched i j true false) [
    | inl (q, _) ↦ Fires-append_right p (now e (ap (λ k. event k e) q))
    | inr q ↦ Fires-append_left ((env, event i e) ∷ []) (kept.matched_fires j (sym q ∙ h))
  ]

  pub latch-Kept :
      (e : Event)
      → get_or s.matched i false ≡ false
      → all_matched (set s.matched i true) ≡ false
      → Kept n (p ++ (env, event i e) ∷ []) (latch i e s)
  unfolding latch
  latch-Kept e m waits = record {
    going = event-Going e (latch i e s) width fires waits;
    width = width;
    matched_fires = λ j h. latch-Fires e j h;
    fires_matched = fires;
    waits = waits;
    is_open = latch-IsOpen i e s kept.is_open;
    source_width = length-set s.matched_sources i (event_sources e) ∙ kept.source_width;
    sources_kept = λ j l. latch-sources e j m l;
    ends_seen = kept.ends_seen ∙ no_new_end e;
  }
    where
      width : length (set s.matched i true) ≡ n
      width = length-set s.matched i true ∙ kept.width

      fires :
          (j : ℕ)
          → j < n
          → Fires j (p ++ (env, event i e) ∷ [])
          → get_or (set s.matched i true) j false ≡ true
      fires j l f =
          let l' : j < length s.matched = subst (λ k. j < k) (sym kept.width) l in
          elim (Fires-append_cases p f) [
            | inl g ↦ set-true-keeps s.matched i j l' (inr (kept.fires_matched j l g))
            | inr g ↦ set-true-keeps s.matched i j l' (inl (Fires-event g))
          ]
