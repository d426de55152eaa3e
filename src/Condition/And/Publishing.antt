-- ===== src/Condition/And/Publishing.antt =====
-- How a cycle of the loop is published, and how the first and the next one begin.
use outage.Base.{
  ℕ, zero, suc, true, false, [], ◌∷◌, get_or, set, replicate, length, ltb, ◌≡◌, ◌≢◌, ◌⊎◌, inl, inr,
  refl, sym, ◌∙◌, subst, Text, length-set, length-replicate, get_or-replicate, if◌then◌else◌,
}
use outage.Time.{Time}
use outage.Condition.Events.{Mode, once, continuous, is_once, Event}
use outage.Condition.And.Latch.{Messages}
use outage.Condition.And.Open.{initial-IsOpen}
use outage.Condition.And.Cycles.{begun, has_closed_child-get}
use outage.Condition.And.Kept.{Kept}
use outage.Condition.And.{
  Message, State, Surroundings, emitted, last, stopped, aggregate, all_matched, has_closed_child,
  latch, publish, turn, loop, initial, reset,
}

module _ (id : Text) (mode : Mode) (env : Surroundings) (s : State) where
  pub publish-stopped : env.delivers ≡ false → publish id mode env s ≡ stopped
  unfolding publish
  publish-stopped d = rw d refl

  pub publish-last :
      env.delivers ≡ true
      → (mode ≡ once) ⊎ (has_closed_child s.closed_child ≡ true)
      → publish id mode env s ≡ last (aggregate id s)
  unfolding publish
  publish-last d (inl e) = rw (d, e) refl
  publish-last d (inr c) = rw (d, c) (go mode)
    where
      go :
          (m : Mode)
          → (if is_once m then last (aggregate id s) else last (aggregate id s))
            ≡ last (aggregate id s)
      go once = refl
      go continuous = refl

  pub publish-emitted :
      env.delivers ≡ true
      → mode ≡ continuous
      → has_closed_child s.closed_child ≡ false
      → publish id mode env s ≡ emitted (aggregate id s) (reset env.now s)
  unfolding publish
  publish-emitted d e c = rw (d, e, c) refl

module _ (id : Text) (mode : Mode) (env : Surroundings) (m : Message) (ms : Messages) (s : State)
    (more : ltb 0 s.remaining_open ≡ true) where
  pub loop-last :
      {e : Event} → turn id mode env m s ≡ last e → loop id mode ((env, m) ∷ ms) s ≡ e ∷ []
  unfolding loop
  loop-last h = rw (more, h) refl

  pub loop-emitted :
      {e : Event} {t : State}
      → turn id mode env m s ≡ emitted e t
      → loop id mode ((env, m) ∷ ms) s ≡ e ∷ loop id mode ms t
  unfolding loop
  loop-emitted h = rw (more, h) refl

pub Mode-cases : (mode : Mode) → (mode ≡ once) ⊎ (mode ≡ continuous)
Mode-cases once = inl refl
Mode-cases continuous = inr refl

pub latch-closed_child :
    (i : ℕ) (e : Event) (s : State) → (latch i e s).closed_child ≡ s.closed_child
unfolding latch
latch-closed_child i e s = refl

unlatched : (i n : ℕ) → get_or (replicate n false) i false ≢ true
unlatched i n h = let q = get_or-replicate n i false in cc

waiting : (n : ℕ) → all_matched (replicate (suc n) false) ≡ false
unfolding all_matched
waiting n = refl

no_closed : (n : ℕ) → has_closed_child (replicate n false) ≡ false
unfolding has_closed_child
no_closed zero = refl
no_closed (suc n) = no_closed n

pub initial-Kept : (k : ℕ) (t : Time) → Kept (suc k) [] (initial (suc k) t)
unfolding initial
initial-Kept k t = record {
  going = begun;
  width = length-replicate (suc k) false;
  matched_fires = λ i h. absurd (unlatched i (suc k) h);
  fires_matched = λ i l f. elim f [ ];
  waits = waiting k;
  is_open = unfold initial in initial-IsOpen (suc k) t;
  source_width = length-replicate (suc k) [];
  sources_kept = λ j l. get_or-replicate (suc k) j [];
  ends_seen = no_closed (suc k);
}

-- A new cycle, while no stream has ended.
pub reset-Kept :
    (k : ℕ) (p : Messages) (s : State) (t : Time) (i : ℕ) (e : Event)
    → Kept (suc k) p s
    → has_closed_child s.closed_child ≡ false
    → Kept (suc k) [] (reset t (latch i e s))
unfolding reset latch
reset-Kept k p s t i e kept c =
    let n : length (set s.matched i true) ≡ suc k = length-set s.matched i true ∙ kept.width in
    record {
      going = begun;
      width = length-replicate (length (set s.matched i true)) false ∙ n;
      matched_fires = λ j h. absurd (unlatched j (length (set s.matched i true)) h);
      fires_matched = λ j l f. elim f [ ];
      waits = subst (λ m. all_matched (replicate m false) ≡ false) (sym n) (waiting k);
      is_open = record {
        lengths =
            kept.is_open.lengths
            ∙ sym (length-set s.matched i true)
            ∙ sym (length-replicate (length (set s.matched i true)) false);
        counted = kept.is_open.counted;
        closed_matched = λ j h. absurd (apart (sym (has_closed_child-get s.closed_child j h) ∙ c));
      };
      source_width = length-replicate (length (set s.matched i true)) [] ∙ n;
      sources_kept = λ j l. get_or-replicate (length (set s.matched i true)) j [];
      ends_seen = c;
    }
  where
    apart : true ≢ false
    apart h = cc
