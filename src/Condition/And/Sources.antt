-- ===== src/Condition/And/Sources.antt =====
-- The sources of the first event of a child, as messages are added.
use outage.Base.{ap, Bool-cases, ◌∙◌, ◌==◌, ==_iff, sym, ℕ, [], ◌∷◌, ◌++◌, ◌≡◌, ◌⊎◌, inl, inr, refl}
use outage.Condition.Events.{Event}
use outage.Condition.And.Latch.{Messages, Fires, now, later}
use outage.Condition.And.{Message, event, closed, Surroundings}
use outage.Condition.And.Cycles.{first_sources}
use outage.Condition.And.Cycles.{first_sources}

pub first_sources-none : (j : ℕ) (p : Messages) → ¬ (Fires j p) → first_sources j p ≡ []
first_sources-none j [] h = refl
first_sources-none j ((env, closed i) ∷ p) h = first_sources-none j p (λ f. h (later f))
first_sources-none j ((env, event i e) ∷ p) h = elim (Bool-cases (i == j)) [
  | inl q ↦ absurd (h (now e (ap (λ k. event k e) ((==_iff i j).0 q))))
  | inr q ↦ rw q (first_sources-none j p (λ f. h (later f)))
]

pub first_sources-append :
    (j : ℕ) (p q : Messages) → Fires j p → first_sources j (p ++ q) ≡ first_sources j p
first_sources-append j [] q f = elim f [ ]
first_sources-append j ((env, event i e) ∷ p) q f = elim (Bool-cases (i == j)) [
  | inl h ↦ rw h refl
  | inr h ↦ rw h (
      first_sources-append j p q
        (elim f [ now e' r ↦ absurd (cc ((==_iff i j).1 (same r))) | later g ↦ g ]))
]
  where
    same : {a b : ℕ} {x y : Event} → event a x ≡ event b y → a ≡ b
    same r = cc
first_sources-append j ((env, closed i) ∷ p) q (later f) = first_sources-append j p q f
first_sources-append j ((env, closed i) ∷ p) q (now e r) = cc

pub first_sources-append_none :
    (j : ℕ) (p q : Messages) → ¬ (Fires j p) → first_sources j (p ++ q) ≡ first_sources j q
first_sources-append_none j [] q h = refl
first_sources-append_none j ((env, closed i) ∷ p) q h =
    first_sources-append_none j p q (λ f. h (later f))
first_sources-append_none j ((env, event i e) ∷ p) q h = elim (Bool-cases (i == j)) [
  | inl r ↦ absurd (h (now e (ap (λ k. event k e) ((==_iff i j).0 r))))
  | inr r ↦ rw r (first_sources-append_none j p q (λ f. h (later f)))
]

-- A message that is no event of child j leaves its first sources.
pub first_sources-passed :
    (j : ℕ) (p : Messages) (m : Surroundings × Message)
    → (Fires j p) ⊎ ((¬ (Fires j p)) × (first_sources j (m ∷ []) ≡ []))
    → first_sources j (p ++ m ∷ []) ≡ first_sources j p
first_sources-passed j p m (inl f) = first_sources-append j p (m ∷ []) f
first_sources-passed j p m (inr (h, e)) =
    first_sources-append_none j p (m ∷ []) h ∙ e ∙ sym (first_sources-none j p h)
