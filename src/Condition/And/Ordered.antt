-- ===== src/Condition/And/Ordered.antt =====
-- The orders of messages in which a child's stream ends only behind an event of it.
use outage.Base.{
  ℕ, ◌<◌, Bool, true, false, List, [], ◌∷◌, get_or, set, length, ◌==◌, ==_iff, ◌≡◌, ◌⊎◌, inl, inr,
  ◌∙◌, All, Bool-cases, get_or-set_self, get_or-set_ne,
}
use outage.Condition.And.Latch.{Messages}
use outage.Condition.And.{Message, event, closed, Surroundings}

-- Each message is of a child, and a child's stream ends only behind an event of it, or if the child was
-- matched before.
abbrev pub AfterEvents : List Bool → Messages → Type 0
AfterEvents matched [] = Unit
AfterEvents matched ((env, event i e) ∷ ms) =
    (i < length matched) × AfterEvents (set matched i true) ms
AfterEvents matched ((env, closed i) ∷ ms) =
    (i < length matched) × (get_or matched i false ≡ true) × AfterEvents matched ms

abbrev pub IsDelivering : Messages → Type 0
IsDelivering = All (λ (m : Surroundings × Message). m.0.delivers ≡ true)

pub set-true-keeps :
    (matched : List Bool) (index i : ℕ)
    → i < length matched
    → (index ≡ i) ⊎ (get_or matched i false ≡ true)
    → get_or (set matched index true) i false ≡ true
set-true-keeps matched index i l (inl e) = rw e (get_or-set_self matched i true false l)
set-true-keeps matched index i l (inr h) = elim (Bool-cases (index == i)) [
  | inl e ↦ rw ((==_iff index i).0 e) (get_or-set_self matched i true false l)
  | inr n ↦ get_or-set_ne matched index i true false (λ e. cc ((==_iff index i).1 e)) ∙ h
]
