-- ===== src/Condition/Events.antt =====
-- Events of internal/condition/condition.go, with the lists of their sources.
use outage.Base.{
  Bool, true, false, List, [], ◌∷◌, ◌++◌, In, here, there, IsNodup, ◌≡◌, ◌≢◌, inl, inr, refl, sym,
  arith, subst, Bool-cases, if◌then◌else◌, Text, equal, equal_iff, In-append_left, In-append_right,
  IsNodup-concat,
}
use outage.Base.Int.{pos, eqb_ℤ}
use outage.Time.{Time}

pub data Mode : Type 0 where
  once continuous : Mode

abbrev pub is_once : Mode → Bool
is_once once = true
is_once continuous = false

-- A mode on a list of events: Once keeps the first.
abbrev pub first_only {ℓ} : {A : Type ℓ} → List A → List A
first_only [] = []
first_only (e ∷ es) = e ∷ []

abbrev pub by_mode {ℓ} : {A : Type ℓ} → Mode → List A → List A
by_mode once es = first_only es
by_mode continuous es = es

-- Whether a stream has emitted.
abbrev pub emits {ℓ} : {A : Type ℓ} → List A → Bool
emits [] = false
emits (e ∷ es) = true

pub record Event : Type 0 where
  pub condition_id : Text
  pub source_ids : List Text
  pub time : Time

-- Time.IsZero
abbrev pub is_zero : Time → Bool
is_zero t = eqb_ℤ t (pos 0)

-- eventSources, by the sources and the id of the event.
abbrev pub sources_of : List Text → Text → List Text
sources_of [] [] = []
sources_of [] (c ∷ id) = (c ∷ id) ∷ []
sources_of (s ∷ sources) id = s ∷ sources

unfoldable pub event_sources : Event → List Text
event_sources e = sources_of e.source_ids e.condition_id

-- The inner loop of appendUnique.
unfoldable pub is_member : Text → List Text → Bool
is_member a [] = false
is_member a (v ∷ values) = if equal v a then true else is_member a values

-- appendUnique
unfoldable pub append_unique : List Text → List Text → List Text
append_unique values [] = values
append_unique values (a ∷ additions) =
    append_unique (if is_member a values then values else values ++ a ∷ []) additions

-- compositeEvent, with what `now` returns.
unfoldable pub composite_event : Text → Event → Time → Event
unfolding event_sources
composite_event id source now = record {
  condition_id = id;
  source_ids = event_sources source;
  time = if is_zero source.time then now else source.time;
}

is_member-In : (a : Text) (values : List Text) → is_member a values ≡ true → In a values
is_member-In a [] h = absurd (unfold is_member in cc)
is_member-In a (v ∷ values) h = elim (Bool-cases (equal v a)) [
  | inl e ↦ here (sym ((equal_iff v a).0 e))
  | inr n ↦ there (is_member-In a values (step n h))
]
  where
    step : equal v a ≡ false → is_member a (v ∷ values) ≡ true → is_member a values ≡ true
    step n q = unfold is_member in ground arith

is_member-not_In : (a : Text) (values : List Text) → is_member a values ≡ false → ¬ (In a values)
is_member-not_In a [] h p = elim p [ ]
is_member-not_In a (v ∷ values) h (here e) = hit ((equal_iff v a).1 (sym e)) h
  where
    hit : equal v a ≡ true → is_member a (v ∷ values) ≢ false
    hit t q = unfold is_member in ground arith
is_member-not_In a (v ∷ values) h (there p) = is_member-not_In a values (step h) p
  where
    step : is_member a (v ∷ values) ≡ false → is_member a values ≡ false
    step q = unfold is_member in ground arith

abbrev with_unique : Text → List Text → List Text
with_unique a values = if is_member a values then values else values ++ a ∷ []

append_unique-cons :
    (values : List Text) (a : Text) (additions : List Text)
    → append_unique values (a ∷ additions) ≡ append_unique (with_unique a values) additions
unfolding append_unique
append_unique-cons values a additions = refl

append_unique-nil : (values : List Text) → append_unique values [] ≡ values
unfolding append_unique
append_unique-nil values = refl

with_unique-IsNodup :
    (a : Text) (values : List Text) → IsNodup values → IsNodup (with_unique a values)
with_unique-IsNodup a values h = elim (Bool-cases (is_member a values)) [
  | inl m ↦ rw m h
  | inr m ↦ rw m (IsNodup-concat values a h (is_member-not_In a values m))
]

-- Appending unique values adds no repetition.
pub append_unique-IsNodup :
    (values additions : List Text) → IsNodup values → IsNodup (append_unique values additions)
append_unique-IsNodup values [] h = rw (append_unique-nil values) h
append_unique-IsNodup values (a ∷ additions) h =
    rw (append_unique-cons values a additions)
      (append_unique-IsNodup (with_unique a values) additions (with_unique-IsNodup a values h))

with_unique-keeps :
    (a : Text) (values : List Text) {b : Text} → In b values → In b (with_unique a values)
with_unique-keeps a values p = elim (Bool-cases (is_member a values)) [
  | inl m ↦ rw m p
  | inr m ↦ rw m (In-append_left (a ∷ []) p)
]

with_unique-adds : (a : Text) (values : List Text) → In a (with_unique a values)
with_unique-adds a values = elim (Bool-cases (is_member a values)) [
  | inl m ↦ rw m (is_member-In a values m)
  | inr m ↦ rw m (In-append_right values (here refl))
]

pub append_unique-keeps :
    (values additions : List Text) {b : Text} → In b values → In b (append_unique values additions)
append_unique-keeps values [] p = rw (append_unique-nil values) p
append_unique-keeps values (a ∷ additions) p =
    rw (append_unique-cons values a additions)
      (append_unique-keeps (with_unique a values) additions (with_unique-keeps a values p))

pub append_unique-adds :
    (values additions : List Text) {b : Text}
    → In b additions
    → In b (append_unique values additions)
append_unique-adds values [] p = elim p [ ]
append_unique-adds values (a ∷ additions) {b} (here e) =
    rw (append_unique-cons values a additions) (
      append_unique-keeps (with_unique a values) additions
        (subst (λ x. In x (with_unique a values)) (sym e) (with_unique-adds a values)))
append_unique-adds values (a ∷ additions) (there p) =
    rw (append_unique-cons values a additions)
      (append_unique-adds (with_unique a values) additions p)
