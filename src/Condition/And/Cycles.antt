-- ===== src/Condition/And/Cycles.antt =====
-- The cycles of an AND, as a relation of its messages and events without the loop's variables.
use outage.Base.{
  get_or, if◌then◌else◌, ◌==◌, ℕ, zero, suc, ◌<◌, Bool, true, false, ◌||◌, List, [], ◌∷◌, ◌++◌, set,
  length, ◌≡◌, ◌⊎◌, inl, inr, refl, arith, Text,
}
use outage.Condition.Events.{event_sources, Mode, once, continuous, Event}
use outage.Condition.And.Latch.{Messages, Fires, now, later}
use outage.Condition.And.{
  collect, Message, event, closed, Surroundings, all_matched, has_closed_child,
}

-- The message of a child that exists.
abbrev pub IsBelow : ℕ → Message → Type 0
IsBelow n (event i e) = i < n
IsBelow n (closed i) = i < n

abbrev is_end : Message → Bool
is_end (event i e) = false
is_end (closed i) = true

-- The end of a stream is among the messages.
abbrev pub has_end : Messages → Bool
has_end [] = false
has_end ((env, m) ∷ ms) = is_end m || has_end ms

-- The sources of the first event of child j, if it has one.
abbrev pub first_sources : ℕ → Messages → List Text
first_sources j [] = []
first_sources j ((env, event i e) ∷ ms) = if i == j then event_sources e else first_sources j ms
first_sources j ((env, closed i) ∷ ms) = first_sources j ms

-- The event of an AND of n children for a cycle: it has the sources of each child's first event, in the
-- order of the children and without repetition.
pub record IsMade (id : Text) (n : ℕ) (ms : Messages) (out : Event) : Type 0 where
  pub own_id : out.condition_id ≡ id
  pub sources : List (List Text)
  pub width : length sources ≡ n
  pub first_ones : (j : ℕ) → j < n → get_or sources j [] ≡ first_sources j ms
  pub collected : out.source_ids ≡ collect [] sources

-- Messages on which a cycle goes on: some child has had no event, and a stream has ended only behind an
-- event of its child.
pub data Going (n : ℕ) : Messages → Type 0 where
  begun : Going n []
  goes_on :
      {ms : Messages} (env : Surroundings) (i : ℕ) (e : Event)
      → Going n ms
      → (j : ℕ) → j < n
      → ¬ (Fires j (ms ++ (env, event i e) ∷ []))
      → Going n (ms ++ (env, event i e) ∷ [])
  ends :
      {ms : Messages} (env : Surroundings) (i : ℕ)
      → Going n ms
      → Fires i ms
      → Going n (ms ++ (env, closed i) ∷ [])

-- `Cycles id mode n ms es`: an AND of n children emits the events on the messages. A cycle is complete at
-- the message behind which every child has had an event. It is given up when a stream ends without an
-- event of its child, and the last when it is not delivered, in the mode `once`, or when a stream has ended.
pub data Cycles (id : Text) (mode : Mode) (n : ℕ) : Messages → List Event → Type 0 where
  unfinished : {ms : Messages} → Going n ms → Cycles id mode n ms []
  given_up :
      {ms : Messages} (env : Surroundings) (i : ℕ) (rest : Messages)
      → Going n ms
      → ¬ (Fires i ms)
      → Cycles id mode n (ms ++ (env, closed i) ∷ rest) []
  undelivered :
      {ms : Messages} (env : Surroundings) (i : ℕ) (e : Event) (rest : Messages)
      → Going n ms
      → ((j : ℕ) → j < n → Fires j (ms ++ (env, event i e) ∷ []))
      → env.delivers ≡ false
      → Cycles id mode n (ms ++ (env, event i e) ∷ rest) []
  last_one :
      {ms : Messages} (env : Surroundings) (i : ℕ) (e : Event) (rest : Messages) {out : Event}
      → Going n ms
      → ((j : ℕ) → j < n → Fires j (ms ++ (env, event i e) ∷ []))
      → env.delivers ≡ true
      → (mode ≡ once) ⊎ (has_end ms ≡ true)
      → IsMade id n (ms ++ (env, event i e) ∷ []) out
      → Cycles id mode n (ms ++ (env, event i e) ∷ rest) (out ∷ [])
  again :
      {ms : Messages} (env : Surroundings) (i : ℕ) (e : Event) (rest : Messages) {out : Event}
      {outs : List Event}
      → Going n ms
      → ((j : ℕ) → j < n → Fires j (ms ++ (env, event i e) ∷ []))
      → env.delivers ≡ true
      → mode ≡ continuous
      → has_end ms ≡ false
      → IsMade id n (ms ++ (env, event i e) ∷ []) out
      → Cycles id mode n rest outs
      → Cycles id mode n (ms ++ (env, event i e) ∷ rest) (out ∷ outs)

pub Fires-append_cases :
    {i : ℕ} (p : Messages) {q : Messages} → Fires i (p ++ q) → Fires i p ⊎ Fires i q
Fires-append_cases [] f = inr f
Fires-append_cases (m ∷ p) (now e q) = inl (now e q)
Fires-append_cases (m ∷ p) (later f) = elim (Fires-append_cases p f) [
  | inl g ↦ inl (later g)
  | inr g ↦ inr g
]

pub Fires-append_left : {i : ℕ} {p : Messages} (q : Messages) → Fires i p → Fires i (p ++ q)
Fires-append_left q (now e r) = now e r
Fires-append_left q (later f) = later (Fires-append_left q f)

pub Fires-append_right : {i : ℕ} (p : Messages) {q : Messages} → Fires i q → Fires i (p ++ q)
Fires-append_right [] f = f
Fires-append_right (m ∷ p) f = later (Fires-append_right p f)

pub has_end-append : (p q : Messages) → has_end (p ++ q) ≡ (has_end p || has_end q)
has_end-append [] q = refl
has_end-append (m ∷ p) q = let ih = has_end-append p q in ground arith

pub has_closed_child-set :
    (c : List Bool) (i : ℕ) → i < length c → has_closed_child (set c i true) ≡ true
unfolding has_closed_child
has_closed_child-set [] i l = elim l [ ]
has_closed_child-set (v ∷ c) zero l = refl
has_closed_child-set (v ∷ c) (suc i) l =
    let ih = has_closed_child-set c i (omega arith) in ground arith

pub has_closed_child-get :
    (c : List Bool) (i : ℕ) → get_or c i false ≡ true → has_closed_child c ≡ true
unfolding has_closed_child
has_closed_child-get [] i h = cc
has_closed_child-get (v ∷ c) zero h = rw h refl
has_closed_child-get (v ∷ c) (suc i) h = let ih = has_closed_child-get c i h in ground arith

-- Some child is not matched.
pub missing :
    (matched : List Bool)
    → all_matched matched ≡ false
    → (j : ℕ) × (j < length matched) × (get_or matched j false ≡ false)
unfolding all_matched
missing [] h = cc
missing (true ∷ matched) h = let (j, l, q) = missing matched h in (suc j, omega arith, q)
missing (false ∷ matched) h = (0, omega arith, refl)
