-- ===== src/Time/Laws.antt =====
-- Differences of instants and sums of durations, where they are in range.
use outage.Base.{true, false, ◌≡◌, ◌⊎◌, inl, inr, refl, arith, Bool-cases}
use outage.Base.Int.{ℤ, pos, ◌+ℤ◌, ◌-ℤ◌, ◌≤ℤ◌, ◌<ℤ◌, ltb_ℤ, leb_ℤ, int_laws}
use outage.Time.{Time, Duration, sub_time, wrap_int64, max_int64, min_int64}

pub ltb_ℤ-lt : (a b : ℤ) → ltb_ℤ a b ≡ true → a <ℤ b
ltb_ℤ-lt a b h = ground arith

pub ltb_ℤ-le : (a b : ℤ) → ltb_ℤ a b ≡ false → b ≤ℤ a
ltb_ℤ-le a b h = ground arith

pub leb_ℤ-le : (a b : ℤ) → leb_ℤ a b ≡ true → a ≤ℤ b
leb_ℤ-le a b h = ground arith

pub leb_ℤ-lt : (a b : ℤ) → leb_ℤ a b ≡ false → b <ℤ a
leb_ℤ-lt a b h = ground arith

pub le_leb_ℤ : (a b : ℤ) → a ≤ℤ b → leb_ℤ a b ≡ true
le_leb_ℤ a b h = ground arith

pub le_ltb_ℤ : (a b : ℤ) → a ≤ℤ b → ltb_ℤ b a ≡ false
le_ltb_ℤ a b h = ground arith

pub le_trans_ℤ : (a b c : ℤ) → a ≤ℤ b → b ≤ℤ c → a ≤ℤ c
le_trans_ℤ a b c h k = omega arith

-- Time.Sub is the difference, or one end of the range that the difference is beyond.
pub sub_time-cases :
    (t u : Time)
    → (sub_time t u ≡ t -ℤ u)
      ⊎ (sub_time t u ≡ max_int64) × (max_int64 <ℤ t -ℤ u)
      ⊎ (sub_time t u ≡ min_int64) × (t -ℤ u <ℤ min_int64)
unfolding sub_time
sub_time-cases t u = elim (Bool-cases (ltb_ℤ max_int64 (t -ℤ u))) [
  | inl big ↦ inr (inl (rw big refl, ltb_ℤ-lt max_int64 (t -ℤ u) big))
  | inr not_big ↦ elim (Bool-cases (ltb_ℤ (t -ℤ u) min_int64)) [
    | inl small ↦ inr (inr (rw (not_big, small) refl, ltb_ℤ-lt (t -ℤ u) min_int64 small))
    | inr fits ↦ inl (rw (not_big, fits) refl)
  ]
]

pub wrap_int64_id : (z : ℤ) → min_int64 ≤ℤ z → z ≤ℤ max_int64 → wrap_int64 z ≡ z
unfolding wrap_int64
wrap_int64_id z low high = rw (le_ltb_ℤ z max_int64 high, le_ltb_ℤ min_int64 z low) refl

module _ (t u : Time) (d : Duration) (forward : u ≤ℤ t) where
  -- Enough has passed.
  pub sub_time-reached : d ≤ℤ sub_time t u → u +ℤ d ≤ℤ t
  sub_time-reached h = elim (sub_time-cases t u) [
    | inl e ↦ let h' = rw e at h in omega int_laws
    | inr (inl (e, big)) ↦ let h' = rw e at h in omega int_laws
    | inr (inr (e, small)) ↦ absurd (omega int_laws)
  ]

  -- Not enough has passed: the difference is exact, and the rest is within the range.
  pub sub_time_rest :
      pos 0 ≤ℤ d → d ≤ℤ max_int64 → sub_time t u <ℤ d → t +ℤ wrap_int64 (d -ℤ sub_time t u) ≡ u +ℤ d
  sub_time_rest from to h = elim (sub_time-cases t u) [
    | inl e ↦
        let h' = rw e at h in
        let low : min_int64 ≤ℤ d -ℤ (t -ℤ u) = omega int_laws in
        let high : d -ℤ (t -ℤ u) ≤ℤ max_int64 = omega int_laws in
        rw e (rw (wrap_int64_id (d -ℤ (t -ℤ u)) low high) (omega int_laws))
    | inr (inl (e, big)) ↦ let h' = rw e at h in absurd (omega int_laws)
    | inr (inr (e, small)) ↦ absurd (omega int_laws)
  ]

-- Before the deadline the difference is positive.
pub sub_time_pos : (t u : Time) → u <ℤ t → pos 0 <ℤ sub_time t u
sub_time_pos t u h = elim (sub_time-cases t u) [
  | inl e ↦ rw e (omega int_laws)
  | inr (inl (e, big)) ↦ rw e (omega arith)
  | inr (inr (e, small)) ↦ absurd (omega int_laws)
]

pub sub_time_nonpos : (t u : Time) → t ≤ℤ u → sub_time t u ≤ℤ pos 0
sub_time_nonpos t u h = elim (sub_time-cases t u) [
  | inl e ↦ rw e (omega int_laws)
  | inr (inl (e, big)) ↦ absurd (omega int_laws)
  | inr (inr (e, small)) ↦ rw e (omega arith)
]

pub sub_time_nonneg : (t u : Time) → u ≤ℤ t → pos 0 ≤ℤ sub_time t u
sub_time_nonneg t u h = elim (sub_time-cases t u) [
  | inl e ↦ rw e (omega int_laws)
  | inr (inl (e, big)) ↦ rw e (omega arith)
  | inr (inr (e, small)) ↦ absurd (omega int_laws)
]
