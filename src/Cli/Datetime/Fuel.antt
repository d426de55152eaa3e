-- ===== src/Cli/Datetime/Fuel.antt =====
-- The fuel of the scan over the zone intervals.
use outage.Base.{
  ℕ, zero, suc, ◌+◌, ◌^◌, ◌-◌, ◌<◌, ◌≤◌, Bool, true, false, not, ◌||◌, Option, none, some, ◌≡◌, inl,
  inr, refl, sym, arith, Bool-cases,
}
use outage.Base.Int.{pos, ◌-ℤ◌, ◌+ℤ◌, ltb_ℤ, pos_part, neg_part, +ℤ_parts, -ℤ_parts}
use outage.Time.{Time, Civil, Location, seconds}
use outage.Cli.Datetime.{consider_offset, scan_intervals, scan_fuel}

-- The nanoseconds from `current` to `last` are fewer than the fuel.
abbrev pub IsEnough : ℕ → Time → Time → Type 0
IsEnough fuel last current =
    pos_part last + neg_part current < pos_part current + neg_part last + fuel

module _ (location : Location) (c : Civil) (wall last : Time) where
  scan_intervals_past :
      (fuel : ℕ) (current best : Time)
      → IsEnough 0 last current
      → scan_intervals fuel location c wall last current best ≡ best
  unfolding scan_intervals
  scan_intervals_past zero current best h = refl
  scan_intervals_past (suc fuel) current best h =
      let b : ltb_ℤ last current ≡ true = ground arith in rw b refl

  scan_intervals_enough :
      (fuel fuel' : ℕ) (current best : Time)
      → IsEnough fuel last current
      → IsEnough fuel' last current
      → scan_intervals fuel location c wall last current best
        ≡ scan_intervals fuel' location c wall last current best
  scan_intervals_enough zero fuel' current best h h' =
      unfold scan_intervals in sym (scan_intervals_past fuel' current best h)
  scan_intervals_enough (suc fuel) zero current best h h' =
      unfold scan_intervals in scan_intervals_past (suc fuel) current best h'
  scan_intervals_enough (suc fuel) (suc fuel') current best h h' =
      go (ltb_ℤ last current) (location.zone_end current) refl refl
        (λ end later. scan_intervals_enough fuel fuel' end best' (omega arith) (omega arith))
    where
      best' : Time
      best' = consider_offset location c wall (location.offset current) best

      go :
          (b : Bool) (e : Option Time)
          → ltb_ℤ last current ≡ b
          → location.zone_end current ≡ e
          → ((end : Time)
              → pos_part current + neg_part end < pos_part end + neg_part current
              → scan_intervals fuel location c wall last end best'
                ≡ scan_intervals fuel' location c wall last end best')
          → scan_intervals (suc fuel) location c wall last current best
            ≡ scan_intervals (suc fuel') location c wall last current best
      go true e hb he ih = unfold scan_intervals in rw hb refl
      go false none hb he ih = unfold scan_intervals in rw (hb, he) refl
      go false (some end) hb he ih = elim (Bool-cases (ltb_ℤ last end || not (ltb_ℤ current end))) [
        | inl t ↦ unfold scan_intervals in rw (hb, he) (rw t refl)
        | inr f ↦ unfold scan_intervals in rw (hb, he) (rw f (ih end (ground arith)))
      ]

pub scan_fuel-IsEnough :
    (wall : Time)
    → IsEnough scan_fuel (wall +ℤ seconds (pos (2 ^ 31))) (wall -ℤ seconds (pos (2 ^ 31 - 1)))
unfolding seconds
scan_fuel-IsEnough wall =
    let p = +ℤ_parts wall (seconds (pos (2 ^ 31))) in
    let q = -ℤ_parts wall (seconds (pos (2 ^ 31 - 1))) in omega arith

-- The fuel of earliestLocalInstant is enough for its window: with any more of it, the scan gives the
-- same instant, whatever the zone tables say.
pub scan_intervals-scan_fuel :
    (location : Location) (c : Civil) (wall best : Time) (fuel : ℕ)
    → scan_fuel ≤ fuel
    → scan_intervals fuel location c wall
        (wall +ℤ seconds (pos (2 ^ 31)))
        (wall -ℤ seconds (pos (2 ^ 31 - 1)))
        best
      ≡ scan_intervals scan_fuel location c wall
          (wall +ℤ seconds (pos (2 ^ 31)))
          (wall -ℤ seconds (pos (2 ^ 31 - 1)))
          best
scan_intervals-scan_fuel location c wall best fuel h =
    let last = wall +ℤ seconds (pos (2 ^ 31)) in
    let current = wall -ℤ seconds (pos (2 ^ 31 - 1)) in
    let e = scan_fuel-IsEnough wall in
    scan_intervals_enough location c wall last fuel scan_fuel current best (omega arith) e
