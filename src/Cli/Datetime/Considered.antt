-- ===== src/Cli/Datetime/Considered.antt =====
-- What earliestLocalInstant may return: `parsed`, or a candidate that an offset gave.
use outage.Base.{
  ℕ, zero, suc, ◌^◌, ◌-◌, Bool, true, false, not, ◌||◌, Option, none, some, ◌≡◌, ◌⊎◌, inl, inr,
  refl, arith, Bool-cases,
}
use outage.Base.Int.{ℤ, pos, ◌-ℤ◌, ◌+ℤ◌, ltb_ℤ, ◌<ℤ◌}
use outage.Time.{Time, Civil, Location, TimePackage, of_unix, unix, seconds}
use outage.Cli.Datetime.{
  same_local_date_time, consider_offset, scan_intervals, scan_fuel, consider_zone,
  earliest_local_instant, offset_before, offset_behind, is_unbounded,
}

pub consider_offset-cases :
    (location : Location) (c : Civil) (wall : Time) (offset : ℤ) (best : Time)
    → let candidate = of_unix (unix wall -ℤ offset) in
      (consider_offset location c wall offset best ≡ best)
      ⊎ (consider_offset location c wall offset best ≡ candidate)
        × (same_local_date_time (location.civil candidate) c ≡ true)
        × (candidate <ℤ best)
unfolding consider_offset
consider_offset-cases location c wall offset best = ground arith

-- A property of `parsed` that every considered offset keeps holds of the result.
module _ {κ} (P : Time → Type κ) (location : Location) (c : Civil) (wall : Time)
    (keep : (offset best : ℤ) → P best → P (consider_offset location c wall offset best)) where
  scan_intervals-keeps :
      (fuel : ℕ) (last current best : Time)
      → P best
      → P (scan_intervals fuel location c wall last current best)
  scan_intervals-keeps zero last current best p = unfold scan_intervals in p
  scan_intervals-keeps (suc fuel) last current best p =
      go (ltb_ℤ last current) (location.zone_end current) refl refl
        (λ end. scan_intervals-keeps fuel last end best' q)
    where
      best' : Time
      best' = consider_offset location c wall (location.offset current) best

      q : P best'
      q = keep (location.offset current) best p

      go :
          (b : Bool) (e : Option Time)
          → ltb_ℤ last current ≡ b
          → location.zone_end current ≡ e
          → ((end : Time) → P (scan_intervals fuel location c wall last end best'))
          → P (scan_intervals (suc fuel) location c wall last current best)
      go true e hb he ih = unfold scan_intervals in rw hb p
      go false none hb he ih = unfold scan_intervals in rw (hb, he) q
      go false (some end) hb he ih = elim (Bool-cases (ltb_ℤ last end || not (ltb_ℤ current end))) [
        | inl t ↦ unfold scan_intervals in rw (hb, he) (rw t q)
        | inr f ↦ unfold scan_intervals in rw (hb, he) (rw f (ih end))
      ]

  consider_zone-keeps :
      (zone : Option ℤ) (best : Time) → P best → P (consider_zone location c wall zone best)
  consider_zone-keeps none best p = p
  consider_zone-keeps (some offset) best p = keep offset best p

pub earliest_local_instant-keeps {κ} :
    (P : Time → Type κ) (time : TimePackage) (location : Location) (c : Civil) (parsed : Time)
    → ((offset best : ℤ) → P best → P (consider_offset location c (time.utc.date c) offset best))
    → P parsed
    → P (earliest_local_instant time parsed c location)
unfolding earliest_local_instant
earliest_local_instant-keeps P time location c parsed keep p =
    let wall = time.utc.date c in
    let best₁ = consider_zone location c wall (offset_before location parsed) parsed in
    let p₁ : P best₁ =
      consider_zone-keeps P location c wall keep (offset_before location parsed) parsed p in
    let best₂ = consider_zone location c wall (offset_behind location parsed) best₁ in
    let p₂ : P best₂ =
      consider_zone-keeps P location c wall keep (offset_behind location parsed) best₁ p₁ in
    elim (Bool-cases (is_unbounded (location.zone_start parsed) (location.zone_end parsed))) [
      | inl u ↦ rw u p
      | inr b ↦ rw b (
          scan_intervals-keeps P location c wall keep scan_fuel (wall +ℤ seconds (pos (2 ^ 31)))
            (wall -ℤ seconds (pos (2 ^ 31 - 1))) best₂ p₂)
    ]
