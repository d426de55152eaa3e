-- ===== src/Cli/Datetime/Earliest.antt =====
-- What a local deadline is: an occurrence of the fields that are written, and no later one than the
-- occurrence that time.Date gives.
use outage.Base.{true, false, Option, ◌≡◌, inl, inr, sym, arith, subst, Text}
use outage.Base.Int.{ℤ, pos, ◌≤ℤ◌}
use outage.Time.{Time, Civil, Location, TimePackage}
use outage.Cli.Datetime.Considered.{consider_offset-cases, earliest_local_instant-keeps}
use outage.Cli.Datetime.{
  consider_offset, earliest_local_instant, is_qualified, parse_local, resolve_local, local_fields,
  normalize_location, parse_absolute_deadline, same_local_date_time,
}

module _ (location : Location) (c : Civil) where
  -- At t the clocks of the location show c; it is not after the instant that time.Date gives for c.
  pub record IsOccurrence (t : Time) : Type 0 where
    pub shown : same_local_date_time (location.civil t) c ≡ true
    pub not_after : t ≤ℤ location.date c
    pub year_from : pos 1 ≤ℤ c.year
    pub year_to : c.year ≤ℤ pos 9999

  abbrev Candidate : Time → Type 0
  Candidate t = (same_local_date_time (location.civil t) c ≡ true) × (t ≤ℤ location.date c)

  consider_offset-Candidate :
      (wall : Time) (offset best : ℤ)
      → Candidate best
      → Candidate (consider_offset location c wall offset best)
  consider_offset-Candidate wall offset best (h, le) =
      elim (consider_offset-cases location c wall offset best) [
        | inl e ↦ subst Candidate (sym e) (h, le)
        | inr (e, s, lt) ↦ subst Candidate (sym e) (s, omega arith)
      ]

  resolve_local-IsOccurrence :
      (time : TimePackage) {t : Time} → resolve_local time location c ≡ inr t → IsOccurrence t
  unfolding resolve_local
  resolve_local-IsOccurrence time {t} h =
      let result = earliest_local_instant time (location.date c) c location in
      let from : pos 1 ≤ℤ c.year = ground arith in
      let to : c.year ≤ℤ pos 9999 = ground arith in
      let s : same_local_date_time (location.civil (location.date c)) c ≡ true = ground arith in
      let e : result ≡ t = ground arith in
      let p =
        earliest_local_instant-keeps Candidate time location c (location.date c)
          (consider_offset-Candidate (time.utc.date c)) (s, omega arith) in
      let q = subst Candidate e p in
      record { shown = q.0; not_after = q.1; year_from = from; year_to = to }

-- A value without an offset is read, if at all, as an instant at which the clocks of the location
-- show the written fields, which is not after the one that time.Date gives, in the years 1 to 9999.
pub parse_absolute_deadline-IsOccurrence :
    (time : TimePackage) (value : Text) (location : Option Location) {t : Time}
    → is_qualified value ≡ false
    → parse_absolute_deadline time value location ≡ inr t
    → IsOccurrence (normalize_location time location) (local_fields value) t
unfolding parse_absolute_deadline parse_local
parse_absolute_deadline-IsOccurrence time value location {t} q h =
    resolve_local-IsOccurrence (normalize_location time location) (local_fields value) time {t = t}
      (ground arith)
