-- ===== src/Cli/Datetime/Whole.antt =====
-- Deadlines are whole seconds, so that the text of one in UTC determines it.
use outage.Base.{
  ◌%◌, true, Option, some, ◌≡◌, inl, inr, refl, sym, arith, subst, Bool-cases, Option-cases, Text,
  length, drop,
}
use outage.Base.Int.{ℤ, pos, negsuc, pos_part, neg_part, ◌-ℤ◌, ◌+ℤ◌}
use outage.Time.{
  Time, Civil, Location, Rfc3339, TimePackage, second, seconds, of_unix, unix, unix_to_internal,
}
use outage.Cli.Result.{ok}
use outage.Cli.Datetime.Considered.{consider_offset-cases, earliest_local_instant-keeps}
use outage.Cli.Datetime.{
  consider_offset, earliest_local_instant, is_qualified, parse_qualified, parse_local,
  resolve_local, local_fields, normalize_location, parse_absolute_deadline, datetime_prefix,
  parse_datetime_event,
}

abbrev pub IsWhole : Time → Type 0
IsWhole t = (pos_part t % second ≡ 0) × (neg_part t % second ≡ 0)

-- What the parse relies on: an RFC 3339 value of the lengths that the source lets through has no
-- fraction, time.Date without nanoseconds is a whole second, and the formatted text in UTC tells
-- whole seconds apart.
pub record TimeLaws (time : TimePackage) (location : Location) : Type 0 where
  pub rfc3339_whole :
      (value : Text) (p : Rfc3339)
      → is_qualified value ≡ true
      → time.parse_rfc3339 value ≡ some p
      → IsWhole p.instant
  pub date_whole : (c : Civil) → c.nanosecond ≡ 0 → IsWhole (location.date c)
  pub format_injective :
      (t u : Time) → IsWhole t → IsWhole u → time.format_rfc3339 t ≡ time.format_rfc3339 u → t ≡ u

seconds-IsWhole : (s : ℤ) → IsWhole (seconds s)
unfolding seconds
seconds-IsWhole (pos n) = omega arith
seconds-IsWhole (negsuc n) = ground arith

of_unix-IsWhole : (s : ℤ) → IsWhole (of_unix s)
unfolding of_unix
of_unix-IsWhole s = seconds-IsWhole (s +ℤ unix_to_internal)

consider_offset-IsWhole :
    (location : Location) (c : Civil) (wall : Time) (offset best : ℤ)
    → IsWhole best
    → IsWhole (consider_offset location c wall offset best)
consider_offset-IsWhole location c wall offset best h =
    elim (consider_offset-cases location c wall offset best) [
      | inl e ↦ subst IsWhole (sym e) h
      | inr (e, _, _) ↦ subst IsWhole (sym e) (of_unix-IsWhole (unix wall -ℤ offset))
    ]

module _ {time : TimePackage} {location : Location} (laws : TimeLaws time location) where
  resolve_local-IsWhole :
      (c : Civil) {t : Time} → c.nanosecond ≡ 0 → resolve_local time location c ≡ inr t → IsWhole t
  unfolding resolve_local
  resolve_local-IsWhole c {t} n h =
      let whole : IsWhole (earliest_local_instant time (location.date c) c location) =
        earliest_local_instant-keeps IsWhole time location c (location.date c)
          (consider_offset-IsWhole location c (time.utc.date c)) (laws.date_whole c n) in
      ground arith

  parse_local-IsWhole :
      (value : Text) {t : Time} → parse_local time location value ≡ inr t → IsWhole t
  unfolding parse_local
  parse_local-IsWhole value {t} h =
      resolve_local-IsWhole (local_fields value) {t = t} (unfold local_fields in refl)
        (ground arith)

  parse_qualified-IsWhole :
      (value : Text) {t : Time}
      → is_qualified value ≡ true
      → parse_qualified time value ≡ inr t
      → IsWhole t
  unfolding parse_qualified
  parse_qualified-IsWhole value {t} q h = elim (Option-cases (time.parse_rfc3339 value)) [
    | inl n ↦ ground arith
    | inr (p, e) ↦
        let w = laws.rfc3339_whole value p q e in
        let r : p.instant ≡ t = ground arith in subst IsWhole r w
  ]

-- A deadline is a whole second.
pub parse_datetime_event-IsWhole :
    (time : TimePackage) (event : Text) (location : Option Location) {t : Time}
    → TimeLaws time (normalize_location time location)
    → parse_datetime_event time event location ≡ ok t
    → IsWhole t
unfolding parse_datetime_event parse_absolute_deadline
parse_datetime_event-IsWhole time event location {t} laws h =
    let value = drop (length datetime_prefix) event in
    elim (Bool-cases (is_qualified value)) [
      | inl q ↦ parse_qualified-IsWhole laws value q (ground arith)
      | inr q ↦ parse_local-IsWhole laws value (ground arith)
    ]
