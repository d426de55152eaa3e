-- ===== src/Cli/Datetime.antt =====
-- internal/cli/datetime.go: datetime values and the choice of the earliest local instant.
pub mod Considered
pub mod Earliest
pub mod Fuel
pub mod Whole
pub mod Zones
pub mod Minimal
use outage.Base.{
  ℕ, zero, suc, ◌+◌, ◌-◌, ◌*◌, ◌^◌, Bool, true, false, not, ◌&&◌, ◌||◌, Option, none, some, ◌⊎◌,
  inl, inr, List, [], ◌∷◌, length, get_or, take, drop, leb, ltb, ◌==◌, if◌then◌else◌, Text, codes,
  equal, has_prefix,
}
use outage.Base.Int.{ℤ, pos, negsuc, ◌+ℤ◌, ◌-ℤ◌, ltb_ℤ, leb_ℤ, eqb_ℤ}
use outage.Time.{
  Time, Civil, Location, Rfc3339, TimePackage, seconds, unix, of_unix, unix_to_internal, max_int64,
  min_int64,
}
use outage.Cli.Number.{is_digit}
use outage.Cli.Result.{
  Result, ok, err, DatetimeError, offset_syntax, offset_range, rfc3339_syntax, year_range, layout,
  layout_seconds, non_numeric, not_local, missing_datetime_prefix, invalid_datetime,
}

-- normalizeLocation
unfoldable pub normalize_location : TimePackage → Option Location → Location
normalize_location time (some location) = location
normalize_location time none = elim time.local [ none ↦ time.utc | some l ↦ l ]

all_digits : Text → Bool
all_digits [] = true
all_digits (c ∷ s) = is_digit c && all_digits s

-- allASCIIDigits
unfoldable pub all_ascii_digits : Text → Bool
unfolding all_digits
all_ascii_digits [] = false
all_ascii_digits (c ∷ s) = all_digits (c ∷ s)

digits_from : ℕ → Text → ℕ
digits_from result [] = result
digits_from result (c ∷ s) = digits_from (result * 10 + (c - b'0')) s

-- parseASCIIDigits, which the source calls on digits only.
unfoldable pub parse_ascii_digits : Text → ℕ
unfolding digits_from
parse_ascii_digits = digits_from 0

-- value[from:to] and value[i], within the value.
abbrev pub slice : Text → ℕ → ℕ → Text
slice value from to = take (to - from) (drop from value)

abbrev pub byte_at : Text → ℕ → ℕ
byte_at value i = get_or value i 0

-- sameLocalDateTime, in a location.
unfoldable pub same_local_date_time : Civil → Civil → Bool
same_local_date_time value c =
    eqb_ℤ value.year c.year
    && value.month == c.month
    && value.day == c.day
    && value.hour == c.hour
    && value.minute == c.minute
    && value.sec == c.sec
    && value.nanosecond == 0

-- The closure considerOffset of earliestLocalInstant: `best` after it.
unfoldable pub consider_offset : Location → Civil → Time → ℤ → Time → Time
consider_offset location c wall offset best =
    let wall_unix = unix wall in
    let candidate = of_unix (wall_unix -ℤ offset) in
    if ltb_ℤ (pos 0) offset && ltb_ℤ wall_unix (min_int64 +ℤ offset)
      || ltb_ℤ offset (pos 0) && ltb_ℤ (max_int64 +ℤ offset) wall_unix
    then best
    else if ltb_ℤ (max_int64 -ℤ unix_to_internal) (wall_unix -ℤ offset)
    then best
    else if same_local_date_time (location.civil candidate) c && ltb_ℤ candidate best
    then candidate
    else best

-- The loop of earliestLocalInstant over the zone intervals up to `last_candidate`.
unfoldable pub scan_intervals : ℕ → Location → Civil → Time → Time → Time → Time → Time
scan_intervals zero location c wall last_candidate current best = best
scan_intervals (suc fuel) location c wall last_candidate current best =
    let best' = consider_offset location c wall (location.offset current) best in
    let rest = λ (end : Time). scan_intervals fuel location c wall last_candidate end best' in
    if ltb_ℤ last_candidate current then best else (elim (location.zone_end current) [
      | none ↦ best'
      | some end ↦ if ltb_ℤ last_candidate end || not (ltb_ℤ current end) then best' else rest end
    ])

-- More than the nanoseconds from the first candidate to the last.
abbrev pub scan_fuel : ℕ
scan_fuel = 2 ^ 63

abbrev pub consider_zone : Location → Civil → Time → Option ℤ → Time → Time
consider_zone location c wall none best = best
consider_zone location c wall (some offset) best = consider_offset location c wall offset best

-- The offset just before the zone of `parsed`, and the offset just behind it.
unfoldable pub offset_before : Location → Time → Option ℤ
offset_before location parsed = elim (location.zone_start parsed) [
  | none ↦ none
  | some start ↦ some (location.offset (start -ℤ pos 1))
]

unfoldable pub offset_behind : Location → Time → Option ℤ
offset_behind location parsed = elim (location.zone_end parsed) [
  | none ↦ none
  | some end ↦ some (location.offset end)
]

abbrev pub is_unbounded : Option Time → Option Time → Bool
is_unbounded none none = true
is_unbounded _ _ = false

-- earliestLocalInstant
unfoldable pub earliest_local_instant : TimePackage → Time → Civil → Location → Time
earliest_local_instant time parsed c location =
    let wall = time.utc.date c in
    let best₁ = consider_zone location c wall (offset_before location parsed) parsed in
    let best₂ = consider_zone location c wall (offset_behind location parsed) best₁ in
    let last_candidate = wall +ℤ seconds (pos (2 ^ 31)) in
    let first_candidate = wall -ℤ seconds (pos (2 ^ 31 - 1)) in
    if is_unbounded (location.zone_start parsed) (location.zone_end parsed)
    then parsed
    else scan_intervals scan_fuel location c wall last_candidate first_candidate best₂

abbrev pub Deadline : Type 0
Deadline = DatetimeError ⊎ Time

-- The first branch of parseAbsoluteDeadline: an RFC 3339 value.
unfoldable pub is_qualified : Text → Bool
is_qualified value =
    length value == 20 && byte_at value 19 == b'Z'
    || length value == 25 && (byte_at value 19 == b'+' || byte_at value 19 == b'-')

unfoldable pub parse_qualified : TimePackage → Text → Deadline
parse_qualified time value =
    let parsed : Deadline = elim (time.parse_rfc3339 value) [
      | none ↦ inl rfc3339_syntax
      | some p ↦
          if ltb_ℤ p.year (pos 1) || ltb_ℤ (pos 9999) p.year then inl year_range else inr p.instant
    ] in
    if length value == 25
    then if not (all_ascii_digits (slice value 20 22))
        || not (byte_at value 22 == b':')
        || not (all_ascii_digits (slice value 23 25))
      then inl offset_syntax
      else if ltb 23 (parse_ascii_digits (slice value 20 22))
          || ltb 59 (parse_ascii_digits (slice value 23 25))
      then inl offset_range
      else parsed
    else parsed

-- The fields of a local value of the right layout.
unfoldable pub local_fields : Text → Civil
unfolding parse_ascii_digits
local_fields value = record {
  year = pos (parse_ascii_digits (slice value 0 4));
  month = parse_ascii_digits (slice value 5 7);
  day = parse_ascii_digits (slice value 8 10);
  hour = parse_ascii_digits (slice value 11 13);
  minute = parse_ascii_digits (slice value 14 16);
  sec = if length value == 19 then parse_ascii_digits (slice value 17 19) else 0;
  nanosecond = 0;
}

-- The end of parseAbsoluteDeadline: a local value by its fields.
unfoldable pub resolve_local : TimePackage → Location → Civil → Deadline
resolve_local time location c =
    let parsed = location.date c in
    if ltb_ℤ c.year (pos 1) || ltb_ℤ (pos 9999) c.year
    then inl year_range
    else if not (same_local_date_time (location.civil parsed) c)
    then inl not_local
    else inr (earliest_local_instant time parsed c location)

unfoldable pub parse_local : TimePackage → Location → Text → Deadline
parse_local time location value =
    if not (length value == 16) && not (length value == 19)
    then inl layout
    else if not (byte_at value 4 == b'-')
        || not (byte_at value 7 == b'-')
        || not (byte_at value 10 == b'T')
        || not (byte_at value 13 == b':')
    then inl layout
    else if length value == 19 && not (byte_at value 16 == b':')
    then inl layout_seconds
    else if not (all_ascii_digits (slice value 0 4))
        || not (all_ascii_digits (slice value 5 7))
        || not (all_ascii_digits (slice value 8 10))
        || not (all_ascii_digits (slice value 11 13))
        || not (all_ascii_digits (slice value 14 16))
    then inl non_numeric
    else if length value == 19 && not (all_ascii_digits (slice value 17 19))
    then inl non_numeric
    else resolve_local time location (local_fields value)

-- parseAbsoluteDeadline
unfoldable pub parse_absolute_deadline : TimePackage → Text → Option Location → Deadline
parse_absolute_deadline time value location =
    if is_qualified value
    then parse_qualified time value
    else parse_local time (normalize_location time location) value

abbrev pub datetime_prefix : Text
datetime_prefix = codes "datetime:"

-- parseDatetimeEvent
unfoldable pub parse_datetime_event : TimePackage → Text → Option Location → Result Time
parse_datetime_event time event location =
    if not (has_prefix event datetime_prefix)
    then err (missing_datetime_prefix event)
    else (elim (parse_absolute_deadline time (drop (length datetime_prefix) event) location) [
      | inl e ↦ err (invalid_datetime event e)
      | inr deadline ↦ ok deadline
    ])
