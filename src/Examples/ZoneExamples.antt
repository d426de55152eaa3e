-- ===== src/Examples/ZoneExamples.antt =====
-- A location whose clocks are turned back, and the first of two occurrences.
use outage.Base.{
  arith, ℕ, ◌+◌, ◌-◌, ◌*◌, ◌/◌, ◌%◌, ◌≡◌, ◌≢◌, inl, inr, none, some, refl, sym, subst, codes, true,
  if◌then◌else◌, Bool-cases, ◌∙◌,
}
use outage.Base.Int.{ℤ, pos, ◌+ℤ◌, ◌-ℤ◌, ltb_ℤ, ◌<ℤ◌, ◌≤ℤ◌, pos_part, eq_of_parts}
use outage.Time.{Time, Civil, Location, TimePackage, of_unix, unix, seconds, whole_seconds}
use outage.Time.Laws.{ltb_ℤ-lt}
use outage.Cli.Datetime.Zones.{ZoneLaws}
use outage.Cli.Datetime.Earliest.{IsOccurrence}
use outage.Cli.Datetime.Minimal.{parse_absolute_deadline_earliest}
use outage.Cli.Datetime.{
  parse_absolute_deadline, is_qualified, parse_local, local_fields, resolve_local,
  earliest_local_instant, consider_offset, scan_intervals, offset_before, offset_behind,
  same_local_date_time, parse_ascii_digits, all_ascii_digits, normalize_location,
}
use outage.Examples.Package.{package_time}

-- The nanoseconds from the year 1 to 1970-01-01T00:00:00.
abbrev epoch : ℕ
epoch = 62_135_596_800_000_000_000

abbrev nanoseconds : ℕ
nanoseconds = 1_000_000_000

-- The fields of January 1970 by the nanoseconds since its start.
abbrev january_fields : ℕ → Civil
january_fields n = record {
  year = pos 1970;
  month = 1;
  day = 1 + n / (86_400 * nanoseconds);
  hour = n / (3_600 * nanoseconds) % 24;
  minute = n / (60 * nanoseconds) % 60;
  sec = n / nanoseconds % 60;
  nanosecond = n % nanoseconds;
}

abbrev long_ago : Civil
long_ago = record {
  year = pos 1;
  month = 1;
  day = 1;
  hour = 0;
  minute = 0;
  sec = 0;
  nanosecond = 0;
}

-- The fields in UTC, from 1970 on.
abbrev clock : Time → Civil
clock t = if ltb_ℤ t (pos epoch) then long_ago else january_fields (pos_part t - epoch)

abbrev from_fields : Civil → Time
from_fields c =
    pos (epoch + ((c.day - 1) * 86_400 + c.hour * 3_600 + c.minute * 60 + c.sec) * nanoseconds)

-- Until the end of 1970-01-01 in UTC the clocks are an hour ahead.
abbrev turned_back : Time
turned_back = pos (epoch + 86_400 * nanoseconds)

abbrev ahead : Time → ℤ
ahead t = if ltb_ℤ t turned_back then pos 3_600 else pos 0

abbrev town : Location
town = record {
  date = from_fields;
  civil = λ t. clock (t +ℤ seconds (ahead t));
  offset = ahead;
  zone_start = λ t. if ltb_ℤ t turned_back then none else some turned_back;
  zone_end = λ t. if ltb_ℤ t turned_back then some turned_back else none;
}

abbrev town_utc : Location
town_utc = record {
  date = from_fields;
  civil = clock;
  offset = λ _. pos 0;
  zone_start = λ _. none;
  zone_end = λ _. none;
}

abbrev town_time : TimePackage
town_time = record {
  parse_duration = package_time.parse_duration;
  parse_rfc3339 = package_time.parse_rfc3339;
  format_rfc3339 = package_time.format_rfc3339;
  utc = town_utc;
  local = some town;
}

abbrev half_past : Civil
half_past = record {
  year = pos 1970;
  month = 1;
  day = 2;
  hour = 0;
  minute = 30;
  sec = 0;
  nanosecond = 0;
}

january_half_past :
    (n : ℕ) → same_local_date_time (january_fields n) half_past ≡ true → n ≡ 88_200 * nanoseconds
unfolding same_local_date_time
january_half_past n h =
    let day : 1 + n / (86_400 * nanoseconds) ≡ 2 = ground arith in
    let hour : n / (3_600 * nanoseconds) % 24 ≡ 0 = ground arith in
    let minute : n / (60 * nanoseconds) % 60 ≡ 30 = ground arith in
    let sec : n / nanoseconds % 60 ≡ 0 = ground arith in
    let ns : n % nanoseconds ≡ 0 = ground arith in omega arith

clock_half_past :
    (t : Time) → same_local_date_time (clock t) half_past ≡ true → t ≡ from_fields half_past
unfolding same_local_date_time
clock_half_past t h = elim (Bool-cases (ltb_ℤ t (pos epoch))) [
  | inl y ↦ absurd (early (rw y at h))
  | inr y ↦
      let n = january_half_past (pos_part t - epoch) (rw y at h) in
      eq_of_parts t (from_fields half_past) (ground arith)
]
  where
    early : same_local_date_time long_ago half_past ≢ true
    early p = ground arith

ahead_early : (t : Time) → t <ℤ turned_back → ahead t ≡ pos 3_600
ahead_early t h = ground arith

ahead_late : (t : Time) → turned_back ≤ℤ t → ahead t ≡ pos 0
ahead_late t h = ground arith

last_is_late : (t : Time) → town.zone_end t ≡ none → turned_back ≤ℤ t
last_is_late t e = ground arith

first_is_early : (t : Time) → town.zone_start t ≡ none → t <ℤ turned_back
first_is_early t e = ground arith

ending_is_early :
    (t end : Time) → town.zone_end t ≡ some end → (t <ℤ turned_back) × (turned_back ≡ end)
ending_is_early t end e = elim (Bool-cases (ltb_ℤ t turned_back)) [
  | inl y ↦ (ltb_ℤ-lt t turned_back y, cc)
  | inr y ↦ cc
]

town-ZoneLaws : ZoneLaws town_time town half_past
unfolding seconds
town-ZoneLaws = record {
  shown_at = λ t s. clock_half_past (t +ℤ seconds (ahead t)) s;
  utc_seconds = λ t from to s. (62_135_596_800 + 88_200, refl, omega arith);
  last_zone =
      λ t e u le. let l = last_is_late t e in ahead_late u (omega arith) ∙ sym (ahead_late t l);
  first_zone =
      λ t e u le. let f = first_is_early t e in ahead_early u (omega arith) ∙ sym (ahead_early t f);
  zone_after = λ t end e. let (f, q) = ending_is_early t end e in subst (λ x. t <ℤ x) q f;
  within_zone = λ t end e u le lt.
      let (f, q) = ending_is_early t end e in
      let before = subst (λ x. u <ℤ x) (sym q) lt in ahead_early u before ∙ sym (ahead_early t f);
  tzif_offset = λ t b u. (ground arith, ground arith);
}

parse_absolute_deadline_earliest_example :
    IsOccurrence town half_past (pos (epoch + 84_600 * nanoseconds))
    × ((u : Time)
        → same_local_date_time (town.civil u) half_past ≡ true
        → pos (epoch + 84_600 * nanoseconds) ≤ℤ u)
unfolding parse_absolute_deadline is_qualified parse_local local_fields resolve_local
    earliest_local_instant consider_offset scan_intervals offset_before offset_behind
    same_local_date_time parse_ascii_digits all_ascii_digits normalize_location of_unix unix seconds
    whole_seconds ◌+ℤ◌ ◌-ℤ◌
parse_absolute_deadline_earliest_example =
    parse_absolute_deadline_earliest town_time (codes "1970-01-02T00:30") none
      {t = pos (epoch + 84_600 * nanoseconds)} town-ZoneLaws refl refl
