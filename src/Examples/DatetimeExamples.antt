-- ===== src/Examples/DatetimeExamples.antt =====
-- A local datetime that occurs twice.
use outage.Base.{
  ◌^◌, arith, ℕ, ◌+◌, ◌-◌, ◌*◌, ◌/◌, ◌%◌, ◌≡◌, inr, none, some, refl, codes, if◌then◌else◌,
}
use outage.Base.Int.{ℤ, pos, ◌+ℤ◌, ◌-ℤ◌, ltb_ℤ, pos_part}
use outage.Time.{Time, Civil, Location, TimePackage, of_unix, unix, seconds, whole_seconds}
use outage.Cli.Datetime.Fuel.{scan_intervals-scan_fuel}
use outage.Cli.Datetime.{
  parse_absolute_deadline, is_qualified, parse_local, local_fields, resolve_local,
  earliest_local_instant, consider_offset, scan_intervals, offset_before, offset_behind,
  same_local_date_time, parse_ascii_digits, all_ascii_digits, normalize_location, scan_fuel,
}
use outage.Examples.Package.{package_time}

abbrev hour_seconds : ℕ
hour_seconds = 3600

-- Until the end of 1970-01-01 in UTC the clocks are an hour ahead.
abbrev turned_back : Time
turned_back = of_unix (pos 86_400)

abbrev offset_at : Time → ℤ
offset_at t = if ltb_ℤ t turned_back then pos hour_seconds else pos 0

-- The fields in January 1970, by the seconds since its start.
abbrev fields : ℕ → Civil
fields s = record {
  year = pos 1970;
  month = 1;
  day = 1 + s / 86_400;
  hour = s / hour_seconds % 24;
  minute = s / 60 % 60;
  sec = s % 60;
  nanosecond = 0;
}

abbrev january : Civil → Time
january c = of_unix (pos ((c.day - 1) * 86_400 + c.hour * hour_seconds + c.minute * 60 + c.sec))

abbrev city : Location
city = record {
  date = january;
  civil = λ t. fields (pos_part (unix t +ℤ offset_at t));
  offset = offset_at;
  zone_start = λ t. if ltb_ℤ t turned_back then none else some turned_back;
  zone_end = λ t. if ltb_ℤ t turned_back then some turned_back else none;
}

abbrev january_utc : Location
january_utc = record {
  date = january;
  civil = λ t. fields (pos_part (unix t));
  offset = λ _. pos 0;
  zone_start = λ _. none;
  zone_end = λ _. none;
}

abbrev city_time : TimePackage
city_time = record {
  parse_duration = package_time.parse_duration;
  parse_rfc3339 = package_time.parse_rfc3339;
  format_rfc3339 = package_time.format_rfc3339;
  utc = january_utc;
  local = some city;
}

-- The earlier of 23:30 and 00:30 in UTC.
half_past_twelve :
    parse_absolute_deadline city_time (codes "1970-01-02T00:30") none ≡ inr (of_unix (pos 84_600))
unfolding parse_absolute_deadline is_qualified parse_local local_fields resolve_local
    earliest_local_instant consider_offset scan_intervals offset_before offset_behind
    same_local_date_time parse_ascii_digits all_ascii_digits normalize_location of_unix unix seconds
    whole_seconds ◌+ℤ◌ ◌-ℤ◌
half_past_twelve = refl

scan_intervals-scan_fuel_example :
    scan_intervals
      (scan_fuel + 5)
      city
      (fields 88_200)
      (of_unix (pos 88_200))
      (of_unix (pos 88_200) +ℤ seconds (pos (2 ^ 31)))
      (of_unix (pos 88_200) -ℤ seconds (pos (2 ^ 31 - 1)))
      (of_unix (pos 88_200))
    ≡ scan_intervals scan_fuel city
        (fields 88_200)
        (of_unix (pos 88_200))
        (of_unix (pos 88_200) +ℤ seconds (pos (2 ^ 31)))
        (of_unix (pos 88_200) -ℤ seconds (pos (2 ^ 31 - 1)))
        (of_unix (pos 88_200))
scan_intervals-scan_fuel_example =
    scan_intervals-scan_fuel city (fields 88_200) (of_unix (pos 88_200)) (of_unix (pos 88_200))
      (scan_fuel + 5) (omega arith)
