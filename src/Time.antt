-- ===== src/Time.antt =====
-- What the source uses of package time. An instant is its nanoseconds since 0001-01-01T00:00:00Z,
-- the zero time.Time; a time.Duration is a number of nanoseconds. The calendar, the zone tables and
-- the texts of durations and RFC 3339 values are operations that the modules take as arguments.
pub mod Laws
use outage.Base.{ℕ, suc, ◌*◌, ◌/◌, ◌^◌, Option, Text, if◌then◌else◌}
use outage.Base.Int.{ℤ, pos, negsuc, sub_ℕ, ◌+ℤ◌, ◌-ℤ◌, ltb_ℤ}

abbrev pub Time : Type 0
Time = ℤ

abbrev pub Duration : Type 0
Duration = ℤ

abbrev pub second : ℕ
second = 1_000_000_000

-- Whole seconds as nanoseconds.
unfoldable pub seconds : ℤ → Duration
seconds (pos n) = pos (n * second)
seconds (negsuc n) = sub_ℕ 0 (suc n * second)

-- The Unix time of the zero time.Time, negated.
abbrev pub unix_to_internal : ℤ
unix_to_internal = pos 62_135_596_800

-- Nanoseconds to the whole seconds at or below them.
unfoldable pub whole_seconds : ℤ → ℤ
whole_seconds (pos n) = pos (n / second)
whole_seconds (negsuc n) = negsuc (n / second)

-- Time.Unix
unfoldable pub unix : Time → ℤ
unfolding whole_seconds ◌-ℤ◌
unix t = whole_seconds t -ℤ unix_to_internal

-- time.Unix(sec, 0)
unfoldable pub of_unix : ℤ → Time
unfolding seconds ◌+ℤ◌
of_unix s = seconds (s +ℤ unix_to_internal)

abbrev pub max_int64 : ℤ
max_int64 = pos 9_223_372_036_854_775_807

abbrev pub min_int64 : ℤ
min_int64 = negsuc 9_223_372_036_854_775_807

-- Time.Sub: the difference, saturated to the range of a Duration.
unfoldable pub sub_time : Time → Time → Duration
unfolding ◌-ℤ◌
sub_time t u =
    let d = t -ℤ u in
    if ltb_ℤ max_int64 d then max_int64 else if ltb_ℤ d min_int64 then min_int64 else d

-- A sum or difference of two values of int64, as int64 arithmetic wraps it.
unfoldable pub wrap_int64 : ℤ → ℤ
wrap_int64 z =
    if ltb_ℤ max_int64 z
    then z -ℤ pos (2 ^ 64)
    else if ltb_ℤ z min_int64
    then z +ℤ pos (2 ^ 64)
    else z

-- Time.Add
abbrev pub add_time : Time → Duration → Time
add_time t d = t +ℤ d

-- The fields that Year, Month, Day, Hour, Minute, Second and Nanosecond return.
pub record Civil : Type 0 where
  pub year : ℤ
  pub month : ℕ
  pub day : ℕ
  pub hour : ℕ
  pub minute : ℕ
  pub sec : ℕ
  pub nanosecond : ℕ

-- A time.Location: time.Date in it, and the fields, the zone offset in seconds and the zone bounds
-- of an instant in it; no bound is the zero time.Time that ZoneBounds returns.
pub record Location : Type 0 where
  pub date : Civil → Time
  pub civil : Time → Civil
  pub offset : Time → ℤ
  pub zone_start : Time → Option Time
  pub zone_end : Time → Option Time

-- An RFC 3339 value: its instant, and its year in the zone that it names.
pub record Rfc3339 : Type 0 where
  pub instant : Time
  pub year : ℤ

pub record TimePackage : Type 0 where
  pub parse_duration : Text → Option Duration
  pub parse_rfc3339 : Text → Option Rfc3339
  -- t.UTC().Format(time.RFC3339)
  pub format_rfc3339 : Time → Text
  pub utc : Location
  -- time.Local
  pub local : Option Location
