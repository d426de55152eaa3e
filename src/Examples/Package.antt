-- ===== src/Examples/Package.antt =====
-- A package time to run the parse with: it knows a few durations and RFC 3339 values, and prints an
-- instant as its number of nanoseconds.
use outage.Base.{◌*◌, none, some, refl, codes, equal, if◌then◌else◌}
use outage.Base.Int.{pos}
use outage.Time.{Civil, Location, TimePackage, second}
use outage.Cli.Conditions.{Env, unix, print_int}
use outage.Cli.Datetime.{normalize_location}
use outage.Cli.Conditions.Identities.{WholeLaws}
use outage.Cli.Conditions.Printing.{print_int-injective}

abbrev midnight : Civil
midnight = record {
  year = pos 1;
  month = 1;
  day = 1;
  hour = 0;
  minute = 0;
  sec = 0;
  nanosecond = 0;
}

abbrev pub flat : Location
flat = record {
  date = λ _. pos 0;
  civil = λ _. midnight;
  offset = λ _. pos 0;
  zone_start = λ _. none;
  zone_end = λ _. none;
}

abbrev pub package_time : TimePackage
package_time = record {
  parse_duration = λ v.
      if equal v (codes "30s")
      then some (pos (30 * second))
      else if equal v (codes "0.5m")
      then some (pos (30 * second))
      else none;
  parse_rfc3339 = λ _. none;
  format_rfc3339 = print_int;
  utc = flat;
  local = none;
}

abbrev pub linux : Env
linux = record { platform = unix; time = package_time; location = none }

pub linux-WholeLaws : WholeLaws linux
unfolding normalize_location
linux-WholeLaws = record {
  rfc3339_whole = λ value p q e. cc;
  date_whole = λ c h. (refl, refl);
  format_injective = λ t u h k e. print_int-injective e;
}
