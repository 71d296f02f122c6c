-- ===== src/Time/Print.antt =====
-- `Time::format` of code/Time.cpp; `none` is an exception, or a month outside the table of names.
use mlnotes.Base.{
  ℕ, not, Option, none, some, List, [], ◌∷◌, codes, if◌then◌else◌, ◌>>=◌, take, get_elem?,
}
use mlnotes.Base.Int.{ℤ, pos, negsuc, ◌+ℤ◌, ◌-ℤ◌, ◌*ℤ◌, ◌/ℤ◌, ◌%ℤ◌}
use mlnotes.StringTools.Edit.{to_upper_case}
use mlnotes.Time.{
  Format, yyyymmmdd_hhmmssuu, yyyymmdd_hhmmssuu, yyyymmdd_hhmmssmm, yyyymmmdd_hhmmss,
  yyyymmdd_hhmmss, ddmmmyyyy_hhmmss, yyyymmmdd, yyyymmdd, ddmmyyyy, hhmmssuu, hhmmssmm, hhmmss,
  sss_mmm, sss_uuu, iso_yyyymmdd, iso_yyyymmddhhmmss, mmddyyyy_hhmmssmm, offset, rfc_822, ddmmmyyyy,
  yyyymmddthhmmss, iso_yyyymmddthhmmss, iso_8601_sec_utc, iso_8601_msec_utc, iso_8601_usec_utc,
  yyyymmdd_hhmmssmm_withdash, hhmm, ddmmmyyyy_hhmmss_nodash, ddmmmyyyy_hhmmss_tz_nodash, Zone, utc,
  Precision, prec_seconds, prec_milliseconds, prec_microseconds, Exploded, Apr, explode, consistent,
  usecs_per_second, usecs_per_minute, usecs_per_hour, usecs_per_day,
}
use mlnotes.Time.Text.{Arg, int, bytes, format_strings, print}

abbrev pub usecs_within : ℤ → ℤ
usecs_within m_time = m_time %ℤ usecs_per_second

abbrev pub month_name_of : Apr → ℤ → Option (List ℕ)
month_name_of apr (pos i) = get_elem? apr.month_snames i
month_name_of apr (negsuc i) = none

abbrev pub year_of : Exploded → Arg
year_of et = int (pos 1900 +ℤ et.tm_year)

abbrev pub month_of : Exploded → Arg
month_of et = int (et.tm_mon +ℤ pos 1)

abbrev pub clock_of : Exploded → List Arg → List Arg
clock_of et more = int et.tm_hour ∷ int et.tm_min ∷ int et.tm_sec ∷ more

abbrev pub usec_of : Exploded → Arg
usec_of et = int et.tm_usec

abbrev pub msec_of : Exploded → Arg
msec_of et = int (et.tm_usec /ℤ pos 1000)

abbrev pub date_of : Exploded → List Arg → List Arg
date_of et more = year_of et ∷ month_of et ∷ int et.tm_mday ∷ more

-- The arguments of the formats with the name of the month; `zone_name` is what `get_timezone` gives.
-- The first format without dashes falls through to the other, which prints again with one argument
-- more.
unfoldable pub named_arguments : List ℕ → List ℕ → Format → Exploded → Option (List Arg)
named_arguments zone_name name yyyymmmdd_hhmmssuu et =
    some (year_of et ∷ bytes name ∷ int et.tm_mday ∷ clock_of et (usec_of et ∷ []))
named_arguments zone_name name ddmmmyyyy_hhmmss_nodash et =
    some (
      int et.tm_mday ∷ bytes (to_upper_case name) ∷ year_of et ∷ clock_of et (bytes zone_name ∷ []))
named_arguments zone_name name ddmmmyyyy_hhmmss_tz_nodash et =
    some (
      int et.tm_mday ∷ bytes (to_upper_case name) ∷ year_of et ∷ clock_of et (bytes zone_name ∷ []))
named_arguments zone_name name yyyymmmdd_hhmmss et =
    some (year_of et ∷ bytes name ∷ int et.tm_mday ∷ clock_of et [])
named_arguments zone_name name ddmmmyyyy_hhmmss et =
    some (int et.tm_mday ∷ bytes name ∷ year_of et ∷ clock_of et [])
named_arguments zone_name name ddmmmyyyy et = some (int et.tm_mday ∷ bytes name ∷ year_of et ∷ [])
named_arguments zone_name name yyyymmmdd et = some (year_of et ∷ bytes name ∷ int et.tm_mday ∷ [])
named_arguments zone_name name rfc_822 et =
    some (int et.tm_mday ∷ bytes name ∷ year_of et ∷ clock_of et (bytes (codes "GMT") ∷ []))
named_arguments zone_name name f et = none

-- The arguments of the formats in numbers.
unfoldable pub number_arguments : Format → Exploded → Option (List Arg)
number_arguments yyyymmdd_hhmmssuu et = some (date_of et (clock_of et (usec_of et ∷ [])))
number_arguments iso_8601_usec_utc et = some (date_of et (clock_of et (usec_of et ∷ [])))
number_arguments yyyymmdd_hhmmssmm et = some (date_of et (clock_of et (msec_of et ∷ [])))
number_arguments iso_8601_msec_utc et = some (date_of et (clock_of et (msec_of et ∷ [])))
number_arguments yyyymmdd_hhmmss et = some (date_of et (clock_of et []))
number_arguments iso_8601_sec_utc et = some (date_of et (clock_of et []))
number_arguments yyyymmdd et = some (date_of et [])
number_arguments ddmmyyyy et = some (int et.tm_mday ∷ month_of et ∷ year_of et ∷ [])
number_arguments hhmmssuu et = some (clock_of et (usec_of et ∷ []))
number_arguments hhmmssmm et = some (clock_of et (msec_of et ∷ []))
number_arguments hhmmss et = some (clock_of et [])
number_arguments iso_yyyymmdd et = some (date_of et [])
number_arguments iso_yyyymmddhhmmss et = some (date_of et (clock_of et []))
number_arguments mmddyyyy_hhmmssmm et =
    some (month_of et ∷ int et.tm_mday ∷ year_of et ∷ clock_of et (msec_of et ∷ []))
number_arguments yyyymmddthhmmss et = some (date_of et (clock_of et []))
number_arguments iso_yyyymmddthhmmss et = some (date_of et (clock_of et []))
number_arguments yyyymmdd_hhmmssmm_withdash et = some (date_of et (clock_of et (msec_of et ∷ [])))
number_arguments hhmm et = some (int et.tm_hour ∷ int et.tm_min ∷ [])
number_arguments f et = none

-- How many whole units a time has, and what is left: `n = tmp / unit; tmp -= n * unit;`
unfoldable pub take_units : ℤ → ℤ → ℤ × ℤ
take_units unit tmp = let n = tmp /ℤ unit in (n, tmp -ℤ n *ℤ unit)

-- Days, hours, minutes, seconds and microseconds, each taken off before the next.
unfoldable pub offset_parts : ℤ → ℤ × ℤ × ℤ × ℤ × ℤ
offset_parts m_time =
    let (d, after_days) = take_units usecs_per_day m_time in
    let (h, after_hours) = take_units usecs_per_hour after_days in
    let (m, after_minutes) = take_units usecs_per_minute after_hours in
    let (s, u) = take_units usecs_per_second after_minutes in (d, h, m, s, u)

abbrev pub offset_arguments : ℤ × ℤ × ℤ × ℤ × ℤ → List Arg
offset_arguments (d, h, m, s, u) = int d ∷ int h ∷ int m ∷ int s ∷ int u ∷ []

module _ (apr : Apr) (zone_name : Zone → List ℕ) where
  unfoldable pub calendar_arguments : ℤ → Format → Zone → Option (List Arg)
  calendar_arguments m_time f tz =
      let et = explode apr tz m_time in
      elim (number_arguments f et) [
        | some args ↦ some args
        | none ↦ month_name_of apr et.tm_mon >>= (λ name. named_arguments (zone_name tz) name f et)
      ]

  unfoldable pub arguments : ℤ → Format → Zone → Option (List Arg)
  arguments m_time sss_mmm tz =
      some (int (m_time /ℤ usecs_per_second) ∷ int (usecs_within m_time /ℤ pos 1000) ∷ [])
  arguments m_time sss_uuu tz =
      some (int (m_time /ℤ usecs_per_second) ∷ int (usecs_within m_time) ∷ [])
  arguments m_time offset tz = some (offset_arguments (offset_parts m_time))
  arguments m_time f tz = calendar_arguments m_time f tz

  -- At most 511 bytes and the terminating zero are written.
  unfoldable pub format : ℤ → Format → Zone → Option (List ℕ)
  format m_time f tz =
      if not (consistent f tz)
      then none
      else arguments m_time f tz >>= (λ args. some (take 511 (print (format_strings f) args)))

  unfoldable pub to_iso_string_utc : ℤ → Precision → Option (List ℕ)
  to_iso_string_utc m_time prec_seconds = format m_time iso_8601_sec_utc utc
  to_iso_string_utc m_time prec_milliseconds = format m_time iso_8601_msec_utc utc
  to_iso_string_utc m_time prec_microseconds = format m_time iso_8601_usec_utc utc
