-- ===== src/Time/Parse.antt =====
-- The constructor of code/Time.cpp that parses a text; `none` is an exception.

use mlnotes.Base.{
  ℕ, ◌+◌, ◌==◌, not, Option, none, some, List, [], ◌∷◌, ◌++◌, length, codes, if◌then◌else◌, ◌>>=◌,
  get_or,
}
use mlnotes.Base.Int.{ℤ, pos, ◌+ℤ◌, ◌-ℤ◌, ◌*ℤ◌}
use mlnotes.Format.{strcasecmp_eq}
use mlnotes.StringTools.Match.{strncmp_eq}
use mlnotes.Time.{
  Format, yyyymmmdd_hhmmssuu, yyyymmdd_hhmmssuu, yyyymmdd_hhmmssmm, yyyymmmdd_hhmmss,
  yyyymmdd_hhmmss, ddmmmyyyy_hhmmss, yyyymmmdd, yyyymmdd, ddmmyyyy, hhmmssuu, hhmmssmm, hhmmss,
  sss_mmm, sss_uuu, iso_yyyymmdd, iso_yyyymmddhhmmss, mmddyyyy_hhmmssmm, offset, rfc_822, ddmmmyyyy,
  iso_yyyymmddthhmmss, iso_8601_sec_utc, iso_8601_msec_utc, iso_8601_usec_utc,
  yyyymmdd_hhmmssmm_withdash, hhmm, ddmmmyyyy_hhmmss_nodash, ddmmmyyyy_hhmmss_tz_nodash, Zone,
  Exploded, Apr, explode, consistent, usecs_per_second, usecs_per_minute, usecs_per_hour,
  usecs_per_day,
}
use mlnotes.Time.Text.{Arg, int, bytes, format_strings, parse_strings, scan}

-- Where a scanned field goes, with the change that is made to it afterwards.
pub data Target : Type 0 where
  year : Target
  mon : Target
  month_name : Target
  mday : Target
  hour : Target
  min : Target
  sec : Target
  usec : Target
  msec : Target
  no_usec : Target
  no_sec : Target
  gmt : Target
  zed : Target
  ignored : Target

-- The month of a name: the first of the twelve that matches.
unfoldable pub month_from_string : List ℕ → List (List ℕ) → ℕ → Option ℤ
month_from_string sz [] i = none
month_from_string sz (name ∷ names) i =
    let later = month_from_string sz names (i + 1) in
    if strcasecmp_eq sz name then some (pos i) else later

abbrev pub dmy_hms : List Target
dmy_hms = mday ∷ month_name ∷ year ∷ hour ∷ min ∷ sec ∷ []

abbrev pub ymd_hms : List Target
ymd_hms = year ∷ mon ∷ mday ∷ hour ∷ min ∷ sec ∷ []

-- The formats with a date and a time.
unfoldable pub date_time_targets : Format → Option (List Target)
date_time_targets yyyymmmdd_hhmmssuu =
    some (year ∷ month_name ∷ mday ∷ hour ∷ min ∷ sec ∷ usec ∷ [])
date_time_targets yyyymmdd_hhmmssuu = some (ymd_hms ++ usec ∷ [])
date_time_targets yyyymmdd_hhmmssmm = some (ymd_hms ++ msec ∷ [])
date_time_targets yyyymmmdd_hhmmss =
    some (year ∷ month_name ∷ mday ∷ hour ∷ min ∷ sec ∷ no_usec ∷ [])
date_time_targets yyyymmdd_hhmmss = some (ymd_hms ++ no_usec ∷ [])
date_time_targets ddmmmyyyy_hhmmss_tz_nodash = some (dmy_hms ++ ignored ∷ no_usec ∷ [])
date_time_targets ddmmmyyyy_hhmmss_nodash = some (dmy_hms ++ no_usec ∷ [])
date_time_targets ddmmmyyyy_hhmmss = some (dmy_hms ++ no_usec ∷ [])
date_time_targets f = none

-- The formats with a date or a time alone: what they do not name keeps its present value.
unfoldable pub partial_targets : Format → Option (List Target)
partial_targets ddmmmyyyy = some (mday ∷ month_name ∷ year ∷ [])
partial_targets yyyymmmdd = some (year ∷ month_name ∷ mday ∷ [])
partial_targets yyyymmdd = some (year ∷ mon ∷ mday ∷ [])
partial_targets ddmmyyyy = some (mday ∷ mon ∷ year ∷ [])
partial_targets hhmmssuu = some (hour ∷ min ∷ sec ∷ usec ∷ [])
partial_targets hhmmssmm = some (hour ∷ min ∷ sec ∷ msec ∷ [])
partial_targets hhmmss = some (hour ∷ min ∷ sec ∷ no_usec ∷ [])
partial_targets iso_yyyymmdd = some (year ∷ mon ∷ mday ∷ [])
partial_targets f = none

unfoldable pub standard_targets : Format → Option (List Target)
standard_targets iso_yyyymmddhhmmss = some (ymd_hms ++ no_usec ∷ [])
standard_targets iso_yyyymmddthhmmss = some (ymd_hms ++ no_usec ∷ [])
standard_targets mmddyyyy_hhmmssmm = some (mon ∷ mday ∷ year ∷ hour ∷ min ∷ sec ∷ msec ∷ [])
standard_targets rfc_822 = some (dmy_hms ++ gmt ∷ no_usec ∷ [])
standard_targets iso_8601_sec_utc = some (ymd_hms ++ zed ∷ no_usec ∷ [])
standard_targets iso_8601_msec_utc = some (ymd_hms ++ msec ∷ zed ∷ [])
standard_targets iso_8601_usec_utc = some (ymd_hms ++ usec ∷ zed ∷ [])
standard_targets yyyymmdd_hhmmssmm_withdash = some (ymd_hms ++ msec ∷ [])
standard_targets hhmm = some (hour ∷ min ∷ no_sec ∷ no_usec ∷ [])
standard_targets f = none

-- The switch; `none` is its default, which throws.
unfoldable pub targets : Format → Option (List Target)
targets f = elim (date_time_targets f) [
  | some fields ↦ some fields
  | none ↦ elim (partial_targets f) [ some fields ↦ some fields | none ↦ standard_targets f ]
]

unfoldable pub parse_delta : Format → List Arg → Option ℤ
parse_delta sss_mmm (int s ∷ int u ∷ []) = some (s *ℤ usecs_per_second +ℤ u *ℤ pos 1000)
parse_delta f (int s ∷ int u ∷ []) = some (s *ℤ usecs_per_second +ℤ u)
parse_delta f args = none

unfoldable pub parse_offset : List Arg → Option ℤ
parse_offset (int d ∷ int h ∷ int m ∷ int s ∷ int u ∷ []) = some (
    d *ℤ usecs_per_day
    +ℤ h *ℤ usecs_per_hour
    +ℤ m *ℤ usecs_per_minute
    +ℤ s *ℤ usecs_per_second
    +ℤ u)
parse_offset args = none

module _ (apr : Apr) where
  -- One field; a field of another kind than its conversion does not arise.
  unfoldable pub store : Target → Arg → Exploded → Option Exploded
  store year (int v) et = some (record et { tm_year = v -ℤ pos 1900 })
  store mon (int v) et = some (record et { tm_mon = v -ℤ pos 1 })
  store month_name (bytes s) et = do
    v ← month_from_string s apr.month_snames 0
    some (record et { tm_mon = v })
  store mday (int v) et = some (record et { tm_mday = v })
  store hour (int v) et = some (record et { tm_hour = v })
  store min (int v) et = some (record et { tm_min = v })
  store sec (int v) et = some (record et { tm_sec = v })
  store usec (int v) et = some (record et { tm_usec = v })
  store msec (int v) et = some (record et { tm_usec = v *ℤ pos 1000 })
  store gmt (bytes s) et = if strncmp_eq s (codes "GMT") 3 then some et else none
  store zed (bytes s) et = if get_or s 0 0 == b'Z' then some et else none
  store ignored (bytes s) et = some et
  store target arg et = none

  -- All the fields in order; fewer fields than the format has throw.
  unfoldable pub store_all : List Target → List Arg → Exploded → Option Exploded
  store_all [] args et = some et
  store_all (no_usec ∷ ts) args et = store_all ts args (record et { tm_usec = pos 0 })
  store_all (no_sec ∷ ts) args et = store_all ts args (record et { tm_sec = pos 0 })
  store_all (t ∷ ts) [] et = none
  store_all (t ∷ ts) (arg ∷ args) et = do et' ← store t arg et; store_all ts args et'

  -- `now` is the time at which the constructor runs.
  unfoldable pub parse_calendar : ℤ → List ℕ → Format → Zone → Option ℤ
  parse_calendar now str f tz = do
    fields ← targets f
    et ← store_all fields (scan (parse_strings f) str) (explode apr tz now)
    apr.exp_gmt_get et

  unfoldable pub parse : ℤ → List ℕ → Format → Zone → Option ℤ
  parse now str f tz =
      if not (consistent f tz) then none else if length str == 0 then none else by_kind f
    where
      by_kind : Format → Option ℤ
      by_kind sss_mmm = parse_delta sss_mmm (scan (format_strings sss_mmm) str)
      by_kind sss_uuu = parse_delta sss_uuu (scan (format_strings sss_uuu) str)
      by_kind offset = parse_offset (scan (format_strings offset) str)
      by_kind iso_yyyymmdd =
          if length str == 8 then parse_calendar now str iso_yyyymmdd tz else none
      by_kind g = parse_calendar now str g tz
