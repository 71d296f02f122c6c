-- ===== src/Time.antt =====
-- code/Time.hpp and code/Time.cpp: times as microseconds since the epoch. An int64 is its exact value:
-- where the source overflows it, its behaviour is undefined. The calendar is that of the Apache
-- Portable Runtime, a parameter.
pub mod Text
pub mod Digits
pub mod Parse
pub mod Print
pub mod Roundtrip
pub mod Arith
mod Tests
use mlnotes.Base.{
  ℕ, ◌*◌, ◌||◌, ◌&&◌, not, Bool, true, false, Option, none, some, List, if◌then◌else◌,
}
use mlnotes.Base.Int.{ℤ, pos}

pub data Format : Type 0 where
  yyyymmmdd_hhmmssuu : Format
  yyyymmdd_hhmmssuu : Format
  yyyymmdd_hhmmssmm : Format
  yyyymmmdd_hhmmss : Format
  yyyymmdd_hhmmss : Format
  ddmmmyyyy_hhmmss : Format
  yyyymmmdd : Format
  yyyymmdd : Format
  ddmmyyyy : Format
  hhmmssuu : Format
  hhmmssmm : Format
  hhmmss : Format
  sss_mmm : Format
  sss_uuu : Format
  iso_yyyymmdd : Format
  iso_yyyymmddhhmmss : Format
  mmddyyyy_hhmmssmm : Format
  offset : Format
  rfc_822 : Format
  ddmmmyyyy : Format
  yyyymmddthhmmss : Format
  iso_yyyymmddthhmmss : Format
  iso_8601_sec_utc : Format
  iso_8601_msec_utc : Format
  iso_8601_usec_utc : Format
  yyyymmdd_hhmmssmm_withdash : Format
  hhmm : Format
  ddmmmyyyy_hhmmss_nodash : Format
  ddmmmyyyy_hhmmss_tz_nodash : Format

pub data Precision : Type 0 where
  prec_seconds : Precision
  prec_milliseconds : Precision
  prec_microseconds : Precision

pub data Zone : Type 0 where
  utc : Zone
  local : Zone

pub data TimeUnit : Type 0 where
  seconds : TimeUnit
  minutes : TimeUnit
  hours : TimeUnit
  days : TimeUnit
  weeks : TimeUnit

-- `DEFAULT`
abbrev pub default_format : Format
default_format = yyyymmmdd_hhmmssuu

-- The constants; APR_USEC_PER_SEC is a million.
abbrev pub usecs_per_second : ℤ
usecs_per_second = pos 1000000

abbrev pub usecs_per_millisecond : ℤ
usecs_per_millisecond = pos 1000

abbrev pub usecs_per_minute : ℤ
usecs_per_minute = pos (60 * 1000000)

abbrev pub usecs_per_hour : ℤ
usecs_per_hour = pos (60 * 60 * 1000000)

abbrev pub usecs_per_day : ℤ
usecs_per_day = pos (24 * 60 * 60 * 1000000)

-- `apr_time_exp_t`; `tm_gmtoff` is the offset of its zone in seconds.
pub record Exploded : Type 0 where
  pub tm_usec : ℤ
  pub tm_sec : ℤ
  pub tm_min : ℤ
  pub tm_hour : ℤ
  pub tm_mday : ℤ
  pub tm_mon : ℤ
  pub tm_year : ℤ
  pub tm_wday : ℤ
  pub tm_yday : ℤ
  pub tm_isdst : ℤ
  pub tm_gmtoff : ℤ

-- The calls of the Apache Portable Runtime; `none` is a status other than APR_SUCCESS.
pub record Apr : Type 0 where
  pub exp_gmt : ℤ → Exploded
  pub exp_lt : ℤ → Exploded
  pub exp_tz : ℤ → ℤ → Option Exploded
  pub exp_gmt_get : Exploded → Option ℤ
  pub month_snames : List (List ℕ)

-- What `apr_time_exp_gmt` or `apr_time_exp_lt` leaves in `et`.
abbrev pub explode : Apr → Zone → ℤ → Exploded
explode apr local time = apr.exp_lt time
explode apr utc time = apr.exp_gmt time

-- `f == ISO_8601_SEC_UTC || f == ISO_8601_MSEC_UTC || f == ISO_8601_USEC_UTC`
abbrev pub is_utc_format : Format → Bool
is_utc_format iso_8601_sec_utc = true
is_utc_format iso_8601_msec_utc = true
is_utc_format iso_8601_usec_utc = true
is_utc_format f = false

abbrev pub is_utc : Zone → Bool
is_utc utc = true
is_utc local = false

-- Whether `checkTimezoneFormatConsistency` does not throw.
unfoldable pub consistent : Format → Zone → Bool
consistent f tz = not (is_utc_format f && not (is_utc tz))
