-- ===== src/Time/Tests.antt =====
-- Runs of code/Time.cpp over a small calendar, and its theorems over it.
use mlnotes.Base.{ℕ, ◌*◌, ◌≡◌, ◌<◌, refl, none, some, List, [], ◌∷◌, arith, codes, ◌∙◌, sym, ap}
use mlnotes.Base.Int.{ℤ, pos, ◌-ℤ◌, ◌*ℤ◌, ◌/ℤ◌}
use mlnotes.Format.{isdigit}
use mlnotes.Time.{offset, yyyymmdd_hhmmssuu, Zone, utc, Exploded, Apr, consistent}
use mlnotes.Time.Text.{
  print, scan, format_strings, decimal, print_int, digits, found_int, scan_int, scan_lit,
  skip_spaces,
}
use mlnotes.Time.Parse.{parse, parse_offset}
use mlnotes.Time.Print.{format, arguments, offset_parts, take_units}
use mlnotes.Time.Roundtrip.Offset.{parse-format_offset}
use mlnotes.Time.Roundtrip.Calendar.{Broken, Inverse, parse-format_numbers}

-- The first second of the epoch: the microseconds are all that a time has.
abbrev first_second : ℤ → Exploded
first_second t = record {
  tm_usec = t;
  tm_sec = pos 0;
  tm_min = pos 0;
  tm_hour = pos 0;
  tm_mday = pos 1;
  tm_mon = pos 0;
  tm_year = pos 70;
  tm_wday = pos 4;
  tm_yday = pos 0;
  tm_isdst = pos 0;
  tm_gmtoff = pos 0;
}

abbrev small_apr : Apr
small_apr = record {
  exp_gmt = first_second;
  exp_lt = first_second;
  exp_tz = λ t offset_secs. some (first_second t);
  exp_gmt_get = λ et. some et.tm_usec;
  month_snames = codes "Jan" ∷ [];
}

abbrev no_name : Zone → List ℕ
no_name tz = codes "GMT"

small_apr-Inverse : Inverse small_apr
small_apr-Inverse = record {
  no_offset = λ t. refl;
  together = λ t et y mo d h mi s u epoch b c. ap some (c.micros ∙ sym b.micros);
}

first_second-Broken : (u : ℕ) → u < 1000000 → Broken (first_second (pos u)) 70 0 1 0 0 0 u
first_second-Broken u h = record {
  in_utc = refl;
  year = refl;
  month = refl;
  day = refl;
  hour = refl;
  minute = refl;
  second = refl;
  micros = refl;
  ranges = (omega arith, omega arith, omega arith, omega arith, omega arith, omega arith, h);
}

-- A hundred days print with three digits, of which two are read.
hundred_days :
    (format small_apr no_name (pos (100 * 86400000000)) offset utc
      ≡ some (codes "100-00:00:00.000000"))
    × (parse small_apr (pos 0) (codes "100-00:00:00.000000") offset utc ≡ none)
unfolding format arguments offset_parts take_units print print_int decimal format_strings consistent
    parse parse_offset scan scan_int scan_lit found_int digits skip_spaces isdigit ◌/ℤ◌ ◌-ℤ◌ ◌*ℤ◌
hundred_days = (refl, refl)

parse-format_offset_example :
    (out : List ℕ) × (format small_apr no_name (pos 93784000005) offset utc ≡ some out)
    × (parse small_apr (pos 0) out offset utc ≡ some (pos 93784000005))
parse-format_offset_example =
    parse-format_offset small_apr no_name (pos 0) 93784000005 utc (omega arith)

parse-format_numbers_example :
    (out : List ℕ) × (format small_apr no_name (pos 25) yyyymmdd_hhmmssuu utc ≡ some out)
    × (parse small_apr (pos 7) out yyyymmdd_hhmmssuu utc ≡ some (pos 25))
parse-format_numbers_example =
    parse-format_numbers small_apr no_name (pos 7) (pos 25) 70 0 1 0 0 0 25 small_apr-Inverse
      (omega arith) (first_second-Broken 25 (omega arith))
