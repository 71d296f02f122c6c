-- ===== src/Time/Roundtrip/Calendar.antt =====
-- The formats of code/Time.cpp that print all of a date and a time in numbers.
use mlnotes.Base.{
  ℕ, ◌+◌, ◌≤◌, ◌<◌, ◌≡◌, refl, Option, some, List, [], ◌∷◌, arith, length, take, take_all, ◌>>=◌,
  ap, ◌∙◌, length-append,
}
use mlnotes.Base.Int.{ℤ, pos, ◌+ℤ◌, ◌-ℤ◌}
use mlnotes.Time.{yyyymmdd_hhmmssuu, Zone, utc, Exploded, Apr, consistent}
use mlnotes.Time.Text.{Arg, int, print, scan, format_strings, parse_strings}
use mlnotes.Time.Parse.{targets, date_time_targets, store, store_all, parse_calendar, parse}
use mlnotes.Time.Print.{format, arguments, calendar_arguments, number_arguments}
use mlnotes.Time.Digits.{length-print_int, skip_spaces-Front, print_int-Front}
use mlnotes.Time.Roundtrip.{Fits, done, literal, space, number, scan-print}

-- The date and the time of day of an exploded time of UTC, within their ranges.
pub record Broken (et : Exploded) (y mo d h mi s u : ℕ) : Type 0 where
  pub in_utc : et.tm_gmtoff ≡ pos 0
  pub year : et.tm_year ≡ pos y
  pub month : et.tm_mon ≡ pos mo
  pub day : et.tm_mday ≡ pos d
  pub hour : et.tm_hour ≡ pos h
  pub minute : et.tm_min ≡ pos mi
  pub second : et.tm_sec ≡ pos s
  pub micros : et.tm_usec ≡ pos u
  pub ranges :
      (1900 + y < 10000) × (mo < 12) × (d < 32) × (h < 24) × (mi < 60) × (s < 62) × (u < 1000000)

-- What the calendar documents: a time taken apart in UTC has no offset, and putting an exploded time
-- together again looks at its date, its time of day and its offset, and undoes taking it apart; years
-- before 1970 are refused.
pub record Inverse (apr : Apr) : Type 0 where
  pub no_offset : (t : ℤ) → (apr.exp_gmt t).tm_gmtoff ≡ pos 0
  pub together :
      (t : ℤ) (et : Exploded) (y mo d h mi s u : ℕ)
      → 70 ≤ y
      → Broken (apr.exp_gmt t) y mo d h mi s u
      → Broken et y mo d h mi s u
      → apr.exp_gmt_get et ≡ some t

module _ (y mo d h mi s u : ℕ) where
  abbrev numbers : List Arg
  numbers =
      int (pos (1900 + y))
      ∷ int (pos (mo + 1))
      ∷ int (pos d)
      ∷ int (pos h)
      ∷ int (pos mi)
      ∷ int (pos s)
      ∷ int (pos u)
      ∷ []

  numbers-Fits :
      {et : Exploded} → Broken et y mo d h mi s u → Fits (format_strings yyyymmdd_hhmmssuu) numbers
  unfolding format_strings print
  numbers-Fits b =
      let (ry, rmo, rd, rh, rmi, rs, ru) = b.ranges in
      number (omega arith) ry (
        literal (ground arith) (
          number (omega arith) (omega arith) (
            literal (ground arith) (
              number (omega arith) (omega arith) (
                space (skip_spaces-Front _ (print_int-Front 1 h _)) (
                  number (omega arith) (omega arith) (
                    literal (ground arith) (
                      number (omega arith) (omega arith) (
                        literal (ground arith) (
                          number (omega arith) (omega arith)
                            (literal (ground arith) (number (omega arith) ru done))))))))))))

  length-numbers :
      {et : Exploded}
      → Broken et y mo d h mi s u
      → length (print (format_strings yyyymmdd_hhmmssuu) numbers) ≡ 26
  unfolding format_strings print
  length-numbers b =
      let (ry, rmo, rd, rh, rmi, rs, ru) = b.ranges in
      simp
        (
          length-append,
          length-print_int 3 (1900 + y) (omega arith) ry,
          length-print_int 1 (mo + 1) (omega arith) (omega arith),
          length-print_int 1 d (omega arith) (omega arith),
          length-print_int 1 h (omega arith) (omega arith),
          length-print_int 1 mi (omega arith) (omega arith),
          length-print_int 1 s (omega arith) (omega arith),
          length-print_int 5 u (omega arith) ru,
        )
        (omega arith)

  pub sum : (a b : ℕ) → pos a +ℤ pos b ≡ pos (a + b)
  unfolding ◌+ℤ◌
  sum a b = ground arith

  -- The fields that are printed.
  number_arguments-numbers :
      (et : Exploded)
      → Broken et y mo d h mi s u
      → number_arguments yyyymmdd_hhmmssuu et ≡ some numbers
  unfolding number_arguments
  number_arguments-numbers et b =
      rw (b.year, b.month, b.day, b.hour, b.minute, b.second, b.micros, sum 1900 y, sum mo 1) refl

  -- The fields that are stored.
  store_all-numbers :
      (apr : Apr) (now et : Exploded)
      → now.tm_gmtoff ≡ pos 0
      → Broken et y mo d h mi s u
      → (out : Exploded) × (targets yyyymmdd_hhmmssuu
            >>= (λ fields. store_all apr fields numbers now)
          ≡ some out)
        × Broken out y mo d h mi s u
  unfolding targets date_time_targets store_all store
  store_all-numbers apr now et zone b = (
    _,
    refl,
    record {
      in_utc = zone;
      year = unfold ◌-ℤ◌ in ground arith;
      month = unfold ◌-ℤ◌ in ground arith;
      day = refl;
      hour = refl;
      minute = refl;
      second = refl;
      micros = refl;
      ranges = b.ranges;
    },
  )

module _ (apr : Apr) (zone_name : Zone → List ℕ) where
  format-numbers :
      (t : ℤ) (args : List Arg)
      → number_arguments yyyymmdd_hhmmssuu (apr.exp_gmt t) ≡ some args
      → format apr zone_name t yyyymmdd_hhmmssuu utc
        ≡ some (take 511 (print (format_strings yyyymmdd_hhmmssuu) args))
  unfolding format arguments consistent
  format-numbers t args e =
      ap (λ r. r >>= (λ a. some (take 511 (print (format_strings yyyymmdd_hhmmssuu) a)))) chosen
    where
      chosen : calendar_arguments apr zone_name t yyyymmdd_hhmmssuu utc ≡ some args
      chosen = unfold calendar_arguments in rw (e, calendar_arguments)

  parse-eq-parse_calendar :
      (now : ℤ) (out : List ℕ)
      → length out ≡ 26
      → parse apr now out yyyymmdd_hhmmssuu utc ≡ parse_calendar apr now out yyyymmdd_hhmmssuu utc
  unfolding parse consistent
  parse-eq-parse_calendar now out h = ground arith

  -- What a parse does with the fields that were scanned.
  abbrev convert : ℤ → List Arg → Option ℤ
  convert now args =
      targets yyyymmdd_hhmmssuu
      >>= (λ fields. store_all apr fields args (apr.exp_gmt now))
      >>= apr.exp_gmt_get

  parse_calendar-eq-convert :
      (now : ℤ) (out : List ℕ)
      → parse_calendar apr now out yyyymmdd_hhmmssuu utc
        ≡ convert now (scan (format_strings yyyymmdd_hhmmssuu) out)
  unfolding parse_calendar parse_strings targets date_time_targets
  parse_calendar-eq-convert now out = refl

  -- Over a calendar that puts together what it took apart, a time whose date and time of day in UTC
  -- are in their ranges, with a year of four digits from 1970 on, prints in the format of numbers to the
  -- microsecond as a text that parses in it as that time, whatever the present time.
  pub parse-format_numbers :
      (now t : ℤ) (y mo d h mi s u : ℕ)
      → Inverse apr
      → 70 ≤ y
      → Broken (apr.exp_gmt t) y mo d h mi s u
      → (out : List ℕ) × (format apr zone_name t yyyymmdd_hhmmssuu utc ≡ some out)
        × (parse apr now out yyyymmdd_hhmmssuu utc ≡ some t)
  parse-format_numbers now t y mo d h mi s u inverse epoch b =
      let args = numbers y mo d h mi s u in
      let out = print (format_strings yyyymmdd_hhmmssuu) args in
      let len = length-numbers y mo d h mi s u b in
      let (et, stored, b') =
        store_all-numbers y mo d h mi s u apr (apr.exp_gmt now) (apr.exp_gmt t)
          (inverse.no_offset now) b in
      (
        out,
        format-numbers t args (number_arguments-numbers y mo d h mi s u (apr.exp_gmt t) b)
            ∙ ap some (take_all 511 out (omega arith)),
        parse-eq-parse_calendar now out len
            ∙ parse_calendar-eq-convert now out
            ∙ ap (convert now) (scan-print (numbers-Fits y mo d h mi s u b))
            ∙ ap (λ r. r >>= apr.exp_gmt_get) stored
            ∙ inverse.together t et y mo d h mi s u epoch b b',
      )
