-- ===== src/Time/Roundtrip/Dates.antt =====
-- The formats of code/Time.cpp that name a date alone: what time of day a parse of them gives.
use mlnotes.Base.{
  ℕ, ◌+◌, ◌≤◌, ◌<◌, ◌≡◌, refl, Option, some, List, [], ◌∷◌, arith, length, take, take_all, ◌>>=◌,
  ap, ◌∙◌, length-append,
}
use mlnotes.Base.Int.{ℤ, pos, ◌-ℤ◌}
use mlnotes.Time.{iso_yyyymmdd, Zone, utc, Exploded, Apr, consistent}
use mlnotes.Time.Text.{Arg, int, print, scan, format_strings, parse_strings}
use mlnotes.Time.Parse.{
  targets, date_time_targets, partial_targets, store, store_all, parse_calendar, parse,
}
use mlnotes.Time.Print.{format, arguments, calendar_arguments, number_arguments}
use mlnotes.Time.Digits.{length-print_int}
use mlnotes.Time.Roundtrip.{Fits, done, number, scan-print}
use mlnotes.Time.Roundtrip.Calendar.{Broken, Inverse, sum}

abbrev date_numbers : ℕ → ℕ → ℕ → List Arg
date_numbers y mo d = int (pos (1900 + y)) ∷ int (pos (mo + 1)) ∷ int (pos d) ∷ []

module _ (y mo d : ℕ) (hy : 1900 + y < 10000) (hmo : mo < 12) (hd : d < 32) where
  date_numbers-Fits : Fits (format_strings iso_yyyymmdd) (date_numbers y mo d)
  unfolding format_strings
  date_numbers-Fits =
      number (omega arith) hy
        (number (omega arith) (omega arith) (number (omega arith) (omega arith) done))

  length-date_numbers : length (print (format_strings iso_yyyymmdd) (date_numbers y mo d)) ≡ 8
  unfolding format_strings print
  length-date_numbers =
      simp
        (
          length-append,
          length-print_int 3 (1900 + y) (omega arith) hy,
          length-print_int 1 (mo + 1) (omega arith) (omega arith),
          length-print_int 1 d (omega arith) (omega arith),
        )
        (omega arith)

module _ (apr : Apr) (zone_name : Zone → List ℕ) where
  format-date :
      (t : ℤ) (y mo d h mi s u : ℕ)
      → Broken (apr.exp_gmt t) y mo d h mi s u
      → format apr zone_name t iso_yyyymmdd utc
        ≡ some (take 511 (print (format_strings iso_yyyymmdd) (date_numbers y mo d)))
  unfolding format arguments consistent
  format-date t y mo d h mi s u b =
      ap (λ r. r >>= (λ a. some (take 511 (print (format_strings iso_yyyymmdd) a)))) chosen
    where
      fields : number_arguments iso_yyyymmdd (apr.exp_gmt t) ≡ some (date_numbers y mo d)
      fields =
          unfold number_arguments in
          rw (b.year, b.month, b.day, sum y mo d h mi s u 1900 y, sum y mo d h mi s u mo 1) refl

      chosen : calendar_arguments apr zone_name t iso_yyyymmdd utc ≡ some (date_numbers y mo d)
      chosen = unfold calendar_arguments in rw (fields, calendar_arguments)

  parse-eq-parse_calendar :
      (now : ℤ) (out : List ℕ)
      → length out ≡ 8
      → parse apr now out iso_yyyymmdd utc ≡ parse_calendar apr now out iso_yyyymmdd utc
  unfolding parse consistent
  parse-eq-parse_calendar now out h = ground arith

  abbrev convert : ℤ → List Arg → Option ℤ
  convert now args =
      targets iso_yyyymmdd
      >>= (λ fields. store_all apr fields args (apr.exp_gmt now))
      >>= apr.exp_gmt_get

  parse_calendar-eq-convert :
      (now : ℤ) (out : List ℕ)
      → parse_calendar apr now out iso_yyyymmdd utc
        ≡ convert now (scan (format_strings iso_yyyymmdd) out)
  unfolding parse_calendar parse_strings targets date_time_targets partial_targets
  parse_calendar-eq-convert now out = refl

  stored-date :
      (now : ℤ) (y mo d y' mo' d' h mi s u : ℕ)
      → 1900 + y < 10000
      → mo < 12
      → d < 32
      → Broken (apr.exp_gmt now) y' mo' d' h mi s u
      → (et : Exploded) × (convert now (date_numbers y mo d) ≡ apr.exp_gmt_get et)
        × Broken et y mo d h mi s u
  unfolding targets date_time_targets partial_targets store_all store
  stored-date now y mo d y' mo' d' h mi s u hy hmo hd b =
      let (_, _, _, rh, rmi, rs, ru) = b.ranges in
      (
        _,
        refl,
        record {
          in_utc = b.in_utc;
          year = unfold ◌-ℤ◌ in ground arith;
          month = unfold ◌-ℤ◌ in ground arith;
          day = refl;
          hour = b.hour;
          minute = b.minute;
          second = b.second;
          micros = b.micros;
          ranges = (hy, hmo, hd, rh, rmi, rs, ru);
        },
      )

  -- Over a calendar that puts together what it took apart, the date of a time, printed without
  -- dashes and parsed again, gives the time of that date at the present time of day: `found` is any
  -- time with that date and that time of day.
  pub parse-format_date :
      (now t found : ℤ) (y mo d h mi s u y' mo' d' h' mi' s' u' : ℕ)
      → Inverse apr
      → 70 ≤ y
      → Broken (apr.exp_gmt t) y mo d h mi s u
      → Broken (apr.exp_gmt now) y' mo' d' h' mi' s' u'
      → Broken (apr.exp_gmt found) y mo d h' mi' s' u'
      → (out : List ℕ) × (format apr zone_name t iso_yyyymmdd utc ≡ some out)
        × (parse apr now out iso_yyyymmdd utc ≡ some found)
  parse-format_date now t found y mo d h mi s u y' mo' d' h' mi' s' u' inverse epoch b bn bf =
      let (ry, rmo, rd, _, _, _, _) = b.ranges in
      let args = date_numbers y mo d in
      let out = print (format_strings iso_yyyymmdd) args in
      let len = length-date_numbers y mo d ry rmo rd in
      let (et, stored, b') = stored-date now y mo d y' mo' d' h' mi' s' u' ry rmo rd bn in
      (
        out,
        format-date t y mo d h mi s u b ∙ ap some (take_all 511 out (omega arith)),
        parse-eq-parse_calendar now out len
            ∙ parse_calendar-eq-convert now out
            ∙ ap (convert now) (scan-print (date_numbers-Fits y mo d ry rmo rd))
            ∙ stored
            ∙ inverse.together found et y mo d h' mi' s' u' epoch bf b',
      )
