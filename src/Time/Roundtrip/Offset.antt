-- ===== src/Time/Roundtrip/Offset.antt =====
-- The format OFFSET of code/Time.cpp: a time as days, hours, minutes, seconds and microseconds.
use mlnotes.Base.{
  ℕ, ◌+◌, ◌*◌, ◌/◌, ◌%◌, ◌<◌, ◌≡◌, refl, some, List, arith, length, take, take_all, ap, sym, ◌∙◌,
  length-append,
}
use mlnotes.Base.Int.{ℤ, pos, ◌+ℤ◌, ◌-ℤ◌, ◌*ℤ◌, ◌/ℤ◌}
use mlnotes.Time.{offset, Zone, Apr, consistent}
use mlnotes.Time.Text.{print, scan, format_strings}
use mlnotes.Time.Parse.{parse, parse_offset}
use mlnotes.Time.Print.{format, arguments, take_units, offset_parts, offset_arguments}
use mlnotes.Time.Digits.{length-print_int}
use mlnotes.Time.Roundtrip.{Fits, done, literal, number, scan-print}

product : (q b : ℕ) → pos q *ℤ pos b ≡ pos (q * b)
unfolding ◌*ℤ◌
product q b = ground arith

sum : (a b : ℕ) → pos a +ℤ pos b ≡ pos (a + b)
unfolding ◌+ℤ◌
sum a b = ground arith

take_off : (a q b r : ℕ) → a ≡ q * b + r → pos a -ℤ pos q *ℤ pos b ≡ pos r
take_off a q b r h = rw (product q b) (rest (q * b) h)
  where
    rest : (m : ℕ) → a ≡ m + r → pos a -ℤ pos m ≡ pos r
    rest m e = unfold ◌-ℤ◌ in ground arith

-- The parts of a time, and what they sum up to.
pub record Parts (t d h m s u : ℕ) : Type 0 where
  pub total : t ≡ d * 86400000000 + h * 3600000000 + m * 60000000 + s * 1000000 + u
  pub hour : h < 24
  pub minute : m < 60
  pub second : s < 60
  pub micros : u < 1000000

take_units-pos :
    (b t q r : ℕ) → t / b ≡ q → t ≡ q * b + r → take_units (pos b) (pos t) ≡ (pos q, pos r)
unfolding take_units ◌/ℤ◌
take_units-pos b t q r e h = rw (e, take_off t q b r h) refl

offset_parts_of :
    (t d h m s u : ℕ)
    → Parts t d h m s u
    → offset_parts (pos t) ≡ (pos d, pos h, pos m, pos s, pos u)
unfolding offset_parts
offset_parts_of t d h m s u p =
    let a = h * 3600000000 + m * 60000000 + s * 1000000 + u in
    let b = m * 60000000 + s * 1000000 + u in
    let c = s * 1000000 + u in
    rw
      (
        take_units-pos 86400000000 t d a
            (omega (arith, p.total, p.hour, p.minute, p.second, p.micros)) (omega (arith, p.total)),
        take_units-pos 3600000000 a h b (omega (arith, p.minute, p.second, p.micros)) (omega arith),
        take_units-pos 60000000 b m c (omega (arith, p.second, p.micros)) (omega arith),
        take_units-pos 1000000 c s u (omega (arith, p.micros)) (omega arith),
      )
      refl

split_total :
    (t : ℕ)
    → (d : ℕ) × (h : ℕ) × (m : ℕ) × (s : ℕ) × (u : ℕ) × (d ≡ t / 86400000000) × Parts t d h m s u
split_total t =
    let a = t % 86400000000 in
    let b = a % 3600000000 in
    let c = b % 60000000 in
    (
      t / 86400000000,
      a / 3600000000,
      b / 60000000,
      c / 1000000,
      c % 1000000,
      refl,
      record {
        total = omega arith;
        hour = omega arith;
        minute = omega arith;
        second = omega arith;
        micros = omega arith;
      },
    )

-- The five numbers add up to the time again.
parse_offset_of :
    (t d h m s u : ℕ)
    → Parts t d h m s u
    → parse_offset (offset_arguments (pos d, pos h, pos m, pos s, pos u)) ≡ some (pos t)
unfolding parse_offset
parse_offset_of t d h m s u p =
    rw
      (
        product d 86400000000,
        product h 3600000000,
        product m 60000000,
        product s 1000000,
        sum (d * 86400000000) (h * 3600000000),
        sum (d * 86400000000 + h * 3600000000) (m * 60000000),
        sum (d * 86400000000 + h * 3600000000 + m * 60000000) (s * 1000000),
        sum (d * 86400000000 + h * 3600000000 + m * 60000000 + s * 1000000) u,
      )
      (ap (λ n. some (pos n)) (sym p.total))

-- Below a hundred days the five numbers fit the format.
offset-Fits :
    (t d h m s u : ℕ)
    → Parts t d h m s u
    → d < 100
    → Fits (format_strings offset) (offset_arguments (pos d, pos h, pos m, pos s, pos u))
unfolding format_strings
offset-Fits t d h m s u p small = number (omega arith) small (
    literal (ground arith) (
      number (omega arith) (omega (arith, p.hour)) (
        literal (ground arith) (
          number (omega arith) (omega (arith, p.minute)) (
            literal (ground arith) (
              number (omega arith) (omega (arith, p.second))
                (literal (ground arith) (number (omega arith) p.micros done))))))))

-- The text has eighteen bytes, as the format has.
length-offset :
    (t d h m s u : ℕ)
    → Parts t d h m s u
    → d < 100
    → length (print (format_strings offset) (offset_arguments (pos d, pos h, pos m, pos s, pos u)))
      ≡ 18
unfolding format_strings print
length-offset t d h m s u p small =
    simp
      (
        length-append,
        length-print_int 1 d (omega arith) small,
        length-print_int 1 h (omega arith) (omega (arith, p.hour)),
        length-print_int 1 m (omega arith) (omega (arith, p.minute)),
        length-print_int 1 s (omega arith) (omega (arith, p.second)),
        length-print_int 5 u (omega arith) p.micros,
      )
      (omega arith)

module _ (apr : Apr) (zone_name : Zone → List ℕ) where
  format-offset :
      (t : ℤ) (tz : Zone)
      → format apr zone_name t offset tz
        ≡ some (take 511 (print (format_strings offset) (offset_arguments (offset_parts t))))
  unfolding format arguments consistent
  format-offset t tz = refl

  parse-offset :
      (now : ℤ) (out : List ℕ) (tz : Zone)
      → length out ≡ 18
      → parse apr now out offset tz ≡ parse_offset (scan (format_strings offset) out)
  unfolding parse consistent
  parse-offset now out tz h = ground arith

  -- A time of fewer than a hundred days, printed as an offset in a time zone, is a text that parses
  -- in it as that time, whatever the present time and the calendar.
  pub parse-format_offset :
      (now : ℤ) (t : ℕ) (tz : Zone)
      → t < 100 * 86400000000
      → (out : List ℕ) × (format apr zone_name (pos t) offset tz ≡ some out)
        × (parse apr now out offset tz ≡ some (pos t))
  parse-format_offset now t tz few =
      let (d, h, m, s, u, e, p) = split_total t in
      let small : d < 100 = omega arith in
      let parts = offset_parts_of t d h m s u p in
      let args = offset_arguments (pos d, pos h, pos m, pos s, pos u) in
      let out = print (format_strings offset) args in
      let len : length out ≡ 18 = length-offset t d h m s u p small in
      (
        out,
        format-offset (pos t) tz
            ∙ ap (λ v. some (take 511 (print (format_strings offset) (offset_arguments v)))) parts
            ∙ ap some (take_all 511 out (omega arith)),
        parse-offset now out tz len
            ∙ ap parse_offset (scan-print (offset-Fits t d h m s u p small))
            ∙ parse_offset_of t d h m s u p,
      )
