-- ===== src/Decimal/Tests/Printing.antt =====
-- The theorems about the printing and rounding of code/DecimalDecNumber.cpp at concrete inputs, and
-- runs of its buffer code.
use mlnotes.Base.{
  ℕ, ◌≡◌, refl, true, Option, none, some, List, [], ◌∷◌, ◌++◌, length, take, replicate, arith,
  codes, ◌>>=◌,
}
use mlnotes.Base.Arrays.{std_copy}
use mlnotes.Base.Int.{negsuc, ℤ, pos}
use mlnotes.Decimal.{DecLibrary, copy}
use mlnotes.Decimal.Tests.{integers, number}
use mlnotes.Decimal.Rounding.{round_to_zero, round_away_from_zero, tenth}
use mlnotes.Decimal.Rounding.Places.{
  round, round_text, plain_text, buffer_of, significant_digits, skip_to_nonzero, scale_increment,
}
use mlnotes.Decimal.Rounding.Digits.{round_lem}
use mlnotes.Decimal.Unpack.Scan.{minus_if}
use mlnotes.Decimal.Unpack.{
  write_at, find_byte, atoi_loop, all_zero, replace_text, finish, shift_right, append_zeros,
  move_point, unpack_exponent, unpack_scientific_format,
}
use mlnotes.Decimal.Unpack.Finish.{Printed, signed}
use mlnotes.Decimal.Unpack.Plain.{scientific, plain, unpack_scientific_format-plain}
use mlnotes.Decimal.Print.Components.{to_decimal_components_lem}
use mlnotes.Decimal.Print.{to_decimal_components, to_string}
use mlnotes.Decimal.Print.Text.{shown, to_string-scientific}

-- The text that is left of a text in a buffer of 64 bytes.
abbrev run : List ℕ → ℕ → Option (List ℕ)
run t places =
    unpack_scientific_format (take 64 (t ++ replicate 64 0)) (length t) 64 places
    >>= (λ r. some (take r.1 r.0))

small_number : run (codes "1.23456789E-5") 48 ≡ some (codes "0.0000123456789")
unfolding write_at find_byte atoi_loop all_zero replace_text finish shift_right append_zeros
    move_point unpack_exponent unpack_scientific_format std_copy
small_number = refl

large_number : run (codes "-1.23456789E+15") 48 ≡ some (codes "-1234567890000000.0")
unfolding write_at find_byte atoi_loop all_zero replace_text finish shift_right append_zeros
    move_point unpack_exponent unpack_scientific_format std_copy
large_number = refl

-- The plain form and its terminator are one byte more than the buffer holds.
terminator_outside : run (codes "1E-62") 100 ≡ none
unfolding write_at find_byte atoi_loop all_zero replace_text finish shift_right append_zeros
    move_point unpack_exponent unpack_scientific_format std_copy
terminator_outside = refl

abbrev sample : List ℕ
sample = scientific true b'1' (b'2' ∷ b'5' ∷ []) true (b'5' ∷ [])

unpack_scientific_format-plain_example :
    Printed
      (unpack_scientific_format (sample ++ (0 ∷ replicate 23 0)) 8 32 6)
      (signed (minus_if true) (plain true b'1' (b'2' ∷ b'5' ∷ []) 5 6))
unpack_scientific_format-plain_example =
    unpack_scientific_format-plain true b'1' (b'2' ∷ b'5' ∷ []) true (b'5' ∷ []) (replicate 23 0) 32
      5 6 (omega arith, omega arith) ((omega arith, omega arith), ((omega arith, omega arith), tt))
      ((omega arith, omega arith), tt) refl (omega arith) refl (omega arith)

-- A library that prints every number as -1.25E-5, and reads every text as 7.
abbrev scientific_library : DecLibrary ℤ
scientific_library = record integers { to_text = λ a. sample; from_string = λ c text. (pos 7, c) }

cut_sample :
    round scientific_library (copy scientific_library (number (pos 7))) 6 round_to_zero tenth
    ≡ some (number (pos 7))
unfolding write_at find_byte atoi_loop all_zero replace_text finish shift_right append_zeros
    move_point unpack_exponent unpack_scientific_format std_copy round round_text plain_text
    buffer_of significant_digits skip_to_nonzero scale_increment copy
cut_sample = refl

to_string-scientific_example :
    to_string scientific_library (number (pos 7)) 6 ≡ some (shown true (codes "0") (codes "000012"))
to_string-scientific_example =
    to_string-scientific scientific_library (number (pos 7)) (number (pos 7)) true b'1'
      (b'2' ∷ b'5' ∷ []) true (b'5' ∷ []) 5 6 refl refl refl cut_sample refl
      (record {
        digit = (omega arith, omega arith);
        digits = ((omega arith, omega arith), ((omega arith, omega arith), tt));
        exponent = ((omega arith, omega arith), tt);
        value = refl;
        positive = omega arith;
      })
      (omega arith) (omega arith)

-- A library that prints every number as -0.0051.
abbrev plain_library : DecLibrary ℤ
plain_library = record integers { to_text = λ a. codes "-0.0051" }

round_lem_example :
    round plain_library (number (pos 7)) 1 round_away_from_zero tenth ≡ some (number (pos 0))
round_lem_example =
    round_lem plain_library (number (pos 7)) true b'0' [] 2 b'5' (b'1' ∷ []) 1 round_away_from_zero
      (record {
        digit = (omega arith, omega arith);
        digits = tt;
        nonzero = omega arith;
        decimal = omega arith;
        decimals = ((omega arith, omega arith), tt);
      })
      refl refl (omega arith) (omega arith)

-- A library that prints every number as -42.
abbrev integer_library : DecLibrary ℤ
integer_library = record integers { to_text = λ a. codes "-42" }

to_decimal_components_lem_example :
    to_decimal_components integer_library (number (pos 7)) ≡ some (true, negsuc 41, pos 0)
to_decimal_components_lem_example =
    to_decimal_components_lem integer_library (number (pos 7)) true (b'4' ∷ b'2' ∷ []) refl refl
      refl refl refl ((omega arith, omega arith), ((omega arith, omega arith), tt)) (omega arith)
      (omega arith)
