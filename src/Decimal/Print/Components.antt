-- ===== src/Decimal/Print/Components.antt =====
-- `toDecimalComponents` of code/DecimalDecNumber.cpp, for numbers that the library, once it has scaled
-- them to the exponent 0, prints as digits without a point.
use mlnotes.Base.{
  ℕ, suc, ◌+◌, ◌-◌, ◌*◌, ◌^◌, ◌≤◌, ◌<◌, ◌≡◌, refl, ◌⊎◌, inl, inr, Bool, true, false, some, List, [],
  ◌∷◌, ◌++◌, length, take, drop, replicate, ltb, leb, ◌==◌, if◌then◌else◌, c_text, codes, arith,
  All, sym, ap, ◌∙◌, append_assoc, drop-eq-nil, append-nil, subst,
}
use native.Mathlib.Nat.{mul_assoc, pow-le-pow_right}
use mlnotes.Base.Int.{ℤ, pos, neg_ℕ, ◌-ℤ◌}
use mlnotes.Decimal.{DecContext, DecLibrary, DecimalDecNumber, is_infinity, copy, store}
use mlnotes.Decimal.Text.{IsDigit, read_digits, pow_suc}
use mlnotes.Decimal.Rounding.{round_to_zero, tenth}
use mlnotes.Decimal.Rounding.Places.{
  round, round_text, plain_text, buffer_of, scale_increment, skip_to_nonzero,
}
use mlnotes.Decimal.Rounding.Digits.{
  Absent, find_byte_none, digits-Absent, Absent-append, minus-Absent,
}
use mlnotes.Decimal.Unpack.{find_byte, is_digit, atoi_loop, unpack_scientific_format, write_at}
use mlnotes.Decimal.Unpack.Layout.{take-append, write_at_lem}
use mlnotes.Decimal.Unpack.Scan.{minus_if, is_digit_lem, digit_no_minus}
use mlnotes.Decimal.Print.{
  finish_text, to_string, cut_text, to_decimal_components, scanned, store_int64, scan_integer,
  equal_text,
}
use mlnotes.Decimal.Print.Shown.{not_nan, and_false, Shown, text-Shown, zero_digit}
use mlnotes.Decimal.Print.Strip.{c_text-append}
use mlnotes.Decimal.Print.Text.{buffer_lem}

abbrev pub integer_text : Bool → List ℕ → List ℕ
integer_text minus w = minus_if minus ++ w

integer-Absent :
    (b : ℕ) (minus : Bool) (w : List ℕ)
    → (b'-' == b) ≡ false
    → (b < b'0') ⊎ (b'9' < b)
    → All IsDigit w
    → Absent b (integer_text minus w)
integer-Absent b minus w h other digits =
    Absent-append b (minus_if minus) w (minus-Absent b minus h) (digits-Absent b w other digits)

-- `atoi` of digits in front of a point.
atoi_point :
    (w rest : List ℕ) (acc : ℕ)
    → All IsDigit w
    → atoi_loop acc (w ++ (b'.' ∷ rest)) ≡ read_digits w acc
unfolding atoi_loop
atoi_point [] rest acc digits = refl
atoi_point (c ∷ cs) rest acc digits =
    let digit : is_digit c ≡ true = is_digit_lem c digits.0 in
    rw digit (atoi_point cs rest (acc * 10 + (c - b'0')) digits.1)

-- The number that a text stands for.
abbrev pub number_of : Bool → List ℕ → ℤ
number_of minus w = if minus then neg_ℕ (read_digits w 0) else pos (read_digits w 0)

-- The bound that the number of digits gives.
read_digits_bound :
    (w : List ℕ) (acc k : ℕ) → All IsDigit w → acc < k → read_digits w acc < k * 10 ^ length w
read_digits_bound [] acc k digits small = omega arith
read_digits_bound (c ∷ cs) acc k digits small =
    let ih : read_digits cs (acc * 10 + (c - b'0')) < k * 10 * 10 ^ length cs =
      read_digits_bound cs (acc * 10 + (c - b'0')) (k * 10) digits.1
        (omega (arith, digits.0.0, digits.0.1)) in
    subst (λ n. read_digits cs (acc * 10 + (c - b'0')) < n)
      (mul_assoc k 10 (10 ^ length cs) ∙ ap (λ n. k * n) (sym (pow_suc (length cs)))) ih

eighteen_digits :
    (w : List ℕ) → All IsDigit w → length w ≤ 18 → read_digits w 0 < 1000000000000000000
eighteen_digits w digits short =
    let bound : read_digits w 0 < 1 * 10 ^ length w =
      read_digits_bound w 0 1 digits (omega arith) in
    let small : 10 ^ length w ≤ 10 ^ 18 =
      pow-le-pow_right {n = 10} (omega arith) {i = length w} {j = 18} short in
    omega arith

store_lem :
    (minus : Bool) (n : ℕ)
    → n < 1000000000000000000
    → store_int64 minus n ≡ scanned (if minus then neg_ℕ n else pos n)
unfolding store_int64
store_lem true n h = let fits : leb n (2 ^ 63) ≡ true = ground arith in rw fits refl
store_lem false n h = let fits : leb n (2 ^ 63 - 1) ≡ true = ground arith in rw fits refl

scan_lem :
    (minus : Bool) (w rest : List ℕ)
    → All IsDigit w
    → 0 < length w
    → length w ≤ 18
    → scan_integer (integer_text minus w ++ (b'.' ∷ rest)) ≡ scanned (number_of minus w)
unfolding scan_integer
scan_lem minus [] rest digits some_digit short = absurd (omega arith)
scan_lem true (c ∷ cs) rest digits some_digit short =
    let digit : is_digit c ≡ true = is_digit_lem c digits.0 in
    rw digit (
      ap (store_int64 true) (atoi_point (c ∷ cs) rest 0 digits)
      ∙ store_lem true _ (eighteen_digits (c ∷ cs) digits short))
scan_lem false (c ∷ cs) rest digits some_digit short =
    let digit : is_digit c ≡ true = is_digit_lem c digits.0 in
    let plus = digit_no_minus c digits.0 in
    rw (plus, digit)
      (ap (store_int64 false) (atoi_point (c ∷ cs) rest 0 digits)
        ∙ store_lem false _ (eighteen_digits (c ∷ cs) digits short))

length-integer_text : (minus : Bool) (w : List ℕ) → length (integer_text minus w) ≤ 1 + length w
length-integer_text true w = omega arith
length-integer_text false w = omega arith

finish_integer :
    (minus : Bool) (w tail : List ℕ) (y z : ℕ)
    → All IsDigit w
    → 0 < length w
    → let text = integer_text minus w in
      finish_text (text ++ (0 ∷ y ∷ z ∷ tail)) (length text) ≡ some (text ++ codes ".0")
unfolding finish_text
finish_integer minus w tail y z digits some_digit =
    let text = integer_text minus w in
    let end = 0 ∷ y ∷ z ∷ tail in
    let number : equal_text (c_text (text ++ end)) (codes "NaN") ≡ false =
      ap (λ l. equal_text (c_text ((minus_if minus ++ l) ++ end)) (codes "NaN"))
        (sym (append-nil w))
      ∙ not_nan minus w [] end digits some_digit in
    let no_point : find_byte b'.' (take (length text) (text ++ end)) ≡ length text =
      ap (find_byte b'.') (take-append text end)
      ∙ find_byte_none b'.' text (integer-Absent b'.' minus w refl (inl (omega arith)) digits) in
    let all : (length text == length text) ≡ true = ground arith in
    let written : write_at (text ++ end) (length text) (codes ".0" ++ (0 ∷ []))
        ≡ some ((text ++ codes ".0") ++ (0 ∷ tail)) =
      write_at_lem text (0 ∷ y ∷ z ∷ []) (codes ".0" ++ (0 ∷ [])) tail (length text) refl refl
      ∙ ap some (sym (append_assoc text (codes ".0") (0 ∷ tail))) in
    let shown : All Shown (text ++ codes ".0") =
      subst (All Shown) (sym (append_assoc (minus_if minus) w (codes ".0")))
        (text-Shown minus w (b'0' ∷ []) digits (zero_digit, tt)) in
    rw (number, and_false (length text == 3), no_point, all, written)
      (ap some (c_text-append (text ++ codes ".0") tail shown))

module _ {N : Type 0} (lib : DecLibrary N) where
  -- A number that is printed as an integer is not rounded.
  round_integer :
      (number : DecimalDecNumber N) (minus : Bool) (w : List ℕ) (places : ℕ)
      → All IsDigit w
      → lib.is_zero number.value ≡ false
      → lib.to_text number.value ≡ integer_text minus w
      → length (integer_text minus w) < 253
      → round lib number places round_to_zero tenth ≡ some number
  unfolding round round_text plain_text scale_increment skip_to_nonzero
  round_integer number minus w places digits nonzero printed short =
      let text = integer_text minus w in
      let (rest, filled, size) = buffer_lem text (omega arith) in
      let no_exponent : find_byte b'E' text ≡ length text =
        find_byte_none b'E' text (integer-Absent b'E' minus w refl (inr (omega arith)) digits) in
      let no_point : find_byte b'.' text ≡ length text =
        find_byte_none b'.' text (integer-Absent b'.' minus w refl (inl (omega arith)) digits) in
      let nothing : drop (length text) text ≡ [] = drop-eq-nil (length text) text (omega arith) in
      let all : (length text == length text) ≡ true = ground arith in
      let end : (length text + 0 == length text) ≡ true = ground arith in
      rw (nonzero, printed, filled, no_exponent, all, no_point, nothing, end) refl

  to_string_integer :
      (number : DecimalDecNumber N) (minus : Bool) (w : List ℕ) (places : ℕ)
      → All IsDigit w
      → 0 < length w
      → lib.is_zero number.value ≡ false
      → lib.is_infinite number.value ≡ false
      → lib.is_nan number.value ≡ false
      → lib.to_text number.value ≡ integer_text minus w
      → length (integer_text minus w) < 253
      → to_string lib number places ≡ some (integer_text minus w ++ codes ".0")
  unfolding to_string cut_text is_infinity copy unpack_scientific_format buffer_of
  to_string_integer number minus w places digits some_digit nonzero finite is_number printed short =
      let text = integer_text minus w in
      let whole = round_integer (copy lib number) minus w places digits nonzero printed short in
      let fits : ltb (length text) 256 ≡ true = ground arith in
      let rest : replicate {A = ℕ} (256 - length text) 0
          ≡ 0 ∷ 0 ∷ 0 ∷ replicate (253 - length text) 0 =
        ap (λ n. replicate {A = ℕ} n 0) {y = suc (suc (suc (253 - length text)))} (omega arith) in
      let no_exponent : find_byte b'E' text ≡ length text =
        find_byte_none b'E' text (integer-Absent b'E' minus w refl (inr (omega arith)) digits) in
      let all : (length text == length text) ≡ true = ground arith in
      rw
        (
          nonzero,
          finite,
          is_number,
          whole,
          printed,
          fits,
          rest,
          take-append text (0 ∷ 0 ∷ 0 ∷ replicate (253 - length text) 0),
          no_exponent,
          all,
        )
        (finish_integer minus w (replicate (253 - length text) 0) 0 0 digits some_digit)

  -- The number whose text is scanned: reduced to 18 digits and scaled to the exponent 0.
  abbrev pub reduced : DecimalDecNumber N → N × DecContext
  reduced val = lib.reduce (record (copy lib val).context { digits = 18 }) val.value

  abbrev pub scaled : DecimalDecNumber N → N × DecContext
  scaled val =
      let r = reduced val in lib.scale r.1 r.0 (lib.from_int32 (pos 0 -ℤ (lib.parts r.0).exponent))

  -- A finite number, whose form with 18 digits, scaled to the exponent 0, is not zero and is printed by
  -- the library as at most 18 digits with a sign or none, has this integer as its significand and the exponent
  -- that the library's reduction leaves.
  pub to_decimal_components_lem :
      (val : DecimalDecNumber N) (minus : Bool) (w : List ℕ)
      → (lib.parts val.value).is_special ≡ false
      → lib.is_zero (scaled val).0 ≡ false
      → lib.is_infinite (scaled val).0 ≡ false
      → lib.is_nan (scaled val).0 ≡ false
      → lib.to_text (scaled val).0 ≡ integer_text minus w
      → All IsDigit w
      → 0 < length w
      → length w ≤ 18
      → to_decimal_components lib val
        ≡ some (true, number_of minus w, (lib.parts (reduced val).0).exponent)
  unfolding to_decimal_components
  to_decimal_components_lem val minus w finite nonzero bounded number printed digits some_digit
        short =
      let text =
        to_string_integer (store lib (scaled val)) minus w 0 digits some_digit nonzero bounded
          number printed (omega (arith, length-integer_text minus w)) in
      rw (finite, text, scan_lem minus w (b'0' ∷ []) digits some_digit short) refl
