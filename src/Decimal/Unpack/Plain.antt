-- ===== src/Decimal/Unpack/Plain.antt =====
-- `unpackScientificFormat` (code/DecimalDecNumber.cpp) against plain notation: on every number in
-- scientific notation with a digit in front of the point, when its plain form fits into the buffer.
use mlnotes.Base.{
  ℕ, zero, suc, ◌+◌, ◌-◌, ◌≤◌, ◌<◌, ◌≡◌, refl, List, [], ◌∷◌, ◌++◌, arith, length, take, drop,
  replicate, leb, ltb, ◌==◌, ◌||◌, if◌then◌else◌, lengths, append-nil, length-replicate, ap, ◌∙◌,
  true, false, sym, get_or, Bool, All, take_all,
}
use native.Mathlib.Decide.{dec_lt}
use mlnotes.Decimal.Text.{IsDigit, read_digits}
use mlnotes.Decimal.Unpack.{
  atoi_loop, unpack_exponent, unpack_scientific_format, shift_right, append_zeros, move_point,
}
use mlnotes.Decimal.Unpack.Layout.{drop_past}
use mlnotes.Decimal.Unpack.Finish.{Printed, signed}
use mlnotes.Decimal.Unpack.Shift.{
  point_of, has_point, shift_right_lem, append_zeros_lem, move_point_lem,
}
use mlnotes.Decimal.Unpack.Scan.{
  exponent_sign, atoi_lem, mantissa, mantissa_lem, second_byte, point_lem, figures_lem,
  sign_is_minus, sign_is_present, minus_if, mantissa-Other, buffer_lem, find_exponent,
  digit_no_minus,
}

-- The digits in front of the point and behind it of the number d.ds E-m, or d.ds E+m.
abbrev pub whole : Bool → ℕ → List ℕ → ℕ → List ℕ
whole true d ds m = b'0' ∷ []
whole false d ds m = (d ∷ take m ds) ++ replicate (m - length ds) b'0'

abbrev pub fraction : Bool → ℕ → List ℕ → ℕ → List ℕ
fraction true d ds m = replicate (m - 1) b'0' ++ (d ∷ ds)
fraction false d ds m = if ltb (length ds) m then b'0' ∷ [] else drop m ds

abbrev pub plain : Bool → ℕ → List ℕ → ℕ → ℕ → List ℕ
plain negative d ds m places =
    whole negative d ds m ++ (b'.' ∷ take places (fraction negative d ds m))

moved_past :
    (s ds tail : List ℕ) (d y b f m places : ℕ)
    → length s ≡ b
    → b + 1 + length (point_of ds) + length ds ≡ f
    → m ≤ length ds
    → 0 < m
    → Printed
        (move_point (s ++ (d ∷ (point_of ds ++ (ds ++ (y ∷ tail))))) b f m places)
        (signed s ((d ∷ take m ds) ++ (b'.' ∷ take places (drop m ds))))
moved_past s [] tail d y b f m places h at_f few positive = absurd (omega arith)
moved_past s (x ∷ xs) tail d y b f m places h at_f few positive =
    move_point_lem s (x ∷ xs) tail d y b f m places h (omega arith) few (omega arith)

-- The three ways, once the parts of the text are known.
moved_lem :
    (negative : Bool) (s ds tail : List ℕ) (d y b f size m places : ℕ)
    → length s ≡ b
    → 0 < m
    → b + 1 + length (point_of ds) + length ds ≡ f
    → let buf = s ++ (d ∷ (point_of ds ++ (ds ++ (y ∷ tail)))) in
      size + b ≡ length buf
      → length (whole negative d ds m) + length (fraction negative d ds m) + 1 < size
      → Printed
          (if negative
            then shift_right buf b f size (has_point ds) (1 + length ds) m places
            else if leb (1 + length ds) m
            then append_zeros buf b f size (has_point ds) (1 + length ds) m places
            else move_point buf b f m places)
          (signed s (plain negative d ds m places))
moved_lem true s ds tail d y b f size zero places h positive at_f all room = absurd (omega arith)
moved_lem true s ds tail d y b f size (suc m) places h positive at_f all room =
    let before : suc m - 1 ≡ m = omega arith in
    let count : length (fraction true d ds (suc m)) ≡ m + (1 + length ds) =
      rw before (simp (lengths, length-replicate) (omega arith)) in
    rw before (shift_right_lem s ds (y ∷ tail) d b f size m places h at_f (omega arith) all)
moved_lem false s ds tail d y b f size m places h positive at_f all room =
    elim (dec_lt (length ds) m) [
      | yes short ↦
          let padded : leb (1 + length ds) m ≡ true = ground arith in
          let one : ltb (length ds) m ≡ true = ground arith in
          let count : length (whole false d ds m) ≡ m + 1 =
            simp (lengths, length-replicate) (omega arith) in
          let digit : length (fraction false d ds m) ≡ 1 = rw one refl in
          rw (padded, one, take_all m ds (omega arith))
            (append_zeros_lem s ds (y ∷ tail) d b f size m places h at_f short (omega arith) all)
      | no long ↦
          let moved : leb (1 + length ds) m ≡ false = ground arith in
          let zero : ltb (length ds) m ≡ false = ground arith in
          let none_more : m - length ds ≡ 0 = omega arith in
          rw (moved, zero, none_more)
            (rw (append-nil (take m ds))
              (moved_past s ds tail d y b f m places h at_f (omega arith) positive))
    ]

unpack_exponent_lem :
    (negative : Bool) (s ds ms rest : List ℕ) (d b f size m places : ℕ)
    → length s ≡ b
    → All IsDigit ms
    → read_digits ms 0 ≡ m
    → 0 < m
    → b + 1 + length (point_of ds) + length ds ≡ f
    → let buf =
        s ++ (d ∷ (point_of ds ++ (ds ++ (b'E' ∷ exponent_sign negative ∷ (ms ++ (0 ∷ rest)))))) in
      size + b ≡ length buf
      → length (whole negative d ds m) + length (fraction negative d ds m) + 1 < size
      → Printed (unpack_exponent buf b f size places) (signed s (plain negative d ds m places))
unfolding unpack_exponent
unpack_exponent_lem negative s ds ms rest d b f size m places h digits exponent positive at_f all
      room =
    let tail = b'E' ∷ exponent_sign negative ∷ (ms ++ (0 ∷ rest)) in
    let front = mantissa_lem s ds tail d in
    let at_front : length (mantissa s d ds) ≡ f = simp lengths (omega arith) in
    let buf = s ++ (d ∷ (point_of ds ++ (ds ++ tail))) in
    let sign : get_or buf (f + 1) 0 ≡ exponent_sign negative =
      ap (λ l. get_or l (f + 1) 0) front
      ∙ second_byte (mantissa s d ds) (ms ++ (0 ∷ rest)) b'E' (exponent_sign negative) f at_front in
    let number : atoi_loop 0 (drop (f + 2) buf) ≡ m =
      ap (λ l. atoi_loop 0 (drop (f + 2) l)) front
      ∙ ap (atoi_loop 0) (drop_past (mantissa s d ds) tail (f + 2) 2 (omega arith))
      ∙ atoi_lem ms rest 0 digits
      ∙ exponent in
    let point = point_lem s ds (exponent_sign negative ∷ (ms ++ (0 ∷ rest))) d b h in
    let figures = figures_lem ds b f at_f in
    rw (sign, sign_is_present negative, sign_is_minus negative, point, figures, number)
      (moved_lem negative s ds (exponent_sign negative ∷ (ms ++ (0 ∷ rest))) d b'E' b f size m
        places h positive at_f all room)

-- A number in scientific notation at the start of a buffer.
abbrev pub scientific : Bool → ℕ → List ℕ → Bool → List ℕ → List ℕ
scientific minus d ds negative ms =
    minus_if minus ++ (d ∷ (point_of ds ++ (ds ++ (b'E' ∷ exponent_sign negative ∷ ms))))

-- What is done behind the sign.
behind_sign :
    (minus : Bool) (d : ℕ) (ds : List ℕ) (negative : Bool) (ms rest : List ℕ) (f size m places : ℕ)
    → IsDigit d
    → All IsDigit ms
    → read_digits ms 0 ≡ m
    → 0 < m
    → let s = minus_if minus in
      let buf =
        s ++ (d ∷ (point_of ds ++ (ds ++ (b'E' ∷ exponent_sign negative ∷ (ms ++ (0 ∷ rest)))))) in
      length s + 1 + length (point_of ds) + length ds ≡ f
      → length buf ≡ size
      → length s + length (whole negative d ds m) + length (fraction negative d ds m) + 1 < size
      → Printed
          (if get_or buf 0 0 == b'-'
            then unpack_exponent buf 1 f (size - 1) places
            else unpack_exponent buf 0 f size places)
          (signed s (plain negative d ds m places))
behind_sign true d ds negative ms rest f size m places digit exponent value positive at_f all room =
    unpack_exponent_lem negative (b'-' ∷ []) ds ms rest d 1 f (size - 1) m places refl exponent
      value positive at_f (omega arith) (omega arith)
behind_sign false d ds negative ms rest f size m places digit exponent value positive at_f all
      room =
    let plus : (d == b'-') ≡ false = digit_no_minus d digit in
    rw plus (
      unpack_exponent_lem negative [] ds ms rest d 0 f size m places refl exponent value positive
        at_f (omega arith) (omega arith))

-- A buffer that starts with a number d.ds E-m or d.ds E+m, of any sign, with a terminator behind it,
-- ends up with the same number in plain notation, cut after `places` digits behind the point, and a
-- terminator behind it; a number of which only zeros are left is "0.0" without a sign. The exponent
-- is not zero, and the uncut plain form and a terminator fit into the buffer.
pub unpack_scientific_format-plain :
    (minus : Bool) (d : ℕ) (ds : List ℕ) (negative : Bool) (ms rest : List ℕ) (size m places : ℕ)
    → IsDigit d
    → All IsDigit ds
    → All IsDigit ms
    → read_digits ms 0 ≡ m
    → 0 < m
    → let text = scientific minus d ds negative ms in
      let buf = text ++ (0 ∷ rest) in
      length buf ≡ size
      → length (minus_if minus)
          + length (whole negative d ds m)
          + length (fraction negative d ds m)
          + 1
        < size
      → Printed
          (unpack_scientific_format buf (length text) size places)
          (signed (minus_if minus) (plain negative d ds m places))
unfolding unpack_scientific_format
unpack_scientific_format-plain minus d ds negative ms rest size m places digit digits exponent value
      positive all room =
    let s = minus_if minus in
    let text = scientific minus d ds negative ms in
    let f = length s + 1 + length (point_of ds) + length ds in
    let laid = buffer_lem s ds ms rest d b'E' (exponent_sign negative) in
    let count : f + 2 + length ms ≡ length text = simp lengths (omega arith) in
    let found =
      find_exponent s ds ms rest d (exponent_sign negative) f (length text)
        (mantissa-Other minus d ds digit digits) refl count in
    let far : (f == length text || f + 1 == length text) ≡ false = ground arith in
    rw (laid, found, far)
      (behind_sign minus d ds negative ms rest f size m places digit exponent value positive refl
        (ap length (sym laid) ∙ all) room)
