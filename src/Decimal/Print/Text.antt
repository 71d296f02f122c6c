-- ===== src/Decimal/Print/Text.antt =====
-- `toString` (code/DecimalDecNumber.cpp) as a whole: what it makes of the text in which the library
-- prints the number, in scientific or in plain notation.
use mlnotes.Base.{
  ℕ, suc, ◌+◌, ◌-◌, ◌<◌, ◌≡◌, inl, inr, refl, Bool, true, false, Option, some, List, [], ◌∷◌, ◌++◌,
  length, take, replicate, ltb, ◌==◌, if◌then◌else◌, ◌>>=◌, codes, arith, All, lengths,
  length-append, length-replicate, sym, ap, ◌∙◌, append_assoc, Bool-cases,
}
use mlnotes.Decimal.{DecLibrary, DecimalDecNumber, is_infinity, copy}
use mlnotes.Decimal.Text.{IsDigit, read_digits}
use mlnotes.Decimal.Rounding.{round_to_zero, tenth}
use mlnotes.Decimal.Rounding.Places.{round, buffer_of}
use mlnotes.Decimal.Unpack.Scan.{minus_if}
use mlnotes.Decimal.Unpack.{find_byte, all_zero}
use mlnotes.Decimal.Unpack.Finish.{Printed, signed}
use mlnotes.Decimal.Unpack.Layout.{take-append}
use mlnotes.Decimal.Unpack.Size.{KeepsSize, bytes, unpack_scientific_format-KeepsSize}
use mlnotes.Decimal.Unpack.Plain.{
  whole, fraction, plain, scientific, unpack_scientific_format-plain,
}
use mlnotes.Decimal.Print.{finish_text, to_string, cut_text, strip_zeros}
use mlnotes.Decimal.Print.Strip.{shorten, strip_zeros_lem, shorten-All, c_text-append}
use mlnotes.Decimal.Print.Shown.{
  text-Shown, front-NoPoint, find_point, and_false, not_nan, All-append, All-take, All-drop,
  zero_digit, All-zeros,
}

-- A text is shown as it is, but for the zeros at its end.
pub finish_text_lem :
    (minus : Bool) (w fr tail : List ℕ) (y : ℕ)
    → All IsDigit w
    → 0 < length w
    → All IsDigit fr
    → let text = minus_if minus ++ (w ++ (b'.' ∷ fr)) in
      finish_text (text ++ (0 ∷ y ∷ tail)) (length text)
      ≡ some (minus_if minus ++ (w ++ (b'.' ∷ shorten fr)))
unfolding finish_text
finish_text_lem minus w fr tail y digits some_digit decimals =
    let front = minus_if minus ++ w in
    let text = minus_if minus ++ (w ++ (b'.' ∷ fr)) in
    let end = 0 ∷ y ∷ tail in
    let e = length text in
    let parts : text ≡ front ++ (b'.' ∷ fr) = sym (append_assoc (minus_if minus) w (b'.' ∷ fr)) in
    let total : e ≡ length front + 1 + length fr = simp lengths (omega arith) in
    let number = not_nan minus w (b'.' ∷ fr) end digits some_digit in
    let point : find_byte b'.' (take e (text ++ end)) ≡ length front =
      ap (find_byte b'.') (take-append text end ∙ parts)
      ∙ find_point front fr (front-NoPoint minus w digits) in
    let inside : (length front == e) ≡ false = ground arith in
    let laid : text ++ end ≡ front ++ (b'.' ∷ (fr ++ end)) =
      ap (λ l. l ++ end) parts ∙ append_assoc front (b'.' ∷ fr) end in
    let (rest, stripped) = strip_zeros_lem front fr tail y e decimals total in
    let written : strip_zeros (text ++ end) e
        ≡ some ((minus_if minus ++ (w ++ (b'.' ∷ shorten fr))) ++ (0 ∷ rest)) =
      ap (λ l. strip_zeros l e) laid
      ∙ stripped
      ∙ ap (λ l. some (l ++ (0 ∷ rest))) (append_assoc (minus_if minus) w (b'.' ∷ shorten fr)) in
    rw (number, and_false (e == 3), point, inside, written)
      (ap some (
        c_text-append (minus_if minus ++ (w ++ (b'.' ∷ shorten fr))) rest
          (text-Shown minus w (shorten fr) digits (shorten-All fr decimals))))

-- A number as the library prints it in scientific notation: the exponent is not zero.
pub record IsScientific (d : ℕ) (ds ms : List ℕ) (m : ℕ) : Type 0 where
  pub digit : IsDigit d
  pub digits : All IsDigit ds
  pub exponent : All IsDigit ms
  pub value : read_digits ms 0 ≡ m
  pub positive : 0 < m

whole-All :
    (negative : Bool) (d : ℕ) (ds ms : List ℕ) (m : ℕ)
    → IsScientific d ds ms m
    → All IsDigit (whole negative d ds m) × (0 < length (whole negative d ds m))
whole-All true d ds ms m h = ((zero_digit, tt), omega arith)
whole-All false d ds ms m h = (
  (h.digit, All-append (take m ds) _ (All-take m ds h.digits) (All-zeros (m - length ds))),
  omega arith,
)

fraction-All :
    (negative : Bool) (d : ℕ) (ds ms : List ℕ) (m : ℕ)
    → IsScientific d ds ms m
    → All IsDigit (fraction negative d ds m)
fraction-All true d ds ms m h =
    All-append (replicate (m - 1) b'0') _ (All-zeros (m - 1)) (h.digit, h.digits)
fraction-All false d ds ms m h = elim (Bool-cases (ltb (length ds) m)) [
  | inl e ↦ rw e (zero_digit, tt)
  | inr e ↦ rw e (All-drop m ds h.digits)
]

-- The text of a number that is shown with the digits `w` in front of the point and `fr` behind it.
abbrev pub shown : Bool → List ℕ → List ℕ → List ℕ
shown minus w fr =
    if all_zero (w ++ (b'.' ∷ fr))
    then codes "0.0"
    else minus_if minus ++ (w ++ (b'.' ∷ shorten fr))

finish_signed :
    (minus : Bool) (w fr tail : List ℕ) (y : ℕ)
    → All IsDigit w
    → 0 < length w
    → All IsDigit fr
    → let text = signed (minus_if minus) (w ++ (b'.' ∷ fr)) in
      finish_text (text ++ (0 ∷ y ∷ tail)) (length text) ≡ some (shown minus w fr)
finish_signed minus w fr tail y digits some_digit decimals =
    elim (Bool-cases (all_zero (w ++ (b'.' ∷ fr)))) [
      | inl e ↦ rw e (
          finish_text_lem false (b'0' ∷ []) (b'0' ∷ []) tail y (zero_digit, tt) (omega arith)
            (zero_digit, tt))
      | inr e ↦ rw e (finish_text_lem minus w fr tail y digits some_digit decimals)
    ]

finish_tail :
    (o : Option (List ℕ × ℕ)) (minus : Bool) (w fr tail : List ℕ) (n : ℕ)
    → let text = signed (minus_if minus) (w ++ (b'.' ∷ fr)) in
      o ≡ some (text ++ (0 ∷ tail), length text)
      → length (text ++ (0 ∷ tail)) ≡ n
      → length text + 1 < n
      → All IsDigit w
      → 0 < length w
      → All IsDigit fr
      → (o >>= (λ unpacked. finish_text unpacked.0 unpacked.1)) ≡ some (shown minus w fr)
finish_tail o minus w fr [] n result total room digits some_digit decimals =
    let text = signed (minus_if minus) (w ++ (b'.' ∷ fr)) in
    let count : length (text ++ (0 ∷ [])) ≡ length text + 1 = length-append text (0 ∷ []) in
    absurd (omega arith)
finish_tail o minus w fr (y ∷ tail) n result total room digits some_digit decimals =
    rw result (finish_signed minus w fr tail y digits some_digit decimals)

signed_short :
    (s plain : List ℕ) (n : ℕ)
    → length s + length plain + 1 < n
    → 4 < n
    → length (signed s plain) + 1 < n
signed_short s plain n room least = elim (Bool-cases (all_zero plain)) [
  | inl e ↦ rw e least
  | inr e ↦ rw e (simp length-append room)
]

-- The end of `toString`, given what is printed and that the buffer has kept its size.
finish_result :
    (o : Option (List ℕ × ℕ)) (minus : Bool) (w fr : List ℕ) (n : ℕ)
    → Printed o (signed (minus_if minus) (w ++ (b'.' ∷ fr)))
    → KeepsSize bytes n o
    → length (minus_if minus) + length w + length fr + 2 < n
    → 4 < n
    → All IsDigit w
    → 0 < length w
    → All IsDigit fr
    → (o >>= (λ unpacked. finish_text unpacked.0 unpacked.1)) ≡ some (shown minus w fr)
finish_result o minus w fr n p size room least digits some_digit decimals =
    finish_tail o minus w fr p.tail n p.result (size.size_of _ p.result)
      (signed_short (minus_if minus) (w ++ (b'.' ∷ fr)) n (simp length-append (omega arith)) least)
      digits some_digit decimals

pub buffer_lem :
    (text : List ℕ)
    → length text < 256
    → (rest : List ℕ) × (buffer_of text ≡ some (text ++ (0 ∷ rest)))
      × (length (text ++ (0 ∷ rest)) ≡ 256)
unfolding buffer_of
buffer_lem text h =
    let fits : ltb (length text) 256 ≡ true = ground arith in
    let more : 256 - length text ≡ suc (255 - length text) = omega arith in
    (
      replicate (255 - length text) 0,
      rw (fits, more) refl,
      simp (lengths, length-replicate) (omega arith),
    )

module _ {N : Type 0} (lib : DecLibrary N) where
  -- A finite number other than zero, whose cut form the library prints in scientific notation with an
  -- exponent that is not zero, is shown in plain notation, cut after `decimal_places` digits behind
  -- the point and without zeros at the end, but with one digit at least behind the point, if the uncut
  -- form and two more bytes fit into the buffer. If only zeros are left, it is shown as "0.0".
  pub to_string-scientific :
      (this cut : DecimalDecNumber N) (minus : Bool) (d : ℕ) (ds : List ℕ) (negative : Bool)
      (ms : List ℕ) (m decimal_places : ℕ)
      → lib.is_zero this.value ≡ false
      → lib.is_infinite this.value ≡ false
      → lib.is_nan this.value ≡ false
      → round lib (copy lib this) decimal_places round_to_zero tenth ≡ some cut
      → lib.to_text cut.value ≡ scientific minus d ds negative ms
      → IsScientific d ds ms m
      → length (scientific minus d ds negative ms) < 256
      → length (minus_if minus)
          + length (whole negative d ds m)
          + length (fraction negative d ds m)
          + 2
        < 256
      → to_string lib this decimal_places
        ≡ some
            (shown minus (whole negative d ds m) (take decimal_places (fraction negative d ds m)))
  unfolding to_string cut_text is_infinity
  to_string-scientific this cut minus d ds negative ms m decimal_places nonzero finite number
        rounded printed h short room =
      let text = scientific minus d ds negative ms in
      let (rest, filled, size) = buffer_lem text short in
      let w = whole-All negative d ds ms m h in
      rw (nonzero, finite, number, rounded, printed, filled)
        (finish_result _ minus (whole negative d ds m)
          (take decimal_places (fraction negative d ds m)) 256
          (unpack_scientific_format-plain minus d ds negative ms rest 256 m decimal_places h.digit
            h.digits h.exponent h.value h.positive size (omega arith))
          (unpack_scientific_format-KeepsSize 256 (text ++ (0 ∷ rest)) (length text) 256
            decimal_places size)
          (simp lengths (omega arith)) (omega arith) w.0 w.1
          (All-take decimal_places _ (fraction-All negative d ds ms m h)))
