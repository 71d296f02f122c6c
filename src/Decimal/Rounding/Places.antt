-- ===== src/Decimal/Rounding/Places.antt =====
-- `round` of code/DecimalDecNumber.cpp: the number is printed, and read again with the precision that
-- leaves the wanted number of decimal places. `none` is a write behind the buffer.
use mlnotes.Base.{
  ℕ, ◌+◌, ◌-◌, not, ◌||◌, ◌&&◌, Option, none, some, List, [], ◌∷◌, ◌++◌, length, drop, replicate,
  get_or, ltb, ◌==◌, if◌then◌else◌, ◌>>=◌, c_text, add32, sub32, to_int32,
}
use mlnotes.Base.Int.{ℤ, pos, ltb_ℤ, pos_part}
use mlnotes.Decimal.{DecContext, DecLibrary, DecimalDecNumber, Binary, store}
use mlnotes.Decimal.Rounding.{
  RoundingMode, RoundIncrement, RoundParameters, tenth, half, quarter, select_round,
}
use mlnotes.Decimal.Unpack.{find_byte, unpack_scientific_format}

-- `BUFFER_SIZE`
abbrev pub buffer_size : ℕ
buffer_size = 256

-- A buffer with a text and its terminator; the bytes behind are not set, and never read.
unfoldable pub buffer_of : List ℕ → Option (List ℕ)
buffer_of text =
    if ltb (length text) buffer_size
    then some (text ++ replicate (buffer_size - length text) 0)
    else none

-- How many bytes come before the first that is one of '1' to '9'.
unfoldable pub skip_to_nonzero : List ℕ → ℕ
skip_to_nonzero [] = 0
skip_to_nonzero (c ∷ cs) =
    let rest = skip_to_nonzero cs in if ltb c b'1' || ltb b'9' c then 1 + rest else 0

-- `tempContext.digits` for the text of a number.
unfoldable pub significant_digits : List ℕ → ℕ → ℤ
significant_digits text decimal_places =
    let point = find_byte b'.' text in
    let first_non_zero = point + skip_to_nonzero (drop point text) in
    let first_digit = if get_or text 0 0 == b'-' then 1 else 0 in
    to_int32 (
      if get_or text first_digit 0 == b'0'
      then sub32 decimal_places (first_non_zero - point - 1)
      else add32 decimal_places (point - first_digit))

module _ {N : Type 0} (lib : DecLibrary N) where
  -- The multiplication or division by the number of increments in a unit.
  unfoldable pub scale_increment :
      Binary N → RoundIncrement → DecimalDecNumber N → DecimalDecNumber N
  scale_increment op tenth this = this
  scale_increment op half this = store lib (op this.context this.value (lib.from_int32 (pos 2)))
  scale_increment op quarter this = store lib (op this.context this.value (lib.from_int32 (pos 4)))

  -- The plain text of a number: `decNumberToString` and `unpackScientificFormat` with 48 places.
  unfoldable pub plain_text : N → Option (List ℕ)
  plain_text value =
      let text = lib.to_text value in
      let f = find_byte b'E' text in
      buffer_of text >>= (λ buf.
        if not (f == length text) && not (f + 1 == length text)
        then unpack_scientific_format buf (length text) buffer_size 48
          >>= (λ unpacked. some (c_text unpacked.0))
        else some text)

  -- The text is read with a context of its own; no nonzero digit behind the point means no rounding.
  unfoldable pub round_text :
      ℕ → RoundingMode → RoundIncrement → DecimalDecNumber N → List ℕ → DecimalDecNumber N
  round_text decimal_places mode increment this text =
      let point = find_byte b'.' text in
      let digits = significant_digits text decimal_places in
      if point + skip_to_nonzero (drop point text) == length text
      then scale_increment lib.divide increment this
      else if ltb_ℤ digits (pos 0)
      then record this { value = lib.from_int32 (pos 0) }
      else let context : DecContext = record {
        digits = pos_part digits;
        round = select_round mode (lib.is_negative this.value);
        status = 0;
      } in
        scale_increment lib.divide increment
          (record this { value = (lib.from_string context text).0 })

  unfoldable pub round :
      DecimalDecNumber N → ℕ → RoundingMode → RoundIncrement → Option (DecimalDecNumber N)
  round this decimal_places mode increment =
      if lib.is_zero this.value
      then some this
      else let scaled = scale_increment lib.multiply increment this in
        plain_text scaled.value
        >>= (λ text. some (round_text decimal_places mode increment scaled text))

  unfoldable pub round_by : DecimalDecNumber N → RoundParameters → Option (DecimalDecNumber N)
  round_by this rhs = round this rhs.decimal_places rhs.round_mode rhs.round_increment
