-- ===== src/Decimal/Print.antt =====
-- The printing of decimal numbers of code/DecimalDecNumber.cpp: `toString`, which cuts and does not
-- round, `toStringAllowScientific` and `toDecimalComponents`. `none` is a write behind the buffer.
pub mod Strip
pub mod Components
pub mod Shown
pub mod Text
use mlnotes.Base.{
  ℕ, zero, suc, ◌+◌, ◌-◌, ◌*◌, ◌^◌, ◌≡◌, Bool, true, false, not, ◌||◌, ◌&&◌, Option, none, some,
  List, [], ◌∷◌, ◌++◌, length, take, drop, get_or, ltb, leb, ◌==◌, if◌then◌else◌, ◌>>=◌, c_text,
  codes,
}
use mlnotes.Base.Int.{ℤ, pos, neg_ℕ, eq_ℤ, ◌-ℤ◌}
use mlnotes.Decimal.{DecLibrary, DecimalDecNumber, copy, is_infinity, store}
use mlnotes.Decimal.Rounding.{round_to_zero, tenth}
use mlnotes.Decimal.Rounding.Places.{round, buffer_of, buffer_size}
use mlnotes.Decimal.Unpack.{find_byte, is_digit, atoi_loop, write_at, unpack_scientific_format}

-- `strcmp`
unfoldable pub equal_text : List ℕ → List ℕ → Bool
equal_text [] [] = true
equal_text [] (y ∷ ys) = false
equal_text (x ∷ xs) [] = false
equal_text (x ∷ xs) (y ∷ ys) = let rest = equal_text xs ys in if x == y then rest else false

-- The loop from the last byte back over zeros; the point is in front of them.
unfoldable pub last_non_zero : List ℕ → ℕ → ℕ
last_non_zero buf zero = zero
last_non_zero buf (suc i) =
    let rest = last_non_zero buf i in if get_or buf (suc i) 0 == b'0' then rest else suc i

-- The zeros at the end are cut off, but for one behind the point.
unfoldable pub strip_zeros : List ℕ → ℕ → Option (List ℕ)
strip_zeros buf e =
    let last = last_non_zero buf (e - 1) in
    if get_or buf last 0 == b'.'
    then write_at buf (last + 1) (b'0' ∷ []) >>= (λ padded. write_at padded (last + 2) (0 ∷ []))
    else write_at buf (last + 1) (0 ∷ [])

-- What `toString` makes of the buffer that is unpacked.
unfoldable pub finish_text : List ℕ → ℕ → Option (List ℕ)
finish_text buf e =
    if e == 3 && equal_text (c_text buf) (codes "NaN")
    then some (c_text buf)
    else if find_byte b'.' (take e buf) == e
    then write_at buf e (codes ".0" ++ (0 ∷ [])) >>= (λ written. some (c_text written))
    else strip_zeros buf e >>= (λ stripped. some (c_text stripped))

-- What `sscanf` stores in an int64.
pub data Scanned : Type 0 where
  no_number : Scanned
  scanned : ℤ → Scanned
  out_of_range : Scanned

-- The magnitude of a number that is converted, the least int64 included.
unfoldable pub store_int64 : Bool → ℕ → Scanned
store_int64 negative n =
    if leb n (if negative then 2 ^ 63 else 2 ^ 63 - 1)
    then scanned (if negative then neg_ℕ n else pos n)
    else out_of_range

-- `sscanf` with "%lld", of digits with a sign or none.
unfoldable pub scan_integer : List ℕ → Scanned
scan_integer [] = no_number
scan_integer (c ∷ cs) =
    if c == b'-'
    then (if is_digit (get_or cs 0 0) then store_int64 true (atoi_loop 0 cs) else no_number)
    else if is_digit c
    then store_int64 false (atoi_loop 0 (c ∷ cs))
    else no_number

-- The result of `sscanf`: not a number is not converted, and the conversion of a number that is no
-- int64 is undefined: `none`.
abbrev pub components_of : ℤ → Scanned → Option (Bool × ℤ × ℤ)
components_of exponent no_number = some (false, pos 0, pos 0)
components_of exponent (scanned significand) = some (true, significand, exponent)
components_of exponent out_of_range = none

module _ {N : Type 0} (lib : DecLibrary N) where
  -- The text of a number that is cut after some decimal places, as the library prints it.
  unfoldable pub cut_text : DecimalDecNumber N → ℕ → Option (List ℕ)
  cut_text this decimal_places =
      round lib (copy lib this) decimal_places round_to_zero tenth
      >>= (λ rounded. some (lib.to_text rounded.value))

  unfoldable pub to_string : DecimalDecNumber N → ℕ → Option (List ℕ)
  to_string this decimal_places =
      if lib.is_zero this.value
      then some (codes "0.0")
      else if not (eq_ℤ (is_infinity lib this) (pos 0))
      then some (if lib.is_negative this.value then codes "-INF" else codes "+INF")
      else if lib.is_nan this.value
      then some (codes "NaN")
      else cut_text this decimal_places
        >>= (λ text.
            buffer_of text
            >>= (λ buf. unpack_scientific_format buf (length text) buffer_size decimal_places))
        >>= (λ unpacked. finish_text unpacked.0 unpacked.1)

  unfoldable pub to_string_allow_scientific : DecimalDecNumber N → ℕ → Option (List ℕ)
  to_string_allow_scientific this decimal_places =
      if not (lib.is_zero this.value)
        && eq_ℤ (is_infinity lib this) (pos 0)
        && not (lib.is_nan this.value)
      then cut_text this decimal_places >>= (λ text. buffer_of text >>= (λ buf.
        if find_byte b'+' text == length text then to_string this decimal_places else some text))
      else to_string this decimal_places

  -- Whether the number has components, the significand and the exponent.
  unfoldable pub to_decimal_components : DecimalDecNumber N → Option (Bool × ℤ × ℤ)
  to_decimal_components val =
      let short = record (copy lib val).context { digits = 18 } in
      if (lib.parts val.value).is_special
      then some (false, pos 0, pos 0)
      else let reduced = lib.reduce short val.value in
        let exponent = (lib.parts reduced.0).exponent in
        let scaled = lib.scale reduced.1 reduced.0 (lib.from_int32 (pos 0 -ℤ exponent)) in
        to_string (store lib scaled) 0 >>= (λ text. components_of exponent (scan_integer text))
