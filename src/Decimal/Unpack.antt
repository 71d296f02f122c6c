-- ===== src/Decimal/Unpack.antt =====
-- `unpackScientificFormat` of code/DecimalDecNumber.cpp, which writes a number in scientific notation
-- as a plain one, in place. A buffer is the list of its bytes; the pointers `b` and `e` are indexes
-- into it, and `none` is a write outside of it. Both callers pass the start of the buffer as `b`.
pub mod Layout
pub mod Scan
pub mod Size
pub mod Plain
pub mod Shift
pub mod Finish
use mlnotes.Base.{
  ℕ, ◌+◌, ◌-◌, ◌≡◌, Bool, true, false, not, ◌&&◌, ◌||◌, Option, none, some, List, [], ◌∷◌, ◌++◌,
  length, take, drop, replicate, get_or, ltb, leb, ◌==◌, if◌then◌else◌, ◌>>=◌, codes, arith, ◌*◌,
}
use Prim.Native.Nat.{min}
use mlnotes.Base.Arrays.{paste, std_copy}

-- The bytes `xs` from index `at` on: an assignment through a pointer, `memset` and `strcpy`.
unfoldable pub write_at : List ℕ → ℕ → List ℕ → Option (List ℕ)
write_at buf at xs = if leb (at + length xs) (length buf) then some (paste buf at xs) else none

-- `std::find`: how many bytes come before the first `c`.
unfoldable pub find_byte : ℕ → List ℕ → ℕ
find_byte c [] = 0
find_byte c (x ∷ xs) = let rest = find_byte c xs in if x == c then 0 else 1 + rest

abbrev pub is_digit : ℕ → Bool
is_digit c = leb b'0' c && leb c b'9'

-- `atoi` of digits.
unfoldable pub atoi_loop : ℕ → List ℕ → ℕ
atoi_loop acc [] = acc
atoi_loop acc (c ∷ cs) =
    let rest = atoi_loop (acc * 10 + (c - b'0')) cs in if is_digit c then rest else acc

-- The loop of the test for zero.
unfoldable pub all_zero : List ℕ → Bool
all_zero [] = true
all_zero (c ∷ cs) = let rest = all_zero cs in if is_digit c && not (c == b'0') then false else rest

-- `strcpy` of a text at the sign, and the end behind it.
unfoldable pub replace_text : List ℕ → List ℕ → Option (List ℕ × ℕ)
replace_text buf text =
    write_at buf 0 (text ++ (0 ∷ [])) >>= (λ written. some (written, length text))

-- The point is written, the text is cut after `decimal_places` digits, and a zero loses its sign.
unfoldable pub finish : List ℕ → ℕ → ℕ → ℕ → ℕ → Option (List ℕ × ℕ)
finish buf b e decimal_point decimal_places =
    let last = min e (decimal_point + decimal_places + 1) in
    write_at buf decimal_point (b'.' ∷ [])
    >>= (λ pointed. write_at pointed last (0 ∷ []))
    >>= (λ ended.
        if all_zero (take (last - b) (drop b ended))
        then replace_text ended (codes "0.0")
        else some (ended, last))

-- A negative exponent: zeros are put in front.
unfoldable pub shift_right : List ℕ → ℕ → ℕ → ℕ → Bool → ℕ → ℕ → ℕ → Option (List ℕ × ℕ)
shift_right buf b f buffer_size has_point figures magnitude decimal_places =
    let e = b + 1 + magnitude + figures in
    (if has_point then write_at buf (b + 1) (get_or buf b 0 ∷ []) else some buf) >>= (λ joined.
      if ltb buffer_size (e - b)
      then replace_text joined (codes "0.0")
      else std_copy joined b f joined (e - (f - b))
        >>= (λ moved. write_at moved b (replicate (magnitude + 1) b'0'))
        >>= (λ filled. finish filled b e (b + 1) decimal_places))

-- A positive exponent that is no less than the number of digits: zeros are put behind.
unfoldable pub append_zeros : List ℕ → ℕ → ℕ → ℕ → Bool → ℕ → ℕ → ℕ → Option (List ℕ × ℕ)
append_zeros buf b f buffer_size has_point figures magnitude decimal_places =
    let decimal_point = b + magnitude + 1 in
    let e = decimal_point + 2 in
    if ltb buffer_size (e - b)
    then replace_text buf (codes "NaN")
    else (if has_point then std_copy buf (b + 2) f buf (b + 1) else some buf)
      >>= (λ joined. write_at joined (b + figures) (replicate (magnitude - figures + 3) b'0'))
      >>= (λ filled. finish filled b e decimal_point decimal_places)

-- A smaller exponent: the point is moved.
unfoldable pub move_point : List ℕ → ℕ → ℕ → ℕ → ℕ → Option (List ℕ × ℕ)
move_point buf b f magnitude decimal_places =
    std_copy buf (b + 2) (b + 2 + magnitude) buf (b + 1)
    >>= (λ moved. finish moved b f (b + magnitude + 1) decimal_places)

-- The function behind the sign; a text has a digit in front of the 'E'.
unfoldable pub unpack_exponent : List ℕ → ℕ → ℕ → ℕ → ℕ → Option (List ℕ × ℕ)
unpack_exponent buf b f buffer_size decimal_places =
    let sign = get_or buf (f + 1) 0 in
    let negative_exponent = sign == b'-' in
    let sign_present = sign == b'-' || sign == b'+' in
    let magnitude = atoi_loop 0 (drop (if sign_present then f + 2 else f + 1) buf) in
    let has_point = get_or buf (b + 1) 0 == b'.' in
    let figures = if has_point then f - b - 1 else f - b in
    if negative_exponent
    then shift_right buf b f buffer_size has_point figures magnitude decimal_places
    else if leb figures magnitude
    then append_zeros buf b f buffer_size has_point figures magnitude decimal_places
    else move_point buf b f magnitude decimal_places

-- The buffer and the end of its text after the call.
unfoldable pub unpack_scientific_format : List ℕ → ℕ → ℕ → ℕ → Option (List ℕ × ℕ)
unpack_scientific_format buf e buffer_size decimal_places =
    let f = find_byte b'E' (take e buf) in
    if f == e || f + 1 == e
    then some (buf, e)
    else if get_or buf 0 0 == b'-'
    then unpack_exponent buf 1 f (buffer_size - 1) decimal_places
    else unpack_exponent buf 0 f buffer_size decimal_places
