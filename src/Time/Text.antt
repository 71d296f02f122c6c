-- ===== src/Time/Text.antt =====
-- The format strings of code/Time.cpp, and what `snprintf` and `sscanf` do with the conversions that
-- stand in them.
use mlnotes.Base.{
  ℕ, zero, suc, ◌+◌, ◌-◌, ◌*◌, ◌/◌, ◌%◌, ◌^◌, Bool, true, false, ◌&&◌, ◌||◌, Option, none, some,
  List, [], ◌∷◌, ◌++◌, length, replicate, leb, ◌==◌, if◌then◌else◌,
}
use mlnotes.Base.Int.{ℤ, pos, negsuc, neg_ℕ}
use mlnotes.Format.{isdigit}
use mlnotes.Time.{
  Format, yyyymmmdd_hhmmssuu, yyyymmdd_hhmmssuu, yyyymmdd_hhmmssmm, yyyymmmdd_hhmmss,
  yyyymmdd_hhmmss, ddmmmyyyy_hhmmss, yyyymmmdd, yyyymmdd, ddmmyyyy, hhmmssuu, hhmmssmm, hhmmss,
  sss_mmm, sss_uuu, iso_yyyymmdd, iso_yyyymmddhhmmss, mmddyyyy_hhmmssmm, offset, rfc_822, ddmmmyyyy,
  yyyymmddthhmmss, iso_yyyymmddthhmmss, iso_8601_sec_utc, iso_8601_msec_utc, iso_8601_usec_utc,
  yyyymmdd_hhmmssmm_withdash, hhmm, ddmmmyyyy_hhmmss_nodash, ddmmmyyyy_hhmmss_tz_nodash,
}

-- A byte that stands for itself, `%0wd`, `%lu` or `%0wlu` (width 0 is none), `%ws` and `%s`, `%c`.
pub data Piece : Type 0 where
  lit : ℕ → Piece
  num : ℕ → Piece
  long : ℕ → Piece
  text : ℕ → Piece
  word : Piece
  chr : Piece

pub data Arg : Type 0 where
  int : ℤ → Arg
  bytes : List ℕ → Arg

-- Numbers with a byte between each two.
abbrev pub sep : List Piece → ℕ → List Piece → List Piece
sep before c after = before ++ lit c ∷ after

abbrev pub ymd : List Piece
ymd = sep (num 4 ∷ []) b'-' (sep (num 2 ∷ []) b'-' (num 2 ∷ []))

abbrev pub ymmmd : List Piece
ymmmd = sep (num 4 ∷ []) b'-' (sep (text 3 ∷ []) b'-' (num 2 ∷ []))

abbrev pub dmmmy : List Piece
dmmmy = sep (num 2 ∷ []) b'-' (sep (text 3 ∷ []) b'-' (num 4 ∷ []))

abbrev pub hms : List Piece
hms = sep (num 2 ∷ []) b':' (sep (num 2 ∷ []) b':' (num 2 ∷ []))

abbrev pub hmsu : List Piece
hmsu = sep hms b'.' (num 6 ∷ [])

abbrev pub hmsm : List Piece
hmsm = sep hms b'.' (num 3 ∷ [])

abbrev pub nodash : List Piece
nodash = num 2 ∷ text 3 ∷ num 4 ∷ lit b' ' ∷ hms

-- `FORMAT_STRINGS`, whose rows are in the order of the formats.
unfoldable pub format_strings : Format → List Piece
format_strings yyyymmmdd_hhmmssuu = sep ymmmd b' ' hmsu
format_strings yyyymmdd_hhmmssuu = sep ymd b' ' hmsu
format_strings yyyymmdd_hhmmssmm = sep ymd b' ' hmsm
format_strings yyyymmmdd_hhmmss = sep ymmmd b' ' hms
format_strings yyyymmdd_hhmmss = sep ymd b' ' hms
format_strings ddmmmyyyy_hhmmss = sep dmmmy b' ' hms
format_strings yyyymmmdd = ymmmd
format_strings yyyymmdd = ymd
format_strings ddmmyyyy = sep (num 2 ∷ []) b'/' (sep (num 2 ∷ []) b'/' (num 4 ∷ []))
format_strings hhmmssuu = hmsu
format_strings hhmmssmm = hmsm
format_strings hhmmss = hms
format_strings sss_mmm = sep (long 0 ∷ []) b'.' (long 3 ∷ [])
format_strings sss_uuu = sep (long 0 ∷ []) b'.' (long 6 ∷ [])
format_strings iso_yyyymmdd = num 4 ∷ num 2 ∷ num 2 ∷ []
format_strings iso_yyyymmddhhmmss = num 4 ∷ num 2 ∷ num 2 ∷ num 2 ∷ num 2 ∷ num 2 ∷ []
format_strings mmddyyyy_hhmmssmm =
    sep (sep (num 2 ∷ []) b'/' (sep (num 2 ∷ []) b'/' (num 4 ∷ []))) b' ' hmsm
format_strings offset = sep (num 2 ∷ []) b'-' hmsu
format_strings rfc_822 =
    num 2 ∷ lit b' ' ∷ text 3 ∷ lit b' ' ∷ num 4 ∷ lit b' ' ∷ sep hms b' ' (text 3 ∷ [])
format_strings ddmmmyyyy = dmmmy
format_strings yyyymmddthhmmss = sep ymd b'T' hms
format_strings iso_yyyymmddthhmmss = num 4 ∷ num 2 ∷ num 2 ∷ lit b'T' ∷ num 2 ∷ num 2 ∷ num 2 ∷ []
format_strings iso_8601_sec_utc = sep (sep ymd b'T' hms) b'Z' []
format_strings iso_8601_msec_utc = sep (sep ymd b'T' hmsm) b'Z' []
format_strings iso_8601_usec_utc = sep (sep ymd b'T' hmsu) b'Z' []
format_strings yyyymmdd_hhmmssmm_withdash = num 4 ∷ num 2 ∷ num 2 ∷ lit b'-' ∷ hmsm
format_strings hhmm = sep (num 2 ∷ []) b':' (num 2 ∷ [])
format_strings ddmmmyyyy_hhmmss_nodash = nodash
format_strings ddmmmyyyy_hhmmss_tz_nodash = nodash ++ lit b' ' ∷ lit b'(' ∷ word ∷ lit b')' ∷ []

-- The format strings for scanning: those of ISO 8601 read the last byte, to be tested for a Z.
unfoldable pub parse_strings : Format → List Piece
parse_strings iso_8601_sec_utc = sep ymd b'T' hms ++ chr ∷ []
parse_strings iso_8601_msec_utc = sep ymd b'T' hmsm ++ chr ∷ []
parse_strings iso_8601_usec_utc = sep ymd b'T' hmsu ++ chr ∷ []
parse_strings f = format_strings f

-- The decimal digits of a number below 10 ^ fuel, at least `width` of them.
unfoldable pub decimal : ℕ → ℕ → ℕ → List ℕ
decimal zero width n = []
decimal (suc fuel) width n =
    let before = decimal fuel (width - 1) (n / 10) in
    if n == 0 && width == 0 then [] else before ++ (b'0' + n % 10) ∷ []

-- An int or a long has at most 20 digits.
unfoldable pub print_int : ℕ → ℤ → List ℕ
print_int width (pos n) = decimal 20 (if width == 0 then 1 else width) n
print_int width (negsuc n) = b'-' ∷ decimal 20 (if leb width 1 then 1 else width - 1) (suc n)

-- `%lu` of a negative value.
abbrev pub unsigned : ℤ → ℤ
unsigned (pos n) = pos n
unsigned (negsuc n) = pos (2 ^ 64 - 1 - n)

-- `snprintf`; the arguments fit the conversions, or its behaviour is undefined.
unfoldable pub print : List Piece → List Arg → List ℕ
print (lit c ∷ pieces) args = c ∷ print pieces args
print (num width ∷ pieces) (int v ∷ args) = print_int width v ++ print pieces args
print (long width ∷ pieces) (int v ∷ args) = print_int width (unsigned v) ++ print pieces args
print (text width ∷ pieces) (bytes s ∷ args) =
    replicate (width - length s) b' ' ++ s ++ print pieces args
print (word ∷ pieces) (bytes s ∷ args) = s ++ print pieces args
print (chr ∷ pieces) (bytes s ∷ args) = s ++ print pieces args
print pieces args = []

abbrev pub isspace : ℕ → Bool
isspace c = c == b' ' || leb 9 c && leb c 13

unfoldable pub skip_spaces : List ℕ → List ℕ
skip_spaces [] = []
skip_spaces (c ∷ s) = if isspace c then skip_spaces s else c ∷ s

-- At most `width` digits: the value, whether there was one, and the rest.
unfoldable pub digits : ℕ → List ℕ → ℕ → Bool → ℕ × Bool × List ℕ
digits zero s acc found = (acc, found, s)
digits (suc width) [] acc found = (acc, found, [])
digits (suc width) (c ∷ s) acc found =
    if isdigit c then digits width s (acc * 10 + (c - b'0')) true else (acc, found, c ∷ s)

unfoldable pub found_int : (ℕ → ℤ) → ℕ × Bool × List ℕ → Option (ℤ × List ℕ)
found_int sign (n, true, rest) = some (sign n, rest)
found_int sign (n, false, rest) = none

-- A sign counts in the width.
unfoldable pub scan_int : ℕ → List ℕ → Option (ℤ × List ℕ)
scan_int width [] = none
scan_int width (c ∷ s) =
    if c == b'-'
    then found_int neg_ℕ (digits (width - 1) s 0 false)
    else if c == b'+'
    then found_int pos (digits (width - 1) s 0 false)
    else found_int pos (digits width (c ∷ s) 0 false)

-- At most `width` bytes that are no spaces, and the rest.
unfoldable pub scan_word : ℕ → List ℕ → List ℕ × List ℕ
scan_word zero s = ([], s)
scan_word (suc width) [] = ([], [])
scan_word (suc width) (c ∷ s) =
    let more = scan_word width s in if isspace c then ([], c ∷ s) else (c ∷ more.0, more.1)

-- A literal byte: a space is any number of spaces, any other byte is itself.
unfoldable pub scan_lit : ℕ → List ℕ → Option (List ℕ)
scan_lit c [] = if c == b' ' then some [] else none
scan_lit c (d ∷ s) =
    if c == b' ' then some (skip_spaces (d ∷ s)) else if d == c then some s else none

-- `sscanf`: the fields that were set, in order; their number is its result.
unfoldable pub scan : List Piece → List ℕ → List Arg
scan [] s = []
scan (lit c ∷ pieces) s = elim (scan_lit c s) [ none ↦ [] | some rest ↦ scan pieces rest ]
scan (num width ∷ pieces) s = elim (scan_int width (skip_spaces s)) [
  | none ↦ []
  | some (v, rest) ↦ int v ∷ scan pieces rest
]
scan (long width ∷ pieces) s =
    elim (scan_int (if width == 0 then length s else width) (skip_spaces s)) [
      | none ↦ []
      | some (v, rest) ↦ int v ∷ scan pieces rest
    ]
scan (text width ∷ pieces) s =
    let (found, rest) = scan_word width (skip_spaces s) in
    let more = scan pieces rest in if length found == 0 then [] else bytes found ∷ more
scan (word ∷ pieces) s =
    let (found, rest) = scan_word (length s) (skip_spaces s) in
    let more = scan pieces rest in if length found == 0 then [] else bytes found ∷ more
scan (chr ∷ pieces) [] = []
scan (chr ∷ pieces) (c ∷ s) = bytes (c ∷ []) ∷ scan pieces s
