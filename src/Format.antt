-- ===== src/Format.antt =====
-- code/Format.cpp: conversions between values and text. A `const char *` is an Option whose `none` is
-- the null pointer; a conversion that throws gives `none`. Bytes are unsigned here: where the source
-- shifts a signed char, the shift is written out.
pub mod Logic
pub mod Hex
pub mod Comma
mod Tests
use mlnotes.Base.{
  ℕ, zero, suc, ◌+◌, ◌-◌, ◌/◌, ◌%◌, Bool, true, false, not, ◌&&◌, ◌||◌, Option, none, some, List,
  [], ◌∷◌, ◌++◌, length, get_or, take, drop, ltb, leb, ◌==◌, if◌then◌else◌, codes, c_text,
  Option-cases,
}
use mlnotes.StringTools.Edit.{to_lower_case}

unfoldable pub same_bytes : List ℕ → List ℕ → Bool
same_bytes [] [] = true
same_bytes [] (d ∷ b) = false
same_bytes (c ∷ a) [] = false
same_bytes (c ∷ a) (d ∷ b) = c == d && same_bytes a b

-- Whether `strcmp` and `strcasecmp` are 0; the latter compares lower-case bytes.
unfoldable pub strcmp_eq : List ℕ → List ℕ → Bool
strcmp_eq a b = same_bytes (c_text a) (c_text b)

unfoldable pub strcasecmp_eq : List ℕ → List ℕ → Bool
strcasecmp_eq a b = same_bytes (to_lower_case a) (to_lower_case b)

-- The Boolean result says whether `result` was set; together they are an Option.
unfoldable pub get_bool_value : List ℕ → Option Bool
get_bool_value val =
    if strcasecmp_eq val (codes "yes")
      || strcasecmp_eq val (codes "y")
      || strcmp_eq val (codes "1")
      || strcasecmp_eq val (codes "true")
    then some true
    else if strcasecmp_eq val (codes "no")
        || strcasecmp_eq val (codes "n")
        || strcmp_eq val (codes "0")
        || strcasecmp_eq val (codes "false")
    then some false
    else none

unfoldable pub string_to_bool : Option (List ℕ) → Option Bool
string_to_bool none = none
string_to_bool (some val) = get_bool_value val

unfoldable pub string_to_bool_or : Option (List ℕ) → Bool → Bool
string_to_bool_or none default_value = default_value
string_to_bool_or (some val) default_value = elim (get_bool_value val) [
  | none ↦ default_value
  | some result ↦ result
]

unfoldable pub bool_to_string : Bool → List ℕ
bool_to_string val = if val then codes "yes" else codes "no"

unfoldable pub bool_to_string_yn : Bool → List ℕ
bool_to_string_yn val = if val then codes "Y" else codes "N"

unfoldable pub nibble_to_char : ℕ → ℕ
nibble_to_char c =
    if ltb c 10 then b'0' + c else if ltb 9 c && ltb c 16 then b'A' + c - 10 else b'?'

-- `isprint` of the C locale.
unfoldable pub isprint : ℕ → Bool
isprint c = leb 32 c && leb c 126

-- `(*ptr) >> 4` of a signed char, converted to unsigned char: a byte from 128 on is negative.
unfoldable pub high_nibble : ℕ → ℕ
high_nibble c = if ltb c 128 then c / 16 else 240 + c / 16

-- `((unsigned int) (*ptr) << 28) >> 28`
unfoldable pub low_nibble : ℕ → ℕ
low_nibble c = c % 16

-- The loop over the bytes; `first` is `ptr == data`.
unfoldable pub hex_loop : List ℕ → Bool → List ℕ
hex_loop [] first = []
hex_loop (c ∷ left) first =
    (if first then [] else codes ", ")
    ++ b'0'
      ∷ b'x'
      ∷ nibble_to_char (high_nibble c)
      ∷ nibble_to_char (low_nibble c)
      ∷ (if isprint c then b' ' ∷ b'(' ∷ c ∷ b')' ∷ b' ' ∷ [] else [])
    ++ hex_loop left false

unfoldable pub to_hex_string : Option (List ℕ) → ℕ → List ℕ
to_hex_string none data_size = codes "<EMPTY BUFFER>"
to_hex_string (some bytes) data_size =
    if data_size == 0 then codes "<EMPTY BUFFER>" else hex_loop (take data_size bytes) true

-- `value.find('.')`
unfoldable pub find_dot : List ℕ → Option ℕ
find_dot [] = none
find_dot (c ∷ value) =
    if c == b'.' then some 0 else elim (find_dot value) [ none ↦ none | some i ↦ some (suc i) ]

unfoldable pub isdigit : ℕ → Bool
isdigit c = leb b'0' c && leb c b'9'

unfoldable pub insert_comma : List ℕ → ℕ → List ℕ
insert_comma result i = take i result ++ b',' ∷ drop i result

-- `for (int i=pos-1; i>0; i--)` by its index.
unfoldable pub comma_loop : ℕ → List ℕ → ℕ → List ℕ
comma_loop zero result step = result
comma_loop (suc i) result step =
    let third = step + 1 == 3 in
    let rest =
      comma_loop i (if third then insert_comma result (suc i) else result)
        (if third then 0 else step + 1) in
    if not (isdigit (get_or result (suc i) 0)) then result else rest

unfoldable pub to_comma_formatted : List ℕ → List ℕ
to_comma_formatted value = elim (find_dot value) [
  | none ↦ comma_loop (length value - 1) value 0
  | some pos ↦ comma_loop (pos - 1) value 0
]

-- The conversions by `sscanf`, which gives the number of fields it has set and the value.
module _ {V : Type 0} (sscanf : List ℕ → ℕ × V) where
  unfoldable pub string_to_int32 : Option (List ℕ) → Option V
  string_to_int32 none = none
  string_to_int32 (some val) =
      let (fields, result) = sscanf val in if not (1 == fields) then none else some result

  unfoldable pub string_to_int32_or : Option (List ℕ) → V → V
  string_to_int32_or none default_value = default_value
  string_to_int32_or (some val) default_value =
      let (fields, result) = sscanf val in if not (1 == fields) then default_value else result
