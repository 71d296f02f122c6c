-- ===== src/StringBuilder.antt =====
-- code/StringBuilder.cpp: a growing buffer of bytes. Sizes are uint32 and wrap; `memcpy` is the
-- checked copy of Base/Arrays.antt. The bytes of a new array are unspecified: they are `fill`.
-- The allocation is taken to succeed.
pub mod Invariant
pub mod Append
pub mod Sequence
pub mod Views
mod Tests
use mlnotes.Base.{
  ℕ, ◌+◌, ◌-◌, ◌*◌, ◌%◌, ◌^◌, ◌≡◌, Bool, true, false, Option, none, some, List, [], ◌∷◌, ◌++◌, ltb,
  leb, ◌==◌, if◌then◌else◌, ◌>>=◌, length, take, drop, replicate, add32, sub32, mul32, codes,
  c_text,
}
use mlnotes.Base.Arrays.{paste, std_copy}
use mlnotes.Base.Int.{ℤ}

pub record StringBuilder : Type 0 where
  pub buffer_size : ℕ
  pub buffer : List ℕ
  pub insertion_pos : ℕ

module _ (fill : ℕ) where
  unfoldable pub init : ℕ → StringBuilder
  init initial_size =
      let size = if leb initial_size 0 then 1 else initial_size in
      record { buffer_size = size; buffer = replicate size fill; insertion_pos = 0 }

  unfoldable pub expand : StringBuilder → ℕ → Option StringBuilder
  expand sb expand_by =
      let new_buffer_size =
        if ltb sb.buffer_size expand_by
        then add32 sb.buffer_size expand_by
        else mul32 sb.buffer_size 2 in
      do
        new_buffer ← std_copy sb.buffer 0 sb.insertion_pos (replicate new_buffer_size fill) 0
        some (record sb { buffer_size = new_buffer_size; buffer = new_buffer })

  -- `append(const char *data, uint32 length)`
  unfoldable pub append : StringBuilder → List ℕ → ℕ → Option StringBuilder
  append sb source len = do
    wide ←
        if ltb sb.buffer_size (add32 (add32 sb.insertion_pos len) 1)
        then expand sb (add32 len 1)
        else some sb
    buffer ← std_copy source 0 len wide.buffer wide.insertion_pos
    some (record wide { buffer = buffer; insertion_pos = add32 wide.insertion_pos len })

  -- `append(const std::string &)`; the length is cast to uint32.
  unfoldable pub append_string : StringBuilder → List ℕ → Option StringBuilder
  append_string sb [] = some sb
  append_string sb (c ∷ str) = append sb (c ∷ str) (length (c ∷ str) % 2 ^ 32)

  -- `append(const char *)`; a null pointer is `none`.
  unfoldable pub append_c_string : StringBuilder → Option (List ℕ) → Option StringBuilder
  append_c_string sb none = some sb
  append_c_string sb (some sz) = append sb sz (length (c_text sz) % 2 ^ 32)

  unfoldable pub append_char : StringBuilder → ℕ → Option StringBuilder
  append_char sb c = append sb (c ∷ []) 1

  -- The copy constructor.
  unfoldable pub copy : StringBuilder → Option StringBuilder
  copy sb =
      let size = add32 sb.insertion_pos 1 in
      let fresh : StringBuilder = record {
        buffer_size = size;
        buffer = replicate size fill;
        insertion_pos = 0;
      } in
      if sb.insertion_pos == 0 then some fresh else append fresh sb.buffer sb.insertion_pos

  unfoldable pub insert_bool : StringBuilder → Bool → Option StringBuilder
  insert_bool sb value = append_c_string sb (some (if value then codes "true" else codes "false"))

  -- The other `operator<<` of numbers: `print` is `sprintf` with the format of that operator, which
  -- leaves its text in a buffer of 512 zero bytes.
  module _ {V : Type 0} (print : V → List ℕ) where
    unfoldable pub insert_number : StringBuilder → V → Option StringBuilder
    insert_number sb value =
        let buf = paste (replicate 512 0) 0 (print value) in
        append sb buf (length (c_text buf) % 2 ^ 32)

unfoldable pub chop_right : StringBuilder → ℕ → StringBuilder
chop_right sb len =
    if ltb len sb.insertion_pos
    then record sb { insertion_pos = sub32 sb.insertion_pos len }
    else sb

unfoldable pub str : StringBuilder → List ℕ
str sb = take sb.insertion_pos sb.buffer

unfoldable pub str_from_right : StringBuilder → ℕ → List ℕ
unfolding str
str_from_right sb len =
    if ltb len sb.insertion_pos
    then take len (drop (sub32 sb.insertion_pos len) sb.buffer)
    else str sb

-- The terminating zero is written into the buffer; the result is the buffer.
unfoldable pub c_str : StringBuilder → Option (StringBuilder × List ℕ)
c_str sb = do
  buffer ← std_copy (0 ∷ []) 0 1 sb.buffer sb.insertion_pos
  some (record sb { buffer = buffer }, buffer)

unfoldable pub count : StringBuilder → ℕ
count sb = sb.insertion_pos

unfoldable pub is_empty : StringBuilder → Bool
is_empty sb = sb.insertion_pos == 0

unfoldable pub clear : StringBuilder → StringBuilder
clear sb = record sb { insertion_pos = 0 }
