-- ===== src/StringBuilder/Invariant.antt =====
-- The representation invariant of code/StringBuilder.cpp: the array has `buffer_size` bytes, and one
-- is left for the terminating zero.
use mlnotes.Base.{ℕ, ◌+◌, ◌^◌, ◌≤◌, ◌<◌, ◌≡◌, [], arith, length, length-replicate, refl}
use mlnotes.StringBuilder.{StringBuilder, init, str}

pub record IsValid (sb : StringBuilder) : Type 0 where
  pub array : length sb.buffer ≡ sb.buffer_size
  pub room : sb.insertion_pos < sb.buffer_size
  pub word : sb.buffer_size < 2 ^ 32

-- A new builder is valid and empty, also at size 0, where one byte is taken.
pub init-IsValid :
    (fill n : ℕ)
    → n < 2 ^ 32
    → IsValid (init fill n) × (str (init fill n) ≡ []) × ((init fill n).buffer_size ≤ n + 1)
unfolding init str
init-IsValid fill n h = (
  record { array = length-replicate _ fill; room = ground arith; word = ground arith },
  refl,
  ground arith,
)
