-- ===== src/CircularBuffer/Inv.antt =====
-- The representation invariant of code/CircularBuffer.hpp and the elements that a buffer holds.
use mlnotes.Base.{
  ℕ, ◌+◌, ◌^◌, ◌≤◌, ◌<◌, ◌≡◌, ◌⊎◌, inl, refl, List, [], arith, length, length-replicate, lengths,
}
use mlnotes.CircularBuffer.{CircularBuffer, init}
use mlnotes.CircularBuffer.Window.{window}

module _ {A : Type 0} where
  -- One slot is kept free, so that `begin` and `end` meet only in an empty buffer. The capacity is
  -- at most half the range of uint32, so that no sum of two counters wraps.
  pub record IsValid (b : CircularBuffer A) : Type 0 where
    pub slots : b.capacity ≡ b.max_size + 1
    pub small : b.capacity ≤ 2 ^ 31
    pub array : length b.buffer ≡ b.capacity
    pub begin_in : b.begin < b.capacity
    pub end_in : b.end < b.capacity
    pub fits : b.size ≤ b.max_size
    pub linked : (b.begin + b.size ≡ b.end) ⊎ (b.begin + b.size ≡ b.end + b.capacity)

  -- What a client sees: the `size` elements from `begin` on, round the end of the array.
  abbrev pub contents : CircularBuffer A → List A
  contents b = window b.buffer b.begin b.size

  pub length-contents : {b : CircularBuffer A} → IsValid b → length (contents b) ≡ b.size
  length-contents v = simp lengths (omega arith)

  -- A new buffer is valid and empty, for a capacity below half the range of uint32.
  pub init-IsValid :
      (fill : A) (cap : ℕ)
      → cap < 2 ^ 31
      → IsValid (init fill cap) × (contents (init fill cap) ≡ [])
  unfolding init
  init-IsValid fill cap h = (
    record {
      slots = omega arith;
      small = omega arith;
      array = length-replicate _ fill;
      begin_in = omega arith;
      end_in = omega arith;
      fits = omega arith;
      linked = inl refl;
    },
    refl,
  )
