-- ===== src/Atomic32.antt =====
-- code/atomic32.hpp and code/atomic32.cpp: a 32-bit number that threads share. A member function is one
-- locked instruction, which takes the value to what it returns and the new value.
pub mod Interleaving
pub mod Swap
mod Tests
use mlnotes.Base.{
  ℕ, zero, suc, ◌+◌, ◌-◌, ◌*◌, ◌%◌, ◌^◌, ◌≡◌, Bool, true, false, not, List, [], ◌∷◌, ltb, leb, ◌==◌,
  if◌then◌else◌, add32, sub32,
}
use mlnotes.Base.Int.{ℤ, pos, negsuc}

-- `static_cast<uint32>` of an integer.
abbrev pub to_uint32 : ℤ → ℕ
to_uint32 (pos n) = n % 2 ^ 32
to_uint32 (negsuc n) = 2 ^ 32 - 1 - n % 2 ^ 32

unfoldable pub inc : ℕ → ℕ
inc m_val = add32 m_val 1

unfoldable pub dec : ℕ → ℕ
dec m_val = sub32 m_val 1

-- `xaddl`
unfoldable pub add : ℕ → ℕ → ℕ × ℕ
add val m_val = (m_val, add32 m_val val)

-- The negation of the operand as an int32, which wraps.
unfoldable pub sub : ℕ → ℕ → ℕ × ℕ
sub val m_val = add (sub32 0 val) m_val

-- `xchgl`
unfoldable pub xchg : ℕ → ℕ → ℕ × ℕ
xchg val m_val = (m_val, val)

-- `cmpxchgl`
unfoldable pub cmpx : ℕ → ℕ → ℕ → ℕ × ℕ
cmpx cmp val m_val = (m_val, if m_val == cmp then val else m_val)

-- `sete` writes the lower byte of a variable of 16 bits; `upper` is what its other byte holds.
unfoldable pub cas : ℕ → ℕ → ℕ → ℕ → Bool × ℕ
cas upper cmp val m_val =
    let result = upper * 256 + (if m_val == cmp then 1 else 0) in
    (not (result == 0), if m_val == cmp then val else m_val)

-- The operators that change the value.
pub data Call : Type 0 where
  assign : ℤ → Call
  plus_assign : ℤ → Call
  minus_assign : ℤ → Call
  pre_increment : Call
  post_increment : Call
  pre_decrement : Call
  post_decrement : Call
  exchange : ℤ → Call
  compare_exchange : ℤ → ℤ → Call
  compare_and_swap : (upper : ℕ) → ℤ → ℤ → Call

-- What an operator returns: a reference to the object, a value or a flag.
pub data Reply : Type 0 where
  itself : Reply
  value : ℕ → Reply
  flag : Bool → Reply

unfoldable pub step : Call → ℕ → Reply × ℕ
step (assign val) m_val = (itself, (xchg (to_uint32 val) m_val).1)
step (plus_assign val) m_val = (itself, (add (to_uint32 val) m_val).1)
step (minus_assign val) m_val = (itself, (sub (to_uint32 val) m_val).1)
step pre_increment m_val = (itself, inc m_val)
step post_increment m_val = let r = add 1 m_val in (value r.0, r.1)
step pre_decrement m_val = (itself, dec m_val)
step post_decrement m_val = let r = sub 1 m_val in (value r.0, r.1)
step (exchange val) m_val = let r = xchg (to_uint32 val) m_val in (value r.0, r.1)
step (compare_exchange cmp val) m_val =
    let r = cmpx (to_uint32 cmp) (to_uint32 val) m_val in (value r.0, r.1)
step (compare_and_swap upper cmp val) m_val =
    let r = cas upper (to_uint32 cmp) (to_uint32 val) m_val in (flag r.0, r.1)

-- The comparisons read the value once.
unfoldable pub equal : ℕ → ℤ → Bool
equal m_val val = m_val == to_uint32 val

unfoldable pub not_equal : ℕ → ℤ → Bool
not_equal m_val val = not (m_val == to_uint32 val)

unfoldable pub greater : ℕ → ℤ → Bool
greater m_val val = ltb (to_uint32 val) m_val

unfoldable pub greater_equal : ℕ → ℤ → Bool
greater_equal m_val val = leb (to_uint32 val) m_val

unfoldable pub less : ℕ → ℤ → Bool
less m_val val = ltb m_val (to_uint32 val)

unfoldable pub less_equal : ℕ → ℤ → Bool
less_equal m_val val = leb m_val (to_uint32 val)

-- A sequence of calls, of whatever threads: the replies and the last value.
unfoldable pub run : List Call → ℕ → List Reply × ℕ
run [] m_val = ([], m_val)
run (c ∷ cs) m_val = let s = step c m_val in let rest = run cs s.1 in (s.0 ∷ rest.0, rest.1)
