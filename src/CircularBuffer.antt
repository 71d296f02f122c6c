-- ===== src/CircularBuffer.antt =====
-- code/CircularBuffer.hpp: a bounded queue over an array of `capacity + 1` elements.
-- `std::copy` is the checked copy of Base/Arrays.antt: a range that runs out of an array is `none`,
-- where the program has undefined behaviour. All counters are uint32 and wrap.
mod Window
pub mod Inv
mod Copy
pub mod Write
pub mod Read
mod Queue
mod Tests
use mlnotes.Base.{
  ℕ, ◌+◌, ◌-◌, ◌%◌, ◌^◌, ◌≡◌, Bool, true, false, ◌&&◌, ◌||◌, Option, none, some, List, [], ◌∷◌,
  ◌++◌, ltb, leb, ◌==◌, if◌then◌else◌, ◌>>=◌, length, take, drop, replicate, add32, sub32, to_int32,
}
use mlnotes.Base.Arrays.{std_copy}
use mlnotes.Base.Int.{ℤ, pos, negsuc}

-- The fields of the class, in their order; the elements are of any type.
pub record CircularBuffer (A : Type 0) : Type 0 where
  pub max_size : ℕ
  pub capacity : ℕ
  pub begin : ℕ
  pub end : ℕ
  pub size : ℕ
  pub buffer : List A

abbrev pub e_nospace : ℤ
e_nospace = negsuc 0

abbrev pub e_nodata : ℤ
e_nodata = negsuc 1

abbrev pub is_nodata : ℤ → Bool
is_nodata (pos n) = false
is_nodata (negsuc n) = n == 1

module _ {A : Type 0} where
  -- The constructor; `fill` is a default-constructed element.
  unfoldable pub init : A → ℕ → CircularBuffer A
  init fill cap = record {
    max_size = cap;
    capacity = add32 cap 1;
    begin = 0;
    end = 0;
    size = 0;
    buffer = replicate (add32 cap 1) fill;
  }

  -- The copy constructor: a new array of `capacity` elements, filled from the other's.
  unfoldable pub copy : A → CircularBuffer A → Option (CircularBuffer A)
  copy fill cbt = do
    buffer ← std_copy cbt.buffer 0 cbt.capacity (replicate cbt.capacity fill) 0
    some (record cbt { buffer = buffer })

  -- `operator=`; the test `&cbt == this` is the argument `aliased`.
  unfoldable pub assign : A → Bool → CircularBuffer A → CircularBuffer A → Option (CircularBuffer A)
  unfolding copy
  assign fill aliased this cbt = if aliased then some this else copy fill cbt

  unfoldable pub write : CircularBuffer A → List A → ℕ → Option (ℤ × CircularBuffer A)
  write b pt count =
      let newsize = add32 b.size count in
      let onright = sub32 b.capacity b.end in
      if ltb b.max_size newsize
      then some (e_nospace, b)
      else if ltb b.end b.begin || leb count onright
      then std_copy pt 0 count b.buffer b.end >>= (λ buffer. some (
        to_int32 count,
        record b { end = add32 b.end count % b.capacity; size = newsize; buffer = buffer },
      ))
      else do
        right ← std_copy pt 0 onright b.buffer b.end
        buffer ← std_copy pt onright count right 0
        some (
          to_int32 count,
          record b { end = sub32 count onright; size = newsize; buffer = buffer },
        )

  unfoldable pub skip : CircularBuffer A → ℕ → ℤ × CircularBuffer A
  skip b count =
      if leb b.size count
      then (to_int32 b.size, record b { begin = 0; end = 0; size = sub32 b.size b.size })
      else (
        to_int32 count,
        record b { begin = add32 b.begin count % b.capacity; size = sub32 b.size count },
      )

  -- The second part of the result is the caller's array `pt`.
  unfoldable pub peek : CircularBuffer A → List A → ℕ → Option (ℤ × List A)
  peek b pt count =
      let onright = sub32 b.capacity b.begin in
      if ltb b.size count
      then some (e_nodata, pt)
      else if ltb b.begin b.end || leb count onright
      then std_copy b.buffer b.begin (add32 b.begin count) pt 0
        >>= (λ out. some (to_int32 count, out))
      else do
        right ← std_copy b.buffer b.begin (add32 b.begin onright) pt 0
        out ← std_copy b.buffer 0 (sub32 count onright) right onright
        some (to_int32 count, out)

  unfoldable pub read : CircularBuffer A → List A → ℕ → Option (ℤ × List A × CircularBuffer A)
  unfolding peek skip
  read b pt count = do
    (result, out) ← peek b pt count
    if is_nodata result
        then some (e_nodata, out, b)
        else let (skipped, rest) = skip b count in some (skipped, out, rest)
