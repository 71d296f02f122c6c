-- ===== src/CircularBuffer/Copy.antt =====
-- The copy constructor and `operator=` of code/CircularBuffer.hpp.
use mlnotes.Base.Arrays.{paste, std_copy_within}
use mlnotes.Base.{
  ℕ, ◌≡◌, some, List, arith, length, take, replicate, length-replicate, lengths, Bool, true,
  at_index, eq_of_get_elem?, get_elem?-eq-none,
}
use mlnotes.CircularBuffer.{CircularBuffer, copy, assign}
use mlnotes.CircularBuffer.Inv.{IsValid}

module _ {A : Type 0} where
  paste_all : (xs ys : List A) (n : ℕ) → n ≡ length xs → n ≡ length ys → paste ys 0 (take n xs) ≡ xs
  paste_all xs ys n h k = eq_of_get_elem? _ _ (λ i.
      simp (at_index, lengths) (ground (arith, get_elem?-eq-none xs i, get_elem?-eq-none ys i)))

  -- A copied buffer is equal to the original, whatever the new array held.
  pub copy-eq : (fill : A) {b : CircularBuffer A} → IsValid b → copy fill b ≡ some b
  unfolding copy
  copy-eq fill {b} v = ground (
    arith,
    std_copy_within b.buffer 0 b.capacity (replicate b.capacity fill) 0 b.capacity,
    length-replicate b.capacity fill,
    paste_all b.buffer (replicate b.capacity fill) b.capacity,
  )

  -- Assignment from a valid buffer leaves a buffer equal to it, also where both are one object.
  pub assign-eq :
      (fill : A) (aliased : Bool) {this cbt : CircularBuffer A}
      → IsValid cbt
      → (aliased ≡ true → this ≡ cbt)
      → assign fill aliased this cbt ≡ some cbt
  unfolding assign
  assign-eq fill aliased {this} {cbt} v same = ground (arith, copy-eq fill v)
