-- ===== src/Base/Arrays.antt =====
-- Arrays as lists, and the checked copy between them that stands for `std::copy` and `memcpy`.
use Prim.Native.Nat.{ℕ, ◌+◌, ◌-◌, ◌≤◌, ◌<◌}
use mathlib.Core.Path.{◌≡◌}
use mathlib.Core.Bool.{◌&&◌}
use mathlib.Core.List.{List, ◌++◌}
use mathlib.Core.Option.{Option, none, some}
use native.Mathlib.Omega.{arith}
use mlnotes.Base.Tests.{leb, if◌then◌else◌}
use mlnotes.Base.Lists.{length, take, drop, lengths, at_index, eq_of_get_elem?}

module _ {A : Type 0} where
  -- The elements `xs` over those of `dst` from index `at` on.
  abbrev pub paste : List A → ℕ → List A → List A
  paste dst at xs = take at dst ++ (xs ++ drop (at + length xs) dst)

  -- `std::copy(&src[from], &src[to], &dst[at])`
  unfoldable pub std_copy : List A → ℕ → ℕ → List A → ℕ → Option (List A)
  std_copy src from to dst at =
      if leb from to && leb to (length src) && leb (at + (to - from)) (length dst)
      then some (paste dst at (take (to - from) (drop from src)))
      else none

  pub length-paste :
      (dst : List A) (at : ℕ) (xs : List A)
      → at + length xs ≤ length dst
      → length (paste dst at xs) ≡ length dst
  length-paste dst at xs h = simp lengths (omega arith)

  -- Pasting at the front.
  pub paste_front : (dst xs : List A) (n : ℕ) → length xs ≡ n → paste dst 0 xs ≡ xs ++ drop n dst
  paste_front dst xs n h = eq_of_get_elem? _ _ (λ i. simp (at_index, h) (ground arith))

  -- Pasting behind a front that is pasted.
  pub paste_behind :
      (dst xs ys : List A) (n m : ℕ)
      → length xs ≡ n
      → length ys ≡ m - n
      → n ≤ m
      → m ≤ length dst
      → paste (paste dst 0 xs) n ys ≡ (xs ++ ys) ++ drop m dst
  paste_behind dst xs ys n m h k hnm hm =
      eq_of_get_elem? _ _ (λ i. simp (at_index, lengths, h, k) (ground arith))

  -- A copy of `n` elements within both arrays succeeds.
  pub std_copy_within :
      (src : List A) (from to : ℕ) (dst : List A) (at n : ℕ)
      → to ≡ from + n
      → to ≤ length src
      → at + n ≤ length dst
      → std_copy src from to dst at ≡ some (paste dst at (take n (drop from src)))
  unfolding std_copy
  std_copy_within src from to dst at n h₁ h₂ h₃ =
      let e : to - from ≡ n = omega arith in rw e (ground arith)

  -- A copy past the end of the destination fails.
  pub std_copy_outside :
      (src : List A) (from to : ℕ) (dst : List A) (at : ℕ)
      → length dst < at + (to - from)
      → std_copy src from to dst at ≡ none
  unfolding std_copy
  std_copy_outside src from to dst at h = ground arith
