-- ===== src/Atomic32/Swap.antt =====
-- The compare-and-swap and the comparisons of code/atomic32.hpp and code/atomic32.cpp.
use mlnotes.Base.{
  ℕ, ◌+◌, ◌*◌, ◌^◌, ◌≤◌, ◌<◌, ◌≡◌, ◌≢◌, ◌↔◌, ◌⊎◌, inl, inr, refl, true, false, List, [], ◌∷◌, map,
  arith, ltb, ◌==◌, ap, All,
}
use mlnotes.Base.Int.{ℤ, pos, negsuc, ◌+ℤ◌, pos_part, neg_part, +ℤ_parts}
use mlnotes.Atomic32.{
  to_uint32, step, run, cas, compare_and_swap, Call, Reply, flag, equal, not_equal, greater,
  greater_equal, less, less_equal,
}

-- Calls of `compare_and_swap` that all expect the same value: for each the byte that its result is
-- not set in, and its new value.
abbrev pub attempts : ℤ → List (ℕ × ℤ) → List Call
attempts cmp tries = map (λ a. compare_and_swap a.0 cmp a.1) tries

-- No new value is the expected one.
abbrev pub AllOther : ℤ → List (ℕ × ℤ) → Type 0
AllOther cmp tries = All (λ a. to_uint32 a.1 ≢ to_uint32 cmp) tries

-- What an attempt that swaps nothing returns.
abbrev pub refusal : ℕ × ℤ → Reply
refusal a = flag (ltb 0 a.0)

swap_same :
    (cmp : ℤ) (upper : ℕ) (val : ℤ)
    → step (compare_and_swap upper cmp val) (to_uint32 cmp) ≡ (flag true, to_uint32 val)
unfolding step cas
swap_same cmp upper val =
    let same : (to_uint32 cmp == to_uint32 cmp) ≡ true = ground arith in
    let set : (upper * 256 + 1 == 0) ≡ false = ground arith in rw (same, set) refl

swap_other :
    (m_val upper : ℕ) (cmp val : ℤ)
    → m_val ≢ to_uint32 cmp
    → step (compare_and_swap upper cmp val) m_val ≡ (refusal (upper, val), m_val)
unfolding step cas
swap_other m_val upper cmp val other =
    let differs : (m_val == to_uint32 cmp) ≡ false = ground (arith, other) in
    rw differs (ap (λ t. (flag t, m_val)) (ground arith))

run-refusals :
    (m_val : ℕ) (cmp : ℤ) (tries : List (ℕ × ℤ))
    → m_val ≢ to_uint32 cmp
    → run (attempts cmp tries) m_val ≡ (map refusal tries, m_val)
unfolding run
run-refusals m_val cmp [] other = refl
run-refusals m_val cmp (a ∷ tries) other =
    rw (swap_other m_val a.0 cmp a.1 other, run-refusals m_val cmp tries other) refl

-- Of any number of compare-and-swaps that all expect the value there is, and that would all change
-- it, whatever threads they are of, the first alone swaps: it returns true and its new value stays.
-- Every later one returns false if the upper byte of its result, which it does not set, is zero;
-- otherwise it returns true although it has swapped nothing.
pub run-attempts :
    (cmp val : ℤ) (upper : ℕ) (tries : List (ℕ × ℤ))
    → AllOther cmp ((upper, val) ∷ tries)
    → run (attempts cmp ((upper, val) ∷ tries)) (to_uint32 cmp)
      ≡ (flag true ∷ map refusal tries, to_uint32 val)
unfolding run
run-attempts cmp val upper tries others =
    rw (swap_same cmp upper val, run-refusals (to_uint32 val) cmp tries others.0) refl

-- The six comparisons with `val` are those with the number `k`.
abbrev pub Compares : ℕ → ℤ → ℕ → Type 0
Compares m_val val k =
    ((equal m_val val ≡ true) ↔ (m_val ≡ k))
    × ((not_equal m_val val ≡ true) ↔ (m_val ≢ k))
    × ((greater m_val val ≡ true) ↔ (k < m_val))
    × ((greater_equal m_val val ≡ true) ↔ (k ≤ m_val))
    × ((less m_val val ≡ true) ↔ (m_val < k))
    × ((less_equal m_val val ≡ true) ↔ (m_val ≤ k))

to_uint32_lem :
    (k : ℕ) (val : ℤ)
    → k < 2 ^ 32
    → (val ≡ pos k) ⊎ (val +ℤ pos (2 ^ 32) ≡ pos k)
    → to_uint32 val ≡ k
to_uint32_lem k (pos n) small (inl same) = omega (arith, ap pos_part same)
to_uint32_lem k (pos n) small (inr over) =
    let high = ap pos_part over in
    let low = ap neg_part over in absurd (omega (arith, high, low, +ℤ_parts (pos n) (pos (2 ^ 32))))
to_uint32_lem k (negsuc n) small (inl same) = absurd (omega (arith, ap neg_part same))
to_uint32_lem k (negsuc n) small (inr over) =
    let high = ap pos_part over in
    let low = ap neg_part over in omega (arith, high, low, +ℤ_parts (negsuc n) (pos (2 ^ 32)))

-- All six comparisons with an integer are those with the number below 2 ^ 32 that is the integer, or
-- the integer and 2 ^ 32 more: an int32 that is not negative is compared as the number it is, and a
-- negative one as a number from 2 ^ 31 on.
pub six_comparisons :
    (m_val k : ℕ) (val : ℤ)
    → k < 2 ^ 32
    → (val ≡ pos k) ⊎ (val +ℤ pos (2 ^ 32) ≡ pos k)
    → Compares m_val val k
unfolding equal not_equal greater greater_equal less less_equal
six_comparisons m_val k val small stands = rw (to_uint32_lem k val small stands) (
  (λ t. ground arith, λ same. ground arith),
  (λ t. ground arith, λ other. ground arith),
  (λ t. ground arith, λ over. ground arith),
  (λ t. ground arith, λ over. ground arith),
  (λ t. ground arith, λ below. ground arith),
  (λ t. ground arith, λ below. ground arith),
)
