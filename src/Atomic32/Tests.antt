-- ===== src/Atomic32/Tests.antt =====
-- The theorems about code/atomic32.hpp at concrete inputs.
use mlnotes.Base.{ℕ, ◌+◌, ◌%◌, ◌^◌, ◌≡◌, ◌≢◌, inr, refl, true, false, List, [], ◌∷◌, arith}
use mlnotes.Base.Int.{pos, negsuc, ◌+ℤ◌}
use mlnotes.Atomic32.{
  step, run, add, Call, plus_assign, minus_assign, post_increment, pre_decrement, flag,
}
use mlnotes.Atomic32.Interleaving.{neither, left, right, total, run-Interleaving, tickets_distinct}
use mlnotes.Atomic32.Swap.{attempts, run-attempts, Compares, six_comparisons}

abbrev first_calls : List Call
first_calls = plus_assign (pos 5) ∷ pre_decrement ∷ []

abbrev second_calls : List Call
second_calls = minus_assign (pos 9) ∷ post_increment ∷ []

abbrev mixed_calls : List Call
mixed_calls = minus_assign (pos 9) ∷ plus_assign (pos 5) ∷ post_increment ∷ pre_decrement ∷ []

run-Interleaving_example :
    ((run mixed_calls 3).1 ≡ (run second_calls (run first_calls 3).1).1)
    × ((run mixed_calls 3).1 ≡ (3 + total first_calls + total second_calls) % 2 ^ 32)
run-Interleaving_example =
    run-Interleaving {xs = first_calls} {ys = second_calls} {zs = mixed_calls} 3
      (right _ (left _ (right _ (left _ neither)))) (tt, (tt, tt)) (tt, (tt, tt)) (omega arith)

tickets_distinct_example : ◌≢◌ {A = ℕ} 4294967295 1
unfolding run step add
tickets_distinct_example =
    tickets_distinct 3 4294967295 0 2 4294967295 1 (omega arith) (omega arith) (omega arith)
      (omega arith) refl refl

-- Three threads expect 3; the second of those that lose has a result whose upper byte is not zero.
run-attempts_example :
    run (attempts (pos 3) ((0, pos 4) ∷ (0, pos 5) ∷ (1, negsuc 0) ∷ [])) 3
    ≡ (flag true ∷ flag false ∷ flag true ∷ [], 4)
run-attempts_example =
    run-attempts (pos 3) (pos 4) 0 ((0, pos 5) ∷ (1, negsuc 0) ∷ [])
      (λ e. omega arith, (λ e. omega arith, (λ e. omega arith, tt)))

-- -1 is compared as the greatest number of 32 bits.
six_comparisons_example : Compares 5 (negsuc 0) 4294967295
unfolding ◌+ℤ◌
six_comparisons_example = six_comparisons 5 4294967295 (negsuc 0) (omega arith) (inr refl)
