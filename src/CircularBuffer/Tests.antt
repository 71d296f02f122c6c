-- ===== src/CircularBuffer/Tests.antt =====
-- Runs of the buffer of code/CircularBuffer.hpp, and its theorems at concrete buffers.
use mlnotes.Base.Arrays.{std_copy}
use mlnotes.Base.{
  ℕ, length, ◌-◌, ◌^◌, ◌≡◌, refl, none, some, List, [], ◌∷◌, arith, replicate, length-replicate,
}
use mlnotes.Base.Int.{pos}
use mlnotes.CircularBuffer.{CircularBuffer, write, e_nospace}
use mlnotes.CircularBuffer.Inv.{IsValid}
use mlnotes.CircularBuffer.Write.{write-eq-none_of_wrap}
use mlnotes.CircularBuffer.Queue.{Op, put, discard, look, get, queue_run, run, run_refines}

-- 8 and 9, round the end of an array of four.
abbrev round_end : CircularBuffer ℕ
round_end = record {
  max_size = 3;
  capacity = 4;
  begin = 3;
  end = 1;
  size = 2;
  buffer = 9 ∷ 0 ∷ 0 ∷ 8 ∷ [];
}

-- 7 alone, in the third slot: the next two elements go round the end.
abbrev third : CircularBuffer ℕ
third = record {
  max_size = 3;
  capacity = 4;
  begin = 2;
  end = 3;
  size = 1;
  buffer = 0 ∷ 0 ∷ 7 ∷ 0 ∷ [];
}

abbrev calls : List (Op ℕ)
calls =
    put (1 ∷ 2 ∷ []) ∷ put (5 ∷ 6 ∷ []) ∷ look (0 ∷ 0 ∷ 0 ∷ []) 2 ∷ get (0 ∷ []) 1 ∷ discard 9 ∷ []

round_end-IsValid : IsValid round_end
round_end-IsValid = omega arith

third-IsValid : IsValid third
third-IsValid = omega arith

write_wraps :
    write third (1 ∷ 2 ∷ []) 2
    ≡ some (
      pos 2,
      record {
        max_size = 3;
        capacity = 4;
        begin = 2;
        end = 1;
        size = 3;
        buffer = 2 ∷ 0 ∷ 7 ∷ 1 ∷ [];
      },
    )
unfolding write std_copy
write_wraps = refl

run-third :
    run third calls
    ≡ some (
        (pos 2, 1 ∷ 2 ∷ [])
        ∷ (e_nospace, 5 ∷ 6 ∷ [])
        ∷ (pos 2, 7 ∷ 1 ∷ 0 ∷ [])
        ∷ (pos 1, 7 ∷ [])
        ∷ (pos 2, [])
        ∷ [])
run-third = run_refines calls third third-IsValid (omega arith)

-- A source too long to be written out.
zeros : ℕ → List ℕ
zeros n = replicate n 0

length-zeros : (n : ℕ) → length (zeros n) ≡ n
unfolding zeros
length-zeros n = length-replicate n 0

write-eq-none_of_wrap_example : write third (zeros (2 ^ 32 - 1)) (2 ^ 32 - 1) ≡ none
write-eq-none_of_wrap_example =
    write-eq-none_of_wrap third (zeros (2 ^ 32 - 1)) (2 ^ 32 - 1) third-IsValid (omega arith)
      (omega arith) (omega (arith, length-zeros (2 ^ 32 - 1))) (omega arith)

run_refines_example : run third calls ≡ some (queue_run 3 (7 ∷ []) calls)
run_refines_example = run_refines calls third third-IsValid (omega arith)
