-- ===== src/StringTools/Trim.antt =====
-- The trims of code/StringTools.cpp. A length is taken to be below 2 ^ 31, where its cast to int is
-- exact; the loops that count an index down from `length - 1` to -1 hold the index plus one.
pub mod Edges
pub mod Sets
use mlnotes.Base.{
  ℕ, zero, suc, ◌+◌, ◌-◌, ◌≤◌, ◌<◌, ◌≡◌, ◌≢◌, ◌↔◌, ◌⊎◌, inl, inr, refl, Bool, true, false, not,
  ◌&&◌, ◌||◌, Option, none, some, List, [], ◌∷◌, ◌++◌, arith, length, take, drop, get_or, ltb, leb,
  ◌==◌, if◌then◌else◌, All, ap, sym, ◌∙◌, length-append, length-drop, length-take, take-append-drop,
  Bool-cases, append-nil, append_assoc, take_all,
}
use native.Mathlib.Decide.{dec_lt}

-- Whether a byte is one of `set`.
abbrev pub one_of : List ℕ → ℕ → Bool
one_of [] c = false
one_of (s ∷ set) c = s == c || one_of set c

-- `find_first_not_of(set)` of the bytes from index `i` on; `none` is npos.
unfoldable pub find_first_not_of : List ℕ → List ℕ → ℕ → Option ℕ
find_first_not_of set [] i = none
find_first_not_of set (c ∷ s) i = if one_of set c then find_first_not_of set s (i + 1) else some i

-- `find_last_not_of(set)`, by the number of bytes still to be looked at.
unfoldable pub find_last_not_of : List ℕ → List ℕ → ℕ → Option ℕ
find_last_not_of set s zero = none
find_last_not_of set s (suc n) =
    if one_of set (get_or s n 0) then find_last_not_of set s n else some n

abbrev pub substr : List ℕ → ℕ → ℕ → List ℕ
substr s from n = take n (drop from s)

-- Where a byte outside the set is found from the front, one is found from the back.
unfoldable pub trim : List ℕ → List ℕ → List ℕ
unfolding find_first_not_of find_last_not_of
trim src white_spaces = elim (find_first_not_of white_spaces src 0) [
  | none ↦ []
  | some start ↦ elim (find_last_not_of white_spaces src (length src)) [
    | none ↦ []
    | some end ↦
        if start == 0 && end == length src - 1 then src else substr src start (end - start + 1)
  ]
]

-- `while (0 <= end && remove == buffer[end]) --end;` from `end + 1` bytes; the result is `end + 1`.
-- `test` is the comparison of a byte with the one to be removed.
unfoldable pub back_loop : (ℕ → Bool) → List ℕ → ℕ → ℕ
back_loop test buffer zero = zero
back_loop test buffer (suc end) =
    if test (get_or buffer end 0) then back_loop test buffer end else suc end

unfoldable pub trim_trailing_chars : List ℕ → ℕ → List ℕ
unfolding back_loop
trim_trailing_chars src remove =
    let past_end = back_loop (λ c. remove == c) src (length src) in
    if length src == past_end then src else substr src 0 past_end

unfoldable pub trim_right_spaces : List ℕ → List ℕ
unfolding back_loop
trim_right_spaces src =
    let past_end = back_loop (λ c. b' ' == c) src (length src) in
    if length src == past_end then src else substr src 0 past_end

-- `while (start < src_length && remove == buffer[start]) ++start;` by the bytes that are left.
unfoldable pub front_loop : (ℕ → Bool) → List ℕ → ℕ → ℕ → ℕ
front_loop test buffer zero start = start
front_loop test buffer (suc left) start =
    if test (get_or buffer start 0) then front_loop test buffer left (start + 1) else start

unfoldable pub trim_leading_chars : List ℕ → ℕ → List ℕ
unfolding front_loop
trim_leading_chars src remove =
    let start = front_loop (λ c. remove == c) src (length src) 0 in
    if start == 0 then src else substr src start (length src - start)

unfoldable pub trim_chars : List ℕ → ℕ → List ℕ
trim_chars src remove = trim_trailing_chars (trim_leading_chars src remove) remove
