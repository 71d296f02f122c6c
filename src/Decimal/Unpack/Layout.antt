-- ===== src/Decimal/Unpack/Layout.antt =====
-- How the moves and writes of `unpackScientificFormat` (code/DecimalDecNumber.cpp) lay the bytes of a
-- buffer out, which is given in parts: the sign `s`, the digits, and what stands behind them.
use mlnotes.Base.{
  ℕ, ◌+◌, ◌-◌, ◌≤◌, ◌<◌, ◌≡◌, refl, List, [], ◌∷◌, ◌++◌, some, arith, length, take, drop, leb,
  eq_of_get_elem?, at_index, lengths, ap, ◌∙◌, get_elem?-eq-none, true, zero, suc, sym,
  append_assoc, take-append-drop,
}
use mlnotes.Base.Arrays.{paste}
use mlnotes.Decimal.Unpack.{write_at}

-- Bytes pasted over as many others.
paste_over :
    (s old new tail : List ℕ) (at : ℕ)
    → length s ≡ at
    → length old ≡ length new
    → paste (s ++ (old ++ tail)) at new ≡ s ++ (new ++ tail)
paste_over s old new tail at h k =
    eq_of_get_elem? _ _ (λ i. simp (at_index, lengths, h, k) (ground arith))

pub write_at_lem :
    (s old new tail : List ℕ) (at : ℕ)
    → length s ≡ at
    → length old ≡ length new
    → write_at (s ++ (old ++ tail)) at new ≡ some (s ++ (new ++ tail))
unfolding write_at
write_at_lem s old new tail at h k =
    let within : leb (at + length new) (length (s ++ (old ++ tail))) ≡ true =
      simp lengths (ground arith) in
    rw within (ap some (paste_over s old new tail at h k))

-- A write within the buffer.
pub write_at_within :
    (buf : List ℕ) (at : ℕ) (xs : List ℕ)
    → at + length xs ≤ length buf
    → write_at buf at xs ≡ some (paste buf at xs)
unfolding write_at
write_at_within buf at xs h =
    let within : leb (at + length xs) (length buf) ≡ true = ground arith in rw within refl

-- The bytes from an index within the buffer on.
pub drop-cons :
    (n : ℕ) (xs : List ℕ) → n < length xs → (y : ℕ) × (ys : List ℕ) × (drop n xs ≡ y ∷ ys)
drop-cons n [] h = absurd (omega arith)
drop-cons zero (x ∷ xs) h = (x, xs, refl)
drop-cons (suc n) (x ∷ xs) h = drop-cons n xs (omega arith)

pub take-append : (xs ys : List ℕ) → take (length xs) (xs ++ ys) ≡ xs
take-append xs ys =
    eq_of_get_elem? _ _ (λ i. simp at_index (ground (arith, get_elem?-eq-none xs i)))

-- The bytes from `k` behind a front on.
pub drop_past : (xs ys : List ℕ) (n k : ℕ) → length xs + k ≡ n → drop n (xs ++ ys) ≡ drop k ys
drop_past xs ys n k h = eq_of_get_elem? _ _ (λ i. simp at_index (ground arith))

-- A paste of `pre` and `ds` behind the sign, by what it leaves.
paste_behind_sign :
    (s pre ds rest : List ℕ) (b c e : ℕ)
    → length s ≡ b
    → b ≤ c
    → c ≤ b + length rest
    → c + length pre + length ds ≡ e
    → paste (s ++ rest) c (pre ++ ds)
      ≡ s ++ ((take (c - b) rest ++ pre) ++ (ds ++ drop (e - b) rest))
paste_behind_sign s pre ds rest b c e h low high total =
    eq_of_get_elem? _ _ (λ i. simp (at_index, lengths, h) (ground arith))

-- The digits `ds`, moved to the right with the byte or none in front of them, behind zeros.
pub moved_right :
    (s pre ds tail zeros : List ℕ) (b m n : ℕ)
    → length s ≡ b
    → length pre ≤ 1
    → length zeros ≡ m + 1
    → m + 1 ≤ length tail + length pre
    → length pre + length ds ≡ n
    → let buf = s ++ (pre ++ (ds ++ tail)) in
      paste (paste buf (b + 1 + m - length pre) (take n (drop b buf))) b zeros
      ≡ s ++ (zeros ++ (ds ++ drop (m + 1 - length pre) tail))
moved_right s pre ds tail zeros b m n h one k room count =
    let c = b + 1 + m - length pre in
    let rest = pre ++ (ds ++ tail) in
    let behind = drop (b + m + 1 + length ds - b) rest in
    let cut : take n (drop b (s ++ rest)) ≡ pre ++ ds =
      (let front : drop b (s ++ rest) ≡ rest = drop_past s rest b 0 (omega arith) in
        let n_front : n ≡ length (pre ++ ds) = simp lengths (omega arith) in
        rw (front, n_front, sym (append_assoc pre ds tail)) (take-append (pre ++ ds) tail)) in
    let first : paste (s ++ rest) c (pre ++ ds)
        ≡ s ++ ((take (c - b) rest ++ pre) ++ (ds ++ behind)) =
      paste_behind_sign s pre ds rest b c (b + m + 1 + length ds) h (omega arith)
        (simp lengths (omega arith)) (omega arith) in
    let same : behind ≡ drop (m + 1 - length pre) tail =
      drop_past pre (ds ++ tail) (b + m + 1 + length ds - b) (m + 1 + length ds - length pre)
        (omega arith)
      ∙ drop_past ds tail (m + 1 + length ds - length pre) (m + 1 - length pre) (omega arith) in
    rw (cut, first, same)
      (paste_over s (take (c - b) rest ++ pre) zeros (ds ++ drop (m + 1 - length pre) tail) b h
        (simp lengths (omega arith)))

-- The bytes `xs`, moved to the left over the byte or none in front of them.
pub moved_left :
    (s gap xs tail : List ℕ) (b : ℕ)
    → length s ≡ b
    → (last : List ℕ) × (length last ≡ length gap)
      × (paste (s ++ (gap ++ (xs ++ tail))) b xs ≡ s ++ (xs ++ (last ++ tail)))
moved_left s gap xs tail b h =
    let last = drop (length xs) (gap ++ xs) in
    let old = take (length xs) (gap ++ xs) in
    let split : gap ++ (xs ++ tail) ≡ old ++ (last ++ tail) =
      sym (append_assoc gap xs tail)
      ∙ ap (λ l. l ++ tail) (sym (take-append-drop (length xs) (gap ++ xs)))
      ∙ append_assoc old last tail in
    (
      last,
      simp lengths (omega arith),
      rw split (paste_over s old xs (last ++ tail) b h (simp lengths (omega arith))),
    )
