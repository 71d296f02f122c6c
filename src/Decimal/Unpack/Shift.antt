-- ===== src/Decimal/Unpack/Shift.antt =====
-- The three ways in which `unpackScientificFormat` (code/DecimalDecNumber.cpp) moves the digits of a
-- number: behind zeros, in front of zeros, and past the point.
use mlnotes.Base.{
  ℕ, zero, suc, ◌+◌, ◌-◌, ◌≤◌, ◌<◌, ◌≡◌, refl, List, [], ◌∷◌, ◌++◌, some, arith, length, take, drop,
  replicate, ltb, lengths, length-replicate, ap, ◌∙◌, true, false, sym, append_assoc, ◌>>=◌, get_or,
  Bool, take-append-drop,
}
use mlnotes.Base.Arrays.{paste, std_copy, std_copy_within, length-paste}
use mlnotes.Decimal.Unpack.{finish, write_at, shift_right, append_zeros, move_point}
use mlnotes.Decimal.Unpack.Layout.{
  write_at_lem, write_at_within, drop-cons, moved_right, moved_left, drop_past, take-append,
}
use mlnotes.Decimal.Unpack.Finish.{Printed, signed, finish_lem}

-- The digits `ds`, in front of which `pre` is overwritten, go behind zeros.
behind_zeros :
    (s pre ds tail : List ℕ) (b f e m places : ℕ)
    → length s ≡ b
    → length pre ≤ 1
    → 0 < length ds
    → b + length pre + length ds ≡ f
    → b + suc m + 1 + length ds ≡ e
    → suc m + 1 < length tail + length pre
    → let buf = s ++ (pre ++ (ds ++ tail)) in
      Printed
        (std_copy buf b f buf (e - (f - b))
          >>= (λ moved. write_at moved b (replicate (suc m + 1) b'0'))
          >>= (λ filled. finish filled b e (b + 1) places))
        (signed s (b'0' ∷ b'.' ∷ take places (replicate m b'0' ++ ds)))
behind_zeros s pre ds tail b f e m places h one some_digit at_f at_e room =
    let buf = s ++ (pre ++ (ds ++ tail)) in
    let zeros = replicate (suc m + 1) b'0' in
    let n = length pre + length ds in
    let size : length buf ≡ b + (length pre + (length ds + length tail)) =
      simp lengths (omega arith) in
    let at : e - (f - b) ≡ b + 1 + suc m - length pre = omega arith in
    let moved = paste buf (b + 1 + suc m - length pre) (take n (drop b buf)) in
    let copied : std_copy buf b f buf (b + 1 + suc m - length pre) ≡ some moved =
      std_copy_within buf b f buf (b + 1 + suc m - length pre) n (omega arith) (omega arith)
        (omega arith) in
    let moved_size : length moved ≡ length buf =
      length-paste buf (b + 1 + suc m - length pre) (take n (drop b buf))
        (simp lengths (omega arith)) in
    let written : write_at moved b zeros ≡ some (paste moved b zeros) =
      write_at_within moved b zeros (simp length-replicate (omega arith)) in
    let rest = drop-cons (suc m + 1 - length pre) tail (omega arith) in
    let laid : paste moved b zeros
        ≡ s ++ ((b'0' ∷ []) ++ (b'0' ∷ ((replicate m b'0' ++ ds) ++ (rest.0 ∷ rest.1)))) =
      moved_right s pre ds tail zeros b (suc m) n h one (simp length-replicate (omega arith))
        (omega arith) refl
      ∙ ap (λ t. s ++ (zeros ++ (ds ++ t))) rest.2
      ∙ ap (λ k. s ++ (replicate k b'0' ++ (ds ++ (rest.0 ∷ rest.1)))) {y = suc (suc m)}
          (omega arith)
      ∙ ap (λ t. s ++ (b'0' ∷ b'0' ∷ t))
          (sym (append_assoc (replicate m b'0') ds (rest.0 ∷ rest.1))) in
    rw (at, copied, written, laid)
      (finish_lem s (b'0' ∷ []) (replicate m b'0' ++ ds) b'0' rest.0 rest.1 b e (b + 1) places h
        refl (simp (lengths, length-replicate) (omega arith))
        (simp (lengths, length-replicate) (omega arith)))

-- The point of a number with the digits `ds` behind the first one.
abbrev pub point_of : List ℕ → List ℕ
point_of [] = []
point_of (x ∷ xs) = b'.' ∷ []

abbrev pub has_point : List ℕ → Bool
has_point [] = false
has_point (x ∷ xs) = true

-- A first digit with its sign, and the text behind it.
pub first_digit : (s tail : List ℕ) (d b : ℕ) → length s ≡ b → get_or (s ++ (d ∷ tail)) b 0 ≡ d
first_digit [] tail d b h = ap (λ k. get_or (d ∷ tail) k 0) {y = 0} (omega arith)
first_digit (x ∷ s) tail d zero h = absurd (omega arith)
first_digit (x ∷ s) tail d (suc b) h = first_digit s tail d b (omega arith)

pub shift_right_lem :
    (s ds tail : List ℕ) (d b f size m places : ℕ)
    → length s ≡ b
    → b + 1 + length (point_of ds) + length ds ≡ f
    → b + m + 3 + length ds < size + b
    → size + b ≡ length (s ++ (d ∷ (point_of ds ++ (ds ++ tail))))
    → Printed
        (shift_right
          (s ++ (d ∷ (point_of ds ++ (ds ++ tail))))
          b
          f
          size
          (has_point ds)
          (1 + length ds)
          (suc m)
          places)
        (signed s (b'0' ∷ b'.' ∷ take places (replicate m b'0' ++ (d ∷ ds))))
unfolding shift_right
shift_right_lem s [] tail d b f size m places h at_f room all =
    let total : length (s ++ (d ∷ tail)) ≡ b + (1 + length tail) = simp lengths (omega arith) in
    let fits : ltb size (b + 1 + suc m + 1 - b) ≡ false = ground arith in
    rw fits (
      behind_zeros s [] (d ∷ []) tail b f (b + 1 + suc m + 1) m places h (omega arith) (omega arith)
        (omega arith) (omega arith) (omega arith))
shift_right_lem s (x ∷ xs) tail d b f size m places h at_f room all =
    let digits = x ∷ xs in
    let e = b + 1 + suc m + (1 + length digits) in
    let joined : write_at (s ++ (d ∷ b'.' ∷ (digits ++ tail))) (b + 1)
          (get_or (s ++ (d ∷ b'.' ∷ (digits ++ tail))) b 0 ∷ [])
        ≡ some (s ++ (d ∷ d ∷ (digits ++ tail))) =
      rw (first_digit s (b'.' ∷ (digits ++ tail)) d b h) (
        ap (λ l. write_at l (b + 1) (d ∷ []))
          (sym (append_assoc s (d ∷ []) (b'.' ∷ (digits ++ tail))))
        ∙ write_at_lem (s ++ (d ∷ [])) (b'.' ∷ []) (d ∷ []) (digits ++ tail) (b + 1)
            (simp lengths (omega arith)) refl
        ∙ ap some (append_assoc s (d ∷ []) (d ∷ (digits ++ tail)))) in
    let total : length (s ++ (d ∷ b'.' ∷ (digits ++ tail)))
        ≡ b + (2 + (length digits + length tail)) =
      simp lengths (omega arith) in
    let fits : ltb size (e - b) ≡ false = ground arith in
    rw (joined, fits)
      (behind_zeros s (d ∷ []) (d ∷ digits) tail b f e m places h (omega arith) (omega arith)
        (omega arith) (omega arith) (omega arith))

-- The digits `xs` behind the point are copied over it; a byte `l` is left behind them.
copied_left :
    (s xs tail : List ℕ) (d b n : ℕ)
    → length s ≡ b
    → length xs ≡ n
    → let buf = s ++ (d ∷ b'.' ∷ (xs ++ tail)) in
      (l : ℕ) × (std_copy buf (b + 2) (b + 2 + n) buf (b + 1)
        ≡ some (s ++ (d ∷ (xs ++ (l ∷ tail)))))
copied_left s xs tail d b n h count =
    let signed_digit = s ++ (d ∷ []) in
    let at_digit : length signed_digit ≡ b + 1 = simp lengths (omega arith) in
    let laid : s ++ (d ∷ b'.' ∷ (xs ++ tail)) ≡ signed_digit ++ ((b'.' ∷ []) ++ (xs ++ tail)) =
      sym (append_assoc s (d ∷ []) (b'.' ∷ (xs ++ tail))) in
    let moved = moved_left signed_digit (b'.' ∷ []) xs tail (b + 1) at_digit in
    let one = one_byte moved.0 moved.1 in
    let buf = signed_digit ++ ((b'.' ∷ []) ++ (xs ++ tail)) in
    let total : length buf ≡ b + 2 + (length xs + length tail) = simp lengths (omega arith) in
    let copied : std_copy buf (b + 2) (b + 2 + n) buf (b + 1)
        ≡ some (paste buf (b + 1) (take n (drop (b + 2) buf))) =
      std_copy_within buf (b + 2) (b + 2 + n) buf (b + 1) n refl (omega arith) (omega arith) in
    let source : take n (drop (b + 2) buf) ≡ xs =
      ap (take n) (drop_past signed_digit ((b'.' ∷ []) ++ (xs ++ tail)) (b + 2) 1 (omega arith))
      ∙ ap (λ k. take k (xs ++ tail)) (sym count)
      ∙ take-append xs tail in
    (
      one.0,
      rw laid (
          copied
          ∙ ap some (
              ap (paste buf (b + 1)) source
              ∙ moved.2
              ∙ ap (λ last. signed_digit ++ (xs ++ (last ++ tail))) one.1
              ∙ append_assoc s (d ∷ []) (xs ++ (one.0 ∷ tail)))),
    )
  where
    one_byte : (last : List ℕ) → length last ≡ 1 → (l : ℕ) × (last ≡ l ∷ [])
    one_byte [] h = absurd (omega arith)
    one_byte (l ∷ []) h = (l, refl)
    one_byte (l ∷ l' ∷ ls) h = absurd (omega arith)

pub move_point_lem :
    (s ds tail : List ℕ) (d y b f m places : ℕ)
    → length s ≡ b
    → b + 2 + length ds ≡ f
    → m ≤ length ds
    → 0 < length ds
    → Printed
        (move_point (s ++ (d ∷ b'.' ∷ (ds ++ (y ∷ tail)))) b f m places)
        (signed s ((d ∷ take m ds) ++ (b'.' ∷ take places (drop m ds))))
unfolding move_point
move_point_lem s ds tail d y b f m places h at_f few some_digit =
    let front = take m ds in
    let back = drop m ds in
    let split : ds ++ (y ∷ tail) ≡ front ++ (back ++ (y ∷ tail)) =
      ap (λ l. l ++ (y ∷ tail)) (sym (take-append-drop m ds))
      ∙ append_assoc front back (y ∷ tail) in
    let copied = copied_left s front (back ++ (y ∷ tail)) d b m h (simp lengths (omega arith)) in
    rw (split, copied.1)
      (finish_lem s (d ∷ front) back copied.0 y tail b f (b + m + 1) places h
        (simp lengths (omega arith)) (simp lengths (omega arith)) (simp lengths (omega arith)))

replicate_two : (k n z : ℕ) → n ≡ k + 2 → replicate n z ≡ replicate k z ++ (z ∷ z ∷ [])
replicate_two zero n z h = ap (λ i. replicate i z) {y = 2} (omega arith)
replicate_two (suc k) zero z h = absurd (omega arith)
replicate_two (suc k) (suc n) z h = ap (λ l. z ∷ l) (replicate_two k n z (omega arith))

-- Zeros behind the digits `ds`; the last of them is the digit behind the point.
zeros_behind :
    (s ds tail : List ℕ) (b n m k places : ℕ)
    → length s ≡ b
    → length ds ≡ n
    → 0 < n
    → n + k ≡ m + 1
    → 0 < k
    → m - n + 3 < length tail
    → Printed
        (write_at (s ++ (ds ++ tail)) (b + n) (replicate (m - n + 3) b'0')
          >>= (λ filled. finish filled b (b + m + 1 + 2) (b + m + 1) places))
        (signed s ((ds ++ replicate k b'0') ++ (b'.' ∷ take places (b'0' ∷ []))))
zeros_behind s ds tail b n m k places h count some_digit padded few room =
    let zeros : List ℕ = replicate k b'0' in
    let old = take (m - n + 3) tail in
    let rest = drop-cons (m - n + 3) tail room in
    let laid : s ++ (ds ++ tail) ≡ (s ++ ds) ++ (old ++ (rest.0 ∷ rest.1)) =
      sym (append_assoc s ds tail)
      ∙ ap (λ t. (s ++ ds) ++ t)
          (sym (take-append-drop (m - n + 3) tail) ∙ ap (λ t. old ++ t) rest.2) in
    let written : write_at ((s ++ ds) ++ (old ++ (rest.0 ∷ rest.1))) (b + n)
          (replicate (m - n + 3) b'0')
        ≡ some ((s ++ ds) ++ (replicate (m - n + 3) b'0' ++ (rest.0 ∷ rest.1))) =
      write_at_lem (s ++ ds) old (replicate (m - n + 3) b'0') (rest.0 ∷ rest.1) (b + n)
        (simp lengths (omega arith)) (simp lengths (omega arith)) in
    let shape : (s ++ ds) ++ (replicate (m - n + 3) b'0' ++ (rest.0 ∷ rest.1))
        ≡ s ++ ((ds ++ zeros) ++ (b'0' ∷ ((b'0' ∷ []) ++ (rest.0 ∷ rest.1)))) =
      ap (λ z. (s ++ ds) ++ (z ++ (rest.0 ∷ rest.1)))
        (replicate_two k (m - n + 3) b'0' (omega arith))
      ∙ append_assoc s ds _
      ∙ ap (λ t. s ++ t)
          (ap (λ t. ds ++ t) (append_assoc zeros (b'0' ∷ b'0' ∷ []) (rest.0 ∷ rest.1))
            ∙ sym (append_assoc ds zeros (b'0' ∷ b'0' ∷ rest.0 ∷ rest.1))) in
    rw (laid, written, shape)
      (finish_lem s (ds ++ zeros) (b'0' ∷ []) b'0' rest.0 rest.1 b (b + m + 1 + 2) (b + m + 1)
        places h (simp lengths (omega arith)) (omega arith) (simp lengths (omega arith)))

pub append_zeros_lem :
    (s ds tail : List ℕ) (d b f size m places : ℕ)
    → length s ≡ b
    → b + 1 + length (point_of ds) + length ds ≡ f
    → length ds < m
    → m + 3 < size
    → size + b ≡ length (s ++ (d ∷ (point_of ds ++ (ds ++ tail))))
    → Printed
        (append_zeros
          (s ++ (d ∷ (point_of ds ++ (ds ++ tail))))
          b
          f
          size
          (has_point ds)
          (1 + length ds)
          m
          places)
        (signed s
          (((d ∷ ds) ++ replicate (m - length ds) b'0') ++ (b'.' ∷ take places (b'0' ∷ []))))
unfolding append_zeros
append_zeros_lem s [] tail d b f size m places h at_f few room all =
    let total : length (s ++ (d ∷ tail)) ≡ b + (1 + length tail) = simp lengths (omega arith) in
    let fits : ltb size (b + m + 1 + 2 - b) ≡ false = ground arith in
    rw fits (
      zeros_behind s (d ∷ []) tail b 1 m (m - 0) places h refl (omega arith) (omega arith)
        (omega arith) (omega arith))
append_zeros_lem s (x ∷ xs) tail d b f size m places h at_f few room all =
    let ds = x ∷ xs in
    let end : b + 2 + length ds ≡ f = omega arith in
    let copied = copied_left s ds tail d b (length ds) h refl in
    let total : length (s ++ (d ∷ b'.' ∷ (ds ++ tail))) ≡ b + (2 + (length ds + length tail)) =
      simp lengths (omega arith) in
    let fits : ltb size (b + m + 1 + 2 - b) ≡ false = ground arith in
    rw (fits, sym end, copied.1)
      (zeros_behind s (d ∷ ds) (copied.0 ∷ tail) b (1 + length ds) m (m - length ds) places h
        (omega arith) (omega arith) (omega arith) (omega arith) (omega arith))
