-- ===== src/Decimal/Print/Strip.antt =====
-- The end of `toString` (code/DecimalDecNumber.cpp), which cuts the zeros off in the buffer, against a
-- function of the digits behind the point.
use mlnotes.Base.{
  ℕ, zero, suc, ◌+◌, ◌-◌, ◌≤◌, ◌<◌, ◌≡◌, ◌⊎◌, inl, inr, refl, false, some, List, [], ◌∷◌, ◌++◌,
  length, replicate, get_or, ◌==◌, if◌then◌else◌, c_text, codes, arith, All, lengths,
  length-replicate, sym, ap, ◌∙◌, append_assoc, Bool-cases, subst, ap₂, ==_iff,
}
use mlnotes.Decimal.Text.{IsDigit}
use mlnotes.Decimal.Unpack.{write_at}
use mlnotes.Decimal.Unpack.Layout.{write_at_lem}
use mlnotes.Decimal.Print.{last_non_zero, strip_zeros}

abbrev cons_trimmed : ℕ → List ℕ → List ℕ
cons_trimmed c [] = if c == b'0' then [] else c ∷ []
cons_trimmed c (x ∷ xs) = c ∷ x ∷ xs

-- Digits without the zeros at their end.
abbrev pub trim_end : List ℕ → List ℕ
trim_end [] = []
trim_end (c ∷ cs) = cons_trimmed c (trim_end cs)

abbrev or_zero : List ℕ → List ℕ
or_zero [] = b'0' ∷ []
or_zero (x ∷ xs) = x ∷ xs

-- The digits that are left behind the point.
abbrev pub shorten : List ℕ → List ℕ
shorten digits = or_zero (trim_end digits)

-- Digits by what is left of them, `t`: nothing, or digits up to a last one that is not zero.
record Trimmed (digits t : List ℕ) : Type 0 where
  zeros : ℕ
  split : digits ≡ t ++ replicate zeros b'0'
  last : (t ≡ []) ⊎ ((front : List ℕ) × (c : ℕ) × (t ≡ front ++ (c ∷ [])) × ((c == b'0') ≡ false))

cons-Trimmed : (c : ℕ) (cs t : List ℕ) → Trimmed cs t → Trimmed (c ∷ cs) (cons_trimmed c t)
cons-Trimmed c cs [] h = elim (Bool-cases (c == b'0')) [
  | inl is_zero ↦ rw is_zero (record {
    zeros = suc h.zeros;
    split = ap₂ ◌∷◌ ((==_iff c b'0').0 is_zero) h.split;
    last = inl refl;
  })
  | inr other ↦
      rw other (record {
        zeros = h.zeros;
        split = ap (λ l. c ∷ l) h.split;
        last = inr ([], c, refl, other);
      })
]
cons-Trimmed c cs (x ∷ xs) h = record {
  zeros = h.zeros;
  split = ap (λ l. c ∷ l) h.split;
  last = elim h.last [
    | inl nothing ↦ absurd (cons_not_nil nothing)
    | inr (front, l, e, other) ↦ inr (c ∷ front, l, ap (λ r. c ∷ r) e, other)
  ];
}
  where
    cons_not_nil : x ∷ xs ≡ [] → ⊥
    cons_not_nil e = cc

trim_end-Trimmed : (digits : List ℕ) → Trimmed digits (trim_end digits)
trim_end-Trimmed [] = record { zeros = 0; split = refl; last = inl refl }
trim_end-Trimmed (c ∷ cs) = cons-Trimmed c cs (trim_end cs) (trim_end-Trimmed cs)

get_or-append :
    (xs ys : List ℕ) (i n : ℕ) → n ≡ length xs + i → get_or (xs ++ ys) n 0 ≡ get_or ys i 0
get_or-append [] ys i n h = ap (λ k. get_or ys k 0) {y = i} (omega arith)
get_or-append (x ∷ xs) ys i zero h = absurd (omega arith)
get_or-append (x ∷ xs) ys i (suc n) h = get_or-append xs ys i n (omega arith)

get_or-zeros : (k i : ℕ) (tail : List ℕ) → i < k → get_or (replicate k b'0' ++ tail) i 0 ≡ b'0'
get_or-zeros zero i tail h = absurd (omega arith)
get_or-zeros (suc k) zero tail h = refl
get_or-zeros (suc k) (suc i) tail h = get_or-zeros k i tail (omega arith)

-- The loop comes to the last byte in front of the zeros.
last_non_zero_lem :
    (xs tail : List ℕ) (c k n i : ℕ)
    → (c == b'0') ≡ false
    → n ≡ length xs + i
    → i ≤ k
    → last_non_zero (xs ++ (c ∷ (replicate k b'0' ++ tail))) n ≡ length xs
unfolding last_non_zero
last_non_zero_lem xs tail c k zero i other at low = omega arith
last_non_zero_lem xs tail c k (suc n) zero other at low =
    let here : get_or (xs ++ (c ∷ (replicate k b'0' ++ tail))) (suc n) 0 ≡ c =
      get_or-append xs (c ∷ (replicate k b'0' ++ tail)) 0 (suc n) at in
    rw (here, other) (omega arith)
last_non_zero_lem xs tail c k (suc n) (suc i) other at low =
    let here : get_or (xs ++ (c ∷ (replicate k b'0' ++ tail))) (suc n) 0 ≡ b'0' =
      get_or-append xs (c ∷ (replicate k b'0' ++ tail)) (suc i) (suc n) at
      ∙ get_or-zeros k i tail (omega arith) in
    rw here (last_non_zero_lem xs tail c k n i other (omega arith) (omega arith))

pub c_text-append :
    (xs tail : List ℕ) → All (λ c. (c == 0) ≡ false) xs → c_text (xs ++ (0 ∷ tail)) ≡ xs
c_text-append [] tail h = refl
c_text-append (x ∷ xs) tail h = rw h.0 (ap (λ l. x ∷ l) (c_text-append xs tail h.1))

nonempty :
    (k y : ℕ) (tail : List ℕ) → (z : ℕ) × (zs : List ℕ) × (replicate k b'0' ++ (y ∷ tail) ≡ z ∷ zs)
nonempty zero y tail = (y, tail, refl)
nonempty (suc k) y tail = (b'0', replicate k b'0' ++ (y ∷ tail), refl)

two_bytes :
    (k y : ℕ) (tail : List ℕ)
    → (z : ℕ) × (z' : ℕ) × (zs : List ℕ) × (replicate k b'0' ++ (0 ∷ y ∷ tail) ≡ z ∷ z' ∷ zs)
two_bytes zero y tail = (0, y, tail, refl)
two_bytes (suc k) y tail =
    let more = nonempty k 0 (y ∷ tail) in (b'0', more.0, more.1, ap (λ l. b'0' ∷ l) more.2)

-- A last digit `c` that is no zero: the terminator is written behind it.
strip_behind :
    (xs tail : List ℕ) (c k e : ℕ)
    → (c == b'0') ≡ false
    → (c == b'.') ≡ false
    → e ≡ length xs + 1 + k
    → (rest : List ℕ) × (strip_zeros (xs ++ (c ∷ (replicate k b'0' ++ (0 ∷ tail)))) e
        ≡ some ((xs ++ (c ∷ [])) ++ (0 ∷ rest)))
unfolding strip_zeros
strip_behind xs tail c k e other no_point total =
    let buf = xs ++ (c ∷ (replicate k b'0' ++ (0 ∷ tail))) in
    let after = nonempty k 0 tail in
    let last : last_non_zero buf (e - 1) ≡ length xs =
      last_non_zero_lem xs (0 ∷ tail) c k (e - 1) k other (omega arith) (omega arith) in
    let byte : get_or buf (length xs) 0 ≡ c =
      get_or-append xs (c ∷ (replicate k b'0' ++ (0 ∷ tail))) 0 (length xs) (omega arith) in
    let laid : buf ≡ (xs ++ (c ∷ [])) ++ ((after.0 ∷ []) ++ after.1) =
      ap (λ t. xs ++ (c ∷ t)) after.2 ∙ sym (append_assoc xs (c ∷ []) (after.0 ∷ after.1)) in
    let written : write_at buf (length xs + 1) (0 ∷ []) ≡ some ((xs ++ (c ∷ [])) ++ (0 ∷ after.1)) =
      ap (λ l. write_at l (length xs + 1) (0 ∷ [])) laid
      ∙ write_at_lem (xs ++ (c ∷ [])) (after.0 ∷ []) (0 ∷ []) after.1 (length xs + 1)
          (simp lengths (omega arith)) refl in
    (after.1, rw (last, byte, no_point, written) refl)

-- Only zeros behind the point: one of them is kept.
strip_to_point :
    (xs tail : List ℕ) (y k e : ℕ)
    → e ≡ length xs + 1 + k
    → (rest : List ℕ) × (strip_zeros (xs ++ (b'.' ∷ (replicate k b'0' ++ (0 ∷ y ∷ tail)))) e
        ≡ some ((xs ++ codes ".0") ++ (0 ∷ rest)))
unfolding strip_zeros
strip_to_point xs tail y k e total =
    let buf = xs ++ (b'.' ∷ (replicate k b'0' ++ (0 ∷ y ∷ tail))) in
    let (z, z', zs, after) = two_bytes k y tail in
    let last : last_non_zero buf (e - 1) ≡ length xs =
      last_non_zero_lem xs (0 ∷ y ∷ tail) b'.' k (e - 1) k refl (omega arith) (omega arith) in
    let byte : get_or buf (length xs) 0 ≡ b'.' =
      get_or-append xs (b'.' ∷ (replicate k b'0' ++ (0 ∷ y ∷ tail))) 0 (length xs) (omega arith) in
    let laid : buf ≡ (xs ++ (b'.' ∷ [])) ++ ((z ∷ []) ++ (z' ∷ zs)) =
      ap (λ t. xs ++ (b'.' ∷ t)) after ∙ sym (append_assoc xs (b'.' ∷ []) (z ∷ z' ∷ zs)) in
    let padded : write_at buf (length xs + 1) (b'0' ∷ [])
        ≡ some ((xs ++ codes ".0") ++ ((z' ∷ []) ++ zs)) =
      ap (λ l. write_at l (length xs + 1) (b'0' ∷ [])) laid
      ∙ write_at_lem (xs ++ (b'.' ∷ [])) (z ∷ []) (b'0' ∷ []) (z' ∷ zs) (length xs + 1)
          (simp lengths (omega arith)) refl
      ∙ ap some (
          append_assoc xs (b'.' ∷ []) (b'0' ∷ z' ∷ zs)
          ∙ sym (append_assoc xs (codes ".0") (z' ∷ zs))) in
    let ended : write_at ((xs ++ codes ".0") ++ ((z' ∷ []) ++ zs)) (length xs + 2) (0 ∷ [])
        ≡ some ((xs ++ codes ".0") ++ (0 ∷ zs)) =
      write_at_lem (xs ++ codes ".0") (z' ∷ []) (0 ∷ []) zs (length xs + 2)
        (simp lengths (omega arith)) refl in
    (zs, rw (last, byte, padded, ended) refl)

or_zero_last : (kept : List ℕ) (c : ℕ) → or_zero (kept ++ (c ∷ [])) ≡ kept ++ (c ∷ [])
or_zero_last [] c = refl
or_zero_last (x ∷ xs) c = refl

last_digit : (kept zs : List ℕ) (c : ℕ) → All IsDigit ((kept ++ (c ∷ [])) ++ zs) → IsDigit c
last_digit [] zs c h = h.0
last_digit (x ∷ xs) zs c h = last_digit xs zs c h.1

pub digit_no_point : (c : ℕ) → IsDigit c → (c == b'.') ≡ false
digit_no_point c (low, high) = ground arith

-- The text up to its shortened digits, once it is stripped.
pub strip_zeros_lem :
    (front digits tail : List ℕ) (y e : ℕ)
    → All IsDigit digits
    → e ≡ length front + 1 + length digits
    → (rest : List ℕ) × (strip_zeros (front ++ (b'.' ∷ (digits ++ (0 ∷ y ∷ tail)))) e
        ≡ some ((front ++ (b'.' ∷ shorten digits)) ++ (0 ∷ rest)))
strip_zeros_lem front digits tail y e h total = by_cases (trim_end digits) (trim_end-Trimmed digits)
  where
    by_cases :
        (t : List ℕ)
        → Trimmed digits t
        → (rest : List ℕ) × (strip_zeros (front ++ (b'.' ∷ (digits ++ (0 ∷ y ∷ tail)))) e
            ≡ some ((front ++ (b'.' ∷ or_zero t)) ++ (0 ∷ rest)))
    by_cases t parts = elim parts.last [
      | inl nothing ↦
          let all_zeros : digits ≡ replicate parts.zeros b'0' =
            parts.split ∙ ap (λ l. l ++ replicate parts.zeros b'0') nothing in
          let count : length digits ≡ parts.zeros = ap length all_zeros ∙ length-replicate _ _ in
          rw (nothing, all_zeros) (strip_to_point front tail y parts.zeros e (omega arith))
      | inr (kept, c, ends, other) ↦
          let zeros : List ℕ = replicate parts.zeros b'0' in
          let end = 0 ∷ y ∷ tail in
          let shape : digits ≡ (kept ++ (c ∷ [])) ++ zeros =
            parts.split ∙ ap (λ l. l ++ zeros) ends in
          let count : length digits ≡ length kept + 1 + parts.zeros =
            ap length shape ∙ simp (lengths, length-replicate) (omega arith) in
          let laid : front ++ (b'.' ∷ (digits ++ end))
              ≡ (front ++ (b'.' ∷ kept)) ++ (c ∷ (zeros ++ end)) =
            ap (λ l. front ++ (b'.' ∷ (l ++ end))) shape
            ∙ ap (λ l. front ++ (b'.' ∷ l))
                (append_assoc (kept ++ (c ∷ [])) zeros end
                  ∙ append_assoc kept (c ∷ []) (zeros ++ end))
            ∙ sym (append_assoc front (b'.' ∷ kept) (c ∷ (zeros ++ end))) in
          let stripped =
            strip_behind (front ++ (b'.' ∷ kept)) (y ∷ tail) c parts.zeros e other
              (digit_no_point c (last_digit kept zeros c (subst (All IsDigit) shape h)))
              (simp lengths (omega arith)) in
          let final : (front ++ (b'.' ∷ kept)) ++ (c ∷ []) ≡ front ++ (b'.' ∷ or_zero t) =
            append_assoc front (b'.' ∷ kept) (c ∷ [])
            ∙ ap (λ l. front ++ (b'.' ∷ l)) (sym (ap or_zero ends ∙ or_zero_last kept c)) in
          (stripped.0, rw (laid, sym final) stripped.1)
    ]

cons_trimmed-All :
    (c : ℕ) (cs : List ℕ) → IsDigit c → All IsDigit cs → All IsDigit (cons_trimmed c cs)
cons_trimmed-All c [] h k = elim (Bool-cases (c == b'0')) [
  | inl is_zero ↦ rw is_zero tt
  | inr other ↦ rw other (h, tt)
]
cons_trimmed-All c (x ∷ xs) h k = (h, k)

trim_end-All : (digits : List ℕ) → All IsDigit digits → All IsDigit (trim_end digits)
trim_end-All [] h = tt
trim_end-All (c ∷ cs) h = cons_trimmed-All c (trim_end cs) h.0 (trim_end-All cs h.1)

or_zero-All : (digits : List ℕ) → All IsDigit digits → All IsDigit (or_zero digits)
or_zero-All [] h = ((omega arith, omega arith), tt)
or_zero-All (x ∷ xs) h = h

pub shorten-All : (digits : List ℕ) → All IsDigit digits → All IsDigit (shorten digits)
shorten-All digits h = or_zero-All (trim_end digits) (trim_end-All digits h)
