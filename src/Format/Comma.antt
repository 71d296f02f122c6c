-- ===== src/Format/Comma.antt =====
-- `toCommaFormatted` of code/Format.cpp: where the commas go.
use mlnotes.Base.{
  ℕ, zero, suc, ◌+◌, ◌%◌, ◌≤◌, ◌<◌, ◌≡◌, ◌≢◌, ◌⊎◌, inl, inr, refl, true, none, some, List, [], ◌∷◌,
  ◌++◌, arith, length, get_or, take, drop, ◌==◌, if◌then◌else◌, ap, ap₂, sym, ◌∙◌, All,
  append_assoc, length-take, length-append, drop-eq-nil, take_all,
}
use mlnotes.Format.{isdigit, insert_comma, comma_loop, find_dot, to_comma_formatted}

-- A comma before each digit that a positive multiple of three digits begins with.
abbrev pub grouped : List ℕ → List ℕ
grouped [] = []
grouped (d ∷ ds) =
    let rest = grouped ds in if (length ds + 1) % 3 == 0 then b',' ∷ d ∷ rest else d ∷ rest

-- What follows the whole part: nothing, or a point and more.
abbrev pub Fraction : List ℕ → Type 0
Fraction f = (f ≡ []) ⊎ ((rest : List ℕ) × (f ≡ b'.' ∷ rest))

-- The digit at an index, between what stands before and behind it.
split_at :
    (n : ℕ) (ds : List ℕ)
    → n < length ds
    → All (λ d. isdigit d ≡ true) ds
    → (d : ℕ) × (isdigit d ≡ true)
      × (take (suc n) ds ≡ take n ds ++ d ∷ [])
      × (drop n ds ≡ d ∷ drop (suc n) ds)
split_at n [] lt h = absurd (omega arith)
split_at zero (d ∷ ds) lt h = (d, h.0, refl, refl)
split_at (suc n) (d ∷ ds) lt h =
    let (e, digit, t, r) = split_at n ds (omega arith) h.1 in (e, digit, ap (λ xs. d ∷ xs) t, r)

get_or-behind :
    (xs : List ℕ) (d : ℕ) (rest : List ℕ) (n : ℕ) → length xs ≡ n → get_or (xs ++ d ∷ rest) n 0 ≡ d
get_or-behind [] d rest n e = ground arith
get_or-behind (x ∷ xs) d rest zero e = absurd (omega arith)
get_or-behind (x ∷ xs) d rest (suc n) e = get_or-behind xs d rest n (omega arith)

insert-behind :
    (xs rest : List ℕ) (n : ℕ) → length xs ≡ n → insert_comma (xs ++ rest) n ≡ xs ++ b',' ∷ rest
unfolding insert_comma
insert-behind [] rest n e = let z : n ≡ 0 = omega arith in rw z refl
insert-behind (x ∷ xs) rest zero e = absurd (omega arith)
insert-behind (x ∷ xs) rest (suc n) e = ap (λ t. x ∷ t) (insert-behind xs rest n (omega arith))

-- One round of the loop on a digit.
comma_round :
    (xs : List ℕ) (d : ℕ) (rest : List ℕ) (n step : ℕ)
    → length xs ≡ suc n
    → isdigit d ≡ true
    → comma_loop (suc n) (xs ++ d ∷ rest) step
      ≡ comma_loop n
          (if step + 1 == 3 then xs ++ b',' ∷ d ∷ rest else xs ++ d ∷ rest)
          (if step + 1 == 3 then 0 else step + 1)
unfolding comma_loop
comma_round xs d rest n step e digit =
    ground (arith, get_or-behind xs d rest (suc n) e, insert-behind xs (d ∷ rest) (suc n) e)

grouped-front :
    (pre : List ℕ) (d : ℕ) (tail frac : List ℕ)
    → (if length tail % 3 + 1 == 3
        then pre ++ b',' ∷ d ∷ (grouped tail ++ frac)
        else pre ++ d ∷ (grouped tail ++ frac))
      ≡ pre ++ (grouped (d ∷ tail) ++ frac)
grouped-front pre d tail frac = ground arith

step_next : (m : ℕ) → (if m % 3 + 1 == 3 then 0 else m % 3 + 1) ≡ suc m % 3
step_next m = ground arith

module _ (c : ℕ) (ds frac : List ℕ) (digits : All (λ d. isdigit d ≡ true) ds) where
  comma_loop_lem :
      (n : ℕ)
      → n ≤ length ds
      → comma_loop n (c ∷ (take n ds ++ (grouped (drop n ds) ++ frac))) (length (drop n ds) % 3)
        ≡ c ∷ (grouped ds ++ frac)
  comma_loop_lem zero h = unfold comma_loop in refl
  comma_loop_lem (suc n) h =
      let (d, digit, t, r) = split_at n ds (omega arith) digits in
      let tail = drop (suc n) ds in
      ap (λ xs. comma_loop (suc n) (c ∷ xs) (length tail % 3))
        (ap (λ xs. xs ++ (grouped tail ++ frac)) t
          ∙ append_assoc (take n ds) (d ∷ []) (grouped tail ++ frac))
      ∙ comma_round (c ∷ take n ds) d (grouped tail ++ frac) n (length tail % 3)
          (omega (arith, length-take n ds)) digit
      ∙ ap₂ (λ xs k. comma_loop n xs k)
          (grouped-front (c ∷ take n ds) d tail frac
            ∙ ap (λ xs. c ∷ (take n ds ++ (grouped xs ++ frac))) (sym r))
          (step_next (length tail) ∙ ap (λ xs. length xs % 3) (sym r))
      ∙ comma_loop_lem n (omega arith)

  find_dot-digits :
      (xs : List ℕ)
      → All (λ d. isdigit d ≡ true) xs
      → Fraction frac
      → ((find_dot (xs ++ frac) ≡ none) × (frac ≡ [])) ⊎ (find_dot (xs ++ frac) ≡ some (length xs))
  unfolding find_dot isdigit
  find_dot-digits [] h (inl e) = inl (ground (arith, e), e)
  find_dot-digits [] h (inr (rest, e)) = inr (ground (arith, e))
  find_dot-digits (x ∷ xs) h f = elim (find_dot-digits xs h.1 f) [
    | inl (no_dot, e) ↦ inl (ground (arith, no_dot, h.0), e)
    | inr found ↦ inr (ground (arith, found, h.0))
  ]

  whole_loop : comma_loop (length ds) (c ∷ (ds ++ frac)) 0 ≡ c ∷ (grouped ds ++ frac)
  whole_loop =
      rw (take_all (length ds) ds (omega arith), drop-eq-nil (length ds) ds (omega arith)) at
        (comma_loop_lem (length ds) (omega arith))

  -- A text of one byte that is not a point, digits, and a fraction or nothing gets a comma before
  -- each digit from which a multiple of three digits are left before the fraction, also when the
  -- first byte is no digit.
  pub to_comma_formatted-eq-grouped :
      c ≢ b'.' → Fraction frac → to_comma_formatted (c ∷ (ds ++ frac)) ≡ c ∷ (grouped ds ++ frac)
  unfolding to_comma_formatted find_dot
  to_comma_formatted-eq-grouped nc f = elim (find_dot-digits ds digits f) [
    | inl (no_dot, e) ↦
        let len : length (ds ++ frac) ≡ length ds =
          length-append ds frac ∙ ap (λ t. length ds + length t) e ∙ omega arith in
        ground (arith, whole_loop, no_dot, len)
    | inr found ↦ ground (arith, whole_loop, found)
  ]
