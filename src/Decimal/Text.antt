-- ===== src/Decimal/Text.antt =====
-- The printing of 64-bit integers of code/DecimalDecNumber.cpp.
use mlnotes.Base.{
  false, ℕ, zero, suc, ◌+◌, ◌-◌, ◌*◌, ◌/◌, ◌%◌, ◌^◌, ◌≤◌, ◌<◌, ◌≡◌, ◌≢◌, ◌⊎◌, ==_iff, refl, Option,
  none, some, List, [], ◌∷◌, ◌++◌, arith, length, length-append, ◌==◌, if◌then◌else◌, All, ap, sym,
  ◌∙◌, Bool-cases, inl, inr,
}
use native.Mathlib.Numerals.{unary_clauses}
use mlnotes.Base.Int.{ℤ, pos, negsuc, neg_ℕ, neg_part, ◌≤ℤ◌}

-- The digits that the loop stores, the last one first; 20 rounds are enough for 64 bits.
unfoldable pub digit_loop : ℕ → ℕ → List ℕ
digit_loop zero q = []
digit_loop (suc fuel) q =
    let more = digit_loop fuel (q / 10) in (b'0' + q % 10) ∷ (if q / 10 == 0 then [] else more)

-- `std::reverse`
unfoldable pub reverse : List ℕ → List ℕ
reverse [] = []
reverse (x ∷ xs) = reverse xs ++ (x ∷ [])

unfoldable pub uint64_to_string : ℕ → List ℕ
uint64_to_string q = reverse (digit_loop 20 q)

-- The negation of the least int64 overflows, which is undefined: `none`.
unfoldable pub int64_to_string : ℤ → Option (List ℕ)
int64_to_string (pos q) = some (reverse (digit_loop 20 q))
int64_to_string (negsuc q) =
    if suc q == 2 ^ 63 then none else some (reverse (digit_loop 20 (suc q) ++ (b'-' ∷ [])))

-- The value of decimal digits, read from the left.
abbrev pub read_digits : List ℕ → ℕ → ℕ
read_digits [] acc = acc
read_digits (c ∷ cs) acc = read_digits cs (acc * 10 + (c - b'0'))

abbrev pub IsDigit : ℕ → Type 0
IsDigit c = (b'0' ≤ c) × (c ≤ b'9')

pub pow_suc : (w : ℕ) → 10 ^ suc w ≡ 10 * 10 ^ w
pow_suc w = simp unary_clauses (omega arith)

read_digits-append :
    (xs : List ℕ) (c acc : ℕ)
    → read_digits (xs ++ (c ∷ [])) acc ≡ read_digits xs acc * 10 + (c - b'0')
read_digits-append [] c acc = refl
read_digits-append (x ∷ xs) c acc = read_digits-append xs c (acc * 10 + (x - b'0'))

read-digit_loop :
    (fuel q : ℕ) → q < 10 ^ suc fuel → read_digits (reverse (digit_loop (suc fuel) q)) 0 ≡ q
unfolding digit_loop reverse
read-digit_loop zero q h = let small : q / 10 ≡ 0 = omega arith in rw small (omega arith)
read-digit_loop (suc fuel) q h =
    let small : q / 10 < 10 ^ suc fuel = omega (arith, pow_suc (suc fuel)) in
    elim (Bool-cases (q / 10 == 0)) [
      | inl e ↦ rw e (omega (arith, (==_iff (q / 10) 0).0 e))
      | inr e ↦ rw e (
          read_digits-append (reverse (digit_loop (suc fuel) (q / 10))) (b'0' + q % 10) 0
          ∙ ap (λ m. m * 10 + (b'0' + q % 10 - b'0')) (read-digit_loop fuel (q / 10) small)
          ∙ omega arith)
    ]

length-reverse : (xs : List ℕ) → length (reverse xs) ≡ length xs
unfolding reverse
length-reverse [] = refl
length-reverse (x ∷ xs) =
    length-append (reverse xs) (x ∷ []) ∙ ap (λ n. n + 1) (length-reverse xs) ∙ omega arith

length-digit_loop : (fuel q : ℕ) → length (digit_loop fuel q) ≤ fuel
unfolding digit_loop
length-digit_loop zero q = omega arith
length-digit_loop (suc fuel) q = ground (arith, length-digit_loop fuel (q / 10))

All-append_one : (xs : List ℕ) (c : ℕ) → All IsDigit xs → IsDigit c → All IsDigit (xs ++ (c ∷ []))
All-append_one [] c h d = (d, h)
All-append_one (x ∷ xs) c h d = (h.0, All-append_one xs c h.1 d)

digits_in_range : (fuel q : ℕ) → All IsDigit (reverse (digit_loop fuel q))
unfolding digit_loop reverse
digits_in_range zero q = tt
digits_in_range (suc fuel) q = elim (Bool-cases (q / 10 == 0)) [
  | inl e ↦ rw e ((omega arith, omega arith), tt)
  | inr e ↦ rw e (
      All-append_one (reverse (digit_loop fuel (q / 10))) (b'0' + q % 10)
        (digits_in_range fuel (q / 10)) (omega arith, omega arith))
]

reverse-append_one : (xs : List ℕ) (c : ℕ) → reverse (xs ++ (c ∷ [])) ≡ c ∷ reverse xs
unfolding reverse
reverse-append_one [] c = refl
reverse-append_one (x ∷ xs) c = ap (λ ys. ys ++ (x ∷ [])) (reverse-append_one xs c)

-- Every uint64 is printed as at most 20 digits that read as it.
pub read-uint64_to_string :
    (q : ℕ)
    → q < 2 ^ 64
    → (read_digits (uint64_to_string q) 0 ≡ q) × (length (uint64_to_string q) ≤ 20)
unfolding uint64_to_string
read-uint64_to_string q h = (
  read-digit_loop 19 q (omega arith),
  omega (arith, length-reverse (digit_loop 20 q), length-digit_loop 20 q),
)

-- A text of decimal digits, after a minus sign or not, and the integer that it is.
abbrev pub Numeral : List ℕ → ℤ → Type 0
Numeral text q =
    (digits : List ℕ) × All IsDigit digits
    × (0 < length digits)
    × (((text ≡ digits) × (q ≡ pos (read_digits digits 0)))
        ⊎ ((text ≡ b'-' ∷ digits) × (q ≡ neg_ℕ (read_digits digits 0))))

not_least : (q : ℕ) → (suc q == 2 ^ 63) ≡ false → negsuc q ≢ negsuc (2 ^ 63 - 1)
not_least q e least = ground (arith, ap neg_part least)

nonempty : (fuel q : ℕ) → 0 < length (digit_loop (suc fuel) q)
unfolding digit_loop
nonempty fuel q = omega arith

-- Every int64 but the least is printed, as at most 21 characters: the digits of its magnitude, after
-- a minus sign when it is negative. The negation of the least overflows.
pub int64_to_string-Numeral :
    (q : ℤ)
    → negsuc (2 ^ 63 - 1) ≤ℤ q
    → q ≤ℤ pos (2 ^ 63 - 1)
    → (q ≡ negsuc (2 ^ 63 - 1) → int64_to_string q ≡ none)
      × (q ≢ negsuc (2 ^ 63 - 1)
          → (text : List ℕ) × (int64_to_string q ≡ some text) × Numeral text q × (length text ≤ 21))
unfolding int64_to_string
int64_to_string-Numeral (pos q) low high =
    let ds = reverse (digit_loop 20 q) in
    let long = length-reverse (digit_loop 20 q) in
    (
      λ e. ground arith,
      λ e. (
        ds,
        refl,
        (
          ds,
          digits_in_range 20 q,
          omega (arith, long, nonempty 19 q),
          inl (refl, ap pos (sym (read-digit_loop 19 q (omega arith)))),
        ),
        omega (arith, long, length-digit_loop 20 q),
      ),
    )
int64_to_string-Numeral (negsuc q) low high =
    let ds = reverse (digit_loop 20 (suc q)) in
    let long = length-reverse (digit_loop 20 (suc q)) in
    elim (Bool-cases (suc q == 2 ^ 63)) [
      | inl e ↦ rw e (
        λ least. refl,
        λ other.
            elim (other
              (ap negsuc {y = 2 ^ 63 - 1} (omega (arith, (==_iff (suc q) (2 ^ 63)).0 e)))) [ ],
      )
      | inr e ↦ rw e (
        λ least. elim (not_least q e least) [ ],
        λ other. (
          b'-' ∷ ds,
          ap some (reverse-append_one (digit_loop 20 (suc q)) b'-'),
          (
            ds,
            digits_in_range 20 (suc q),
            omega (arith, long, nonempty 19 (suc q)),
            inr (refl, sym (ap neg_ℕ {y = suc q} (read-digit_loop 19 (suc q) (omega arith)))),
          ),
          omega (arith, long, length-digit_loop 20 (suc q)),
        ),
      )
    ]
