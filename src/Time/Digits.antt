-- ===== src/Time/Digits.antt =====
-- A printed number reads back: the conversions `%0wd` of code/Time.cpp.
use mlnotes.Base.{
  ℕ, zero, suc, ◌+◌, ◌-◌, ◌*◌, ◌/◌, ◌%◌, ◌^◌, ◌≤◌, ◌<◌, ◌≡◌, inl, inr, refl, Bool, true, false,
  ◌&&◌, some, List, [], ◌∷◌, ◌++◌, arith, length, ◌==◌, All, Bool-cases, ap, ◌∙◌, append_assoc,
  length-append, Bool-cases,
}
use mlnotes.Base.Int.{pos}
use native.Mathlib.Numerals.{unary_clauses}
use mlnotes.Format.{isdigit}
use mlnotes.Time.Text.{decimal, print_int, skip_spaces, digits, found_int, scan_int}

pow_suc : (w : ℕ) → 10 ^ suc w ≡ 10 * 10 ^ w
pow_suc w = simp unary_clauses (omega arith)

decimal-suc :
    (fuel w n : ℕ) → decimal (suc fuel) (suc w) n ≡ decimal fuel w (n / 10) ++ (b'0' + n % 10) ∷ []
unfolding decimal
decimal-suc fuel w n = let e : suc w - 1 ≡ w = omega arith in rw e (ground arith)

digits_suc :
    (k d m : ℕ) (rest : List ℕ) (found : Bool)
    → d < 10
    → digits (suc k) ((b'0' + d) ∷ rest) m found ≡ digits k rest (m * 10 + d) true
unfolding digits isdigit
digits_suc k d m rest found h = let e : b'0' + d - b'0' ≡ d = omega arith in ground (arith, e)

-- Whether a digit has been read after `w` more of them.
abbrev read_any : ℕ → Bool → Bool
read_any zero found = found
read_any (suc w) found = true

-- As many digits as the width are read, and the rest is left.
digits-decimal :
    (fuel w k n : ℕ) (rest : List ℕ) (found : Bool)
    → w ≤ fuel
    → n < 10 ^ w
    → digits (w + k) (decimal fuel w n ++ rest) 0 found ≡ digits k rest n (read_any w found)
unfolding decimal
digits-decimal zero zero k n rest found hf hn =
    let e : n ≡ 0 = omega arith in let e' : 0 + k ≡ k = omega arith in rw (e, e') refl
digits-decimal zero (suc w) k n rest found hf hn = absurd (omega arith)
digits-decimal (suc fuel) zero k n rest found hf hn =
    let e : n ≡ 0 = omega arith in let e' : 0 + k ≡ k = omega arith in rw (e, e') refl
digits-decimal (suc fuel) (suc w) k n rest found hf hn =
    let small : n / 10 < 10 ^ w = omega (arith, pow_suc w) in
    let e : suc w + k ≡ w + suc k = omega arith in
    rw (e, decimal-suc fuel w n)
      (ap (λ xs. digits (w + suc k) xs 0 found)
          (append_assoc (decimal fuel w (n / 10)) ((b'0' + n % 10) ∷ []) rest)
        ∙ digits-decimal fuel w (suc k) (n / 10) ((b'0' + n % 10) ∷ rest) found (omega arith) small
        ∙ digits_suc k (n % 10) (n / 10) rest _ (omega arith)
        ∙ ap (λ m. digits k rest m true) (omega arith))

All-append : (P : ℕ → Type 0) (xs ys : List ℕ) → All P xs → All P ys → All P (xs ++ ys)
All-append P [] ys h k = k
All-append P (x ∷ xs) ys h k = (h.0, All-append P xs ys h.1 k)

decimal-digits : (fuel w n : ℕ) → All (λ c. isdigit c ≡ true) (decimal fuel w n)
unfolding decimal
decimal-digits zero w n = _
decimal-digits (suc fuel) w n = elim (Bool-cases (n == 0 && w == 0)) [
  | inl stop ↦ rw stop _
  | inr go ↦ rw go (
      All-append (λ c. isdigit c ≡ true) (decimal fuel (w - 1) (n / 10)) _
        (decimal-digits fuel (w - 1) (n / 10)) (unfold isdigit in (ground arith, _)))
]

-- The first byte of a text, which is a digit.
pub record Front (s : List ℕ) : Type 0 where
  pub byte : ℕ
  pub more : List ℕ
  pub text : s ≡ byte ∷ more
  pub digit : isdigit byte ≡ true

append-Front :
    (xs : List ℕ) (c : ℕ) (rest : List ℕ)
    → All (λ c. isdigit c ≡ true) xs
    → isdigit c ≡ true
    → Front (xs ++ c ∷ rest)
append-Front [] c rest h d = record { byte = c; more = rest; text = refl; digit = d }
append-Front (x ∷ xs) c rest h d = record {
  byte = x;
  more = xs ++ c ∷ rest;
  text = refl;
  digit = h.0;
}

-- A number below 10 ^ w, printed with at least `w` digits, starts with a digit.
decimal-Front : (fuel w n : ℕ) (rest : List ℕ) → Front (decimal (suc fuel) (suc w) n ++ rest)
decimal-Front fuel w n rest =
    rw (decimal-suc fuel w n, append_assoc (decimal fuel w (n / 10)) ((b'0' + n % 10) ∷ []) rest)
      (append-Front (decimal fuel w (n / 10)) (b'0' + n % 10) rest (decimal-digits fuel w (n / 10))
        (unfold isdigit in ground arith))

print_int-eq-decimal : (w n : ℕ) → print_int (suc w) (pos n) ≡ decimal 20 (suc w) n
unfolding print_int
print_int-eq-decimal w n = ground arith

-- A text that starts with a digit has no space and no sign in front.
pub skip_spaces-Front : (s : List ℕ) → Front s → skip_spaces s ≡ s
unfolding skip_spaces isdigit
skip_spaces-Front s f = let d = f.digit in rw f.text (ground arith)

scan_int-Front : (w : ℕ) (s : List ℕ) → Front s → scan_int w s ≡ found_int pos (digits w s 0 false)
unfolding scan_int isdigit
scan_int-Front w s f = let d = f.digit in rw f.text (ground arith)

digits_zero : (rest : List ℕ) (n : ℕ) (found : Bool) → digits zero rest n found ≡ (n, found, rest)
unfolding digits
digits_zero rest n found = refl

pub print_int-Front : (w n : ℕ) (rest : List ℕ) → Front (print_int (suc w) (pos n) ++ rest)
print_int-Front w n rest = rw (print_int-eq-decimal w n) (decimal-Front 19 w n rest)

-- Scanning a number of its width reads the number that was printed, and leaves what follows.
pub scan_int-print_int :
    (w n : ℕ) (rest : List ℕ)
    → w < 20
    → n < 10 ^ suc w
    → scan_int (suc w) (print_int (suc w) (pos n) ++ rest) ≡ some (pos n, rest)
unfolding found_int
scan_int-print_int w n rest hw hn =
    scan_int-Front (suc w) _ (print_int-Front w n rest)
    ∙ ap (found_int pos) (
        ap (λ xs. digits (suc w) (xs ++ rest) 0 false) (print_int-eq-decimal w n)
        ∙ ap (λ k. digits k (decimal 20 (suc w) n ++ rest) 0 false) (omega arith)
        ∙ digits-decimal 20 (suc w) 0 n rest false (omega arith) hn
        ∙ digits_zero rest n true)

-- A number that fits its width is printed with as many digits.
length-decimal : (fuel w n : ℕ) → w ≤ fuel → n < 10 ^ w → length (decimal fuel w n) ≡ w
unfolding decimal
length-decimal zero zero n hf hn = refl
length-decimal zero (suc w) n hf hn = absurd (omega arith)
length-decimal (suc fuel) zero n hf hn = let e : n ≡ 0 = omega arith in rw e refl
length-decimal (suc fuel) (suc w) n hf hn =
    let small : n / 10 < 10 ^ w = omega (arith, pow_suc w) in
    rw (decimal-suc fuel w n, length-append)
      (ap (λ k. k + 1) (length-decimal fuel w (n / 10) (omega arith) small) ∙ omega arith)

pub length-print_int :
    (w n : ℕ) → w < 20 → n < 10 ^ suc w → length (print_int (suc w) (pos n)) ≡ suc w
length-print_int w n hw hn =
    rw (print_int-eq-decimal w n) (length-decimal 20 (suc w) n (omega arith) hn)
