-- ===== src/Decimal/Print/Shown.antt =====
-- The bytes of printed numbers, as the tests of `toString` (code/DecimalDecNumber.cpp) see them.
use mlnotes.Base.{
  ℕ, zero, suc, ◌+◌, ◌<◌, ◌≡◌, refl, Bool, true, false, ◌&&◌, List, [], ◌∷◌, ◌++◌, length, take,
  drop, replicate, ◌==◌, c_text, codes, arith, All, ap, ◌∙◌,
}
use mlnotes.Decimal.Text.{IsDigit}
use mlnotes.Decimal.Unpack.Scan.{minus_if}
use mlnotes.Decimal.Unpack.{find_byte}
use mlnotes.Decimal.Print.{equal_text}
use mlnotes.Decimal.Print.Strip.{digit_no_point}

-- The bytes of a text: digits, a point or a sign.
abbrev pub Shown : ℕ → Type 0
Shown c = (c == 0) ≡ false

abbrev pub NoPoint : ℕ → Type 0
NoPoint c = (c == b'.') ≡ false

pub digit-Shown : (c : ℕ) → IsDigit c → Shown c
digit-Shown c (low, high) = ground arith

pub digits-Shown : (cs : List ℕ) → All IsDigit cs → All Shown cs
digits-Shown [] h = tt
digits-Shown (c ∷ cs) h = (digit-Shown c h.0, digits-Shown cs h.1)

pub number-Shown : (w fr : List ℕ) → All IsDigit w → All IsDigit fr → All Shown (w ++ (b'.' ∷ fr))
number-Shown [] fr h k = (refl, digits-Shown fr k)
number-Shown (c ∷ cs) fr h k = (digit-Shown c h.0, number-Shown cs fr h.1 k)

pub text-Shown :
    (minus : Bool) (w fr : List ℕ)
    → All IsDigit w
    → All IsDigit fr
    → All Shown (minus_if minus ++ (w ++ (b'.' ∷ fr)))
text-Shown true w fr h k = (refl, number-Shown w fr h k)
text-Shown false w fr h k = number-Shown w fr h k

pub digits-NoPoint : (cs : List ℕ) → All IsDigit cs → All NoPoint cs
digits-NoPoint [] h = tt
digits-NoPoint (c ∷ cs) h = (digit_no_point c h.0, digits-NoPoint cs h.1)

pub front-NoPoint : (minus : Bool) (w : List ℕ) → All IsDigit w → All NoPoint (minus_if minus ++ w)
front-NoPoint true w h = (refl, digits-NoPoint w h)
front-NoPoint false w h = digits-NoPoint w h

pub find_point : (xs ys : List ℕ) → All NoPoint xs → find_byte b'.' (xs ++ (b'.' ∷ ys)) ≡ length xs
unfolding find_byte
find_point [] ys h = refl
find_point (x ∷ xs) ys h = rw h.0 (ap (λ k. 1 + k) (find_point xs ys h.1) ∙ omega arith)

pub and_false : (t : Bool) → (t && false) ≡ false
and_false true = refl
and_false false = refl

pub digit_no_n : (c : ℕ) → IsDigit c → (c == b'N') ≡ false
digit_no_n c (low, high) = ground arith

-- A number is not "NaN".
pub not_nan :
    (minus : Bool) (w fr rest : List ℕ)
    → All IsDigit w
    → 0 < length w
    → equal_text (c_text ((minus_if minus ++ (w ++ fr)) ++ rest)) (codes "NaN") ≡ false
unfolding equal_text
not_nan true w fr rest digits some_digit = refl
not_nan false [] fr rest digits some_digit = absurd (omega arith)
not_nan false (c ∷ cs) fr rest digits some_digit =
    rw (digit-Shown c digits.0, digit_no_n c digits.0) refl

pub All-append : (xs ys : List ℕ) → All IsDigit xs → All IsDigit ys → All IsDigit (xs ++ ys)
All-append [] ys h k = k
All-append (x ∷ xs) ys h k = (h.0, All-append xs ys h.1 k)

pub All-take : (n : ℕ) (xs : List ℕ) → All IsDigit xs → All IsDigit (take n xs)
All-take zero xs h = tt
All-take (suc n) [] h = tt
All-take (suc n) (x ∷ xs) h = (h.0, All-take n xs h.1)

pub All-drop : (n : ℕ) (xs : List ℕ) → All IsDigit xs → All IsDigit (drop n xs)
All-drop zero xs h = h
All-drop (suc n) [] h = tt
All-drop (suc n) (x ∷ xs) h = All-drop n xs h.1

pub zero_digit : IsDigit b'0'
zero_digit = (omega arith, omega arith)

pub All-zeros : (n : ℕ) → All IsDigit (replicate n b'0')
All-zeros zero = tt
All-zeros (suc n) = (zero_digit, All-zeros n)
