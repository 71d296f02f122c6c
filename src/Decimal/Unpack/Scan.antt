-- ===== src/Decimal/Unpack/Scan.antt =====
-- How `unpackScientificFormat` (code/DecimalDecNumber.cpp) reads the parts of a number in scientific
-- notation: the sign, the point, the 'E' and the exponent.
use mlnotes.Base.{
  ℕ, zero, suc, ◌+◌, ◌-◌, ◌*◌, ◌≡◌, refl, List, [], ◌∷◌, ◌++◌, arith, length, take, ◌==◌, ◌||◌,
  if◌then◌else◌, lengths, ap, ◌∙◌, true, false, sym, append_assoc, get_or, Bool, All,
}
use mlnotes.Decimal.Text.{IsDigit, read_digits}
use mlnotes.Decimal.Unpack.{is_digit, find_byte, atoi_loop}
use mlnotes.Decimal.Unpack.Shift.{point_of, has_point, first_digit}

abbrev pub exponent_sign : Bool → ℕ
exponent_sign true = b'-'
exponent_sign false = b'+'

pub find_skip :
    (xs ys : List ℕ) (e n : ℕ)
    → All (λ x. (x == b'E') ≡ false) xs
    → e ≡ length xs + n
    → find_byte b'E' (take e (xs ++ ys)) ≡ length xs + find_byte b'E' (take n ys)
unfolding find_byte
find_skip [] ys e n other h =
    ap (λ k. find_byte b'E' (take k ys)) {y = n} (omega arith) ∙ omega arith
find_skip (x ∷ xs) ys zero n other h = absurd (omega arith)
find_skip (x ∷ xs) ys (suc e) n other h =
    rw (other.0) (ap (λ k. 1 + k) (find_skip xs ys e n other.1 (omega arith)) ∙ omega arith)

pub is_digit_lem : (c : ℕ) → IsDigit c → is_digit c ≡ true
is_digit_lem c (low, high) = ground arith

pub atoi_lem :
    (ms rest : List ℕ) (acc : ℕ)
    → All IsDigit ms
    → atoi_loop acc (ms ++ (0 ∷ rest)) ≡ read_digits ms acc
unfolding atoi_loop
atoi_lem [] rest acc digits = refl
atoi_lem (c ∷ cs) rest acc digits =
    let digit : is_digit c ≡ true = is_digit_lem c digits.0 in
    rw digit (atoi_lem cs rest (acc * 10 + (c - b'0')) digits.1)

-- The text in front of the 'E'.
abbrev pub mantissa : List ℕ → ℕ → List ℕ → List ℕ
mantissa s d ds = s ++ (d ∷ (point_of ds ++ ds))

pub mantissa_lem :
    (s ds tail : List ℕ) (d : ℕ)
    → s ++ (d ∷ (point_of ds ++ (ds ++ tail))) ≡ mantissa s d ds ++ tail
mantissa_lem s ds tail d =
    ap (λ l. s ++ (d ∷ l)) (sym (append_assoc (point_of ds) ds tail))
    ∙ sym (append_assoc s (d ∷ (point_of ds ++ ds)) tail)

pub second_byte :
    (s tail : List ℕ) (d c b : ℕ) → length s ≡ b → get_or (s ++ (d ∷ c ∷ tail)) (b + 1) 0 ≡ c
second_byte s tail d c b h =
    ap (λ l. get_or l (b + 1) 0) (sym (append_assoc s (d ∷ []) (c ∷ tail)))
    ∙ first_digit (s ++ (d ∷ [])) tail c (b + 1) (simp lengths (omega arith))

pub point_lem :
    (s ds tail : List ℕ) (d b : ℕ)
    → length s ≡ b
    → (get_or (s ++ (d ∷ (point_of ds ++ (ds ++ (b'E' ∷ tail))))) (b + 1) 0 == b'.') ≡ has_point ds
point_lem s [] tail d b h = ap (λ c. c == b'.') (second_byte s tail d b'E' b h)
point_lem s (x ∷ xs) tail d b h =
    ap (λ c. c == b'.') (second_byte s ((x ∷ xs) ++ (b'E' ∷ tail)) d b'.' b h)

pub figures_lem :
    (ds : List ℕ) (b f : ℕ)
    → b + 1 + length (point_of ds) + length ds ≡ f
    → (if has_point ds then f - b - 1 else f - b) ≡ 1 + length ds
figures_lem [] b f h = omega arith
figures_lem (x ∷ xs) b f h = omega arith

pub sign_is_minus : (negative : Bool) → (exponent_sign negative == b'-') ≡ negative
sign_is_minus true = refl
sign_is_minus false = refl

pub sign_is_present :
    (negative : Bool) → (exponent_sign negative == b'-' || exponent_sign negative == b'+') ≡ true
sign_is_present true = refl
sign_is_present false = refl

abbrev pub minus_if : Bool → List ℕ
minus_if true = b'-' ∷ []
minus_if false = []

abbrev pub Other : ℕ → Type 0
Other c = (c == b'E') ≡ false

pub digit-Other : (c : ℕ) → IsDigit c → Other c
digit-Other c (low, high) = ground arith

pub digits-Other : (cs : List ℕ) → All IsDigit cs → All Other cs
digits-Other [] h = tt
digits-Other (c ∷ cs) h = (digit-Other c h.0, digits-Other cs h.1)

pub point-Other : (ds : List ℕ) → All IsDigit ds → All Other (point_of ds ++ ds)
point-Other [] h = tt
point-Other (x ∷ xs) h = (refl, digits-Other (x ∷ xs) h)

pub mantissa-Other :
    (minus : Bool) (d : ℕ) (ds : List ℕ)
    → IsDigit d
    → All IsDigit ds
    → All Other (mantissa (minus_if minus) d ds)
mantissa-Other true d ds digit digits = (refl, (digit-Other d digit, point-Other ds digits))
mantissa-Other false d ds digit digits = (digit-Other d digit, point-Other ds digits)

-- The buffer by its parts.
pub buffer_lem :
    (s ds ms rest : List ℕ) (d y c : ℕ)
    → (s ++ (d ∷ (point_of ds ++ (ds ++ (y ∷ c ∷ ms))))) ++ (0 ∷ rest)
      ≡ s ++ (d ∷ (point_of ds ++ (ds ++ (y ∷ c ∷ (ms ++ (0 ∷ rest))))))
buffer_lem s ds ms rest d y c =
    let end = 0 ∷ rest in
    append_assoc s (d ∷ (point_of ds ++ (ds ++ (y ∷ c ∷ ms)))) end
    ∙ ap (λ l. s ++ (d ∷ l))
        (append_assoc (point_of ds) (ds ++ (y ∷ c ∷ ms)) end
          ∙ ap (λ l. point_of ds ++ l) (append_assoc ds (y ∷ c ∷ ms) end))

pub find_exponent :
    (s ds ms rest : List ℕ) (d c f e : ℕ)
    → All Other (mantissa s d ds)
    → length s + 1 + length (point_of ds) + length ds ≡ f
    → f + 2 + length ms ≡ e
    → find_byte b'E' (take e (s ++ (d ∷ (point_of ds ++ (ds ++ (b'E' ∷ c ∷ (ms ++ (0 ∷ rest))))))))
      ≡ f
unfolding find_byte
find_exponent s ds ms rest d c f e other at_f at_e =
    let tail = b'E' ∷ c ∷ (ms ++ (0 ∷ rest)) in
    let at_front : length (mantissa s d ds) ≡ f = simp lengths (omega arith) in
    ap (λ l. find_byte b'E' (take e l)) (mantissa_lem s ds tail d)
    ∙ find_skip (mantissa s d ds) tail e (suc (1 + length ms)) other (omega arith)
    ∙ omega arith

pub digit_no_minus : (d : ℕ) → IsDigit d → (d == b'-') ≡ false
digit_no_minus d (low, high) = ground arith
