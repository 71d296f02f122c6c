-- ===== src/Decimal/Rounding/Digits.antt =====
-- The precision with which `round` of code/DecimalDecNumber.cpp reads a number again, for the numbers
-- that the library prints in plain notation with a nonzero digit behind the point.
use mlnotes.Base.{
  ℕ, zero, suc, ◌+◌, ◌-◌, ◌^◌, ◌%◌, ◌≤◌, ◌<◌, ◌≡◌, ◌⊎◌, inl, inr, refl, Bool-cases, Bool, true,
  false, ◌||◌, some, List, [], ◌∷◌, ◌++◌, length, drop, replicate, get_or, ltb, ◌==◌, if◌then◌else◌,
  arith, All, lengths, length-replicate, ap, ◌∙◌, append_assoc, add32, sub32, to_int32, drop-append,
}
use native.Mathlib.Decide.{dec_lt}
use mlnotes.Base.Int.{pos, negsuc, ltb_ℤ}
use mlnotes.Decimal.{DecContext, DecLibrary, DecimalDecNumber}
use mlnotes.Decimal.Text.{IsDigit}
use mlnotes.Decimal.Rounding.{RoundingMode, tenth, select_round}
use mlnotes.Decimal.Rounding.Places.{
  round, round_text, plain_text, buffer_of, significant_digits, skip_to_nonzero, scale_increment,
}
use mlnotes.Decimal.Unpack.Scan.{minus_if}
use mlnotes.Decimal.Unpack.{find_byte}

skip_lem :
    (k c : ℕ) (fr : List ℕ)
    → b'1' ≤ c
    → c ≤ b'9'
    → skip_to_nonzero (replicate k b'0' ++ (c ∷ fr)) ≡ k
unfolding skip_to_nonzero
skip_lem zero c fr low high = let t : (ltb c b'1' || ltb b'9' c) ≡ false = ground arith in rw t refl
skip_lem (suc k) c fr low high = ap (λ n. 1 + n) (skip_lem k c fr low high) ∙ omega arith

-- A byte that is not in front.
abbrev pub Absent : ℕ → List ℕ → Type 0
Absent c xs = All (λ x. (x == c) ≡ false) xs

find_byte_lem : (c : ℕ) (xs ys : List ℕ) → Absent c xs → find_byte c (xs ++ (c ∷ ys)) ≡ length xs
unfolding find_byte
find_byte_lem c [] ys h = let same : (c == c) ≡ true = ground arith in rw same refl
find_byte_lem c (x ∷ xs) ys h = rw h.0 (ap (λ n. 1 + n) (find_byte_lem c xs ys h.1) ∙ omega arith)

pub find_byte_none : (c : ℕ) (xs : List ℕ) → Absent c xs → find_byte c xs ≡ length xs
unfolding find_byte
find_byte_none c [] h = refl
find_byte_none c (x ∷ xs) h = rw h.0 (ap (λ n. 1 + n) (find_byte_none c xs h.1) ∙ omega arith)

-- Where the digits begin.
abbrev first_digit : List ℕ → ℕ
first_digit text = if get_or text 0 0 == b'-' then 1 else 0

first_digit_lem :
    (minus : Bool) (d : ℕ) (w : List ℕ)
    → IsDigit d
    → let text = minus_if minus ++ (d ∷ w) in
      (first_digit text ≡ length (minus_if minus)) × (get_or text (first_digit text) 0 ≡ d)
first_digit_lem true d w h = (refl, refl)
first_digit_lem false d w (low, high) =
    let t : (d == b'-') ≡ false = ground arith in rw t (refl, refl)

-- The number of decimal places as the precision of a number with `w` more digits in front, or `k`
-- zeros behind the point.
add_digits : (places n : ℕ) → places + n < 2 ^ 31 → to_int32 (add32 places n) ≡ pos (places + n)
add_digits places n h =
    let e : (places + n) % 2 ^ 32 ≡ places + n = omega arith in
    let small : ltb (places + n) (2 ^ 31) ≡ true = ground arith in rw (e, small) refl

sub_digits :
    (places k : ℕ)
    → places < 2 ^ 31
    → k < 2 ^ 31
    → to_int32 (sub32 places k)
      ≡ (if ltb places k then negsuc (k - places - 1) else pos (places - k))
sub_digits places k h₁ h₂ = elim (dec_lt places k) [
  | yes below ↦
      let t : ltb places k ≡ true = ground arith in
      let e : sub32 places k ≡ places + 2 ^ 32 - k = omega arith in
      let big : ltb (places + 2 ^ 32 - k) (2 ^ 31) ≡ false = ground arith in
      rw (t, e, big) (ap negsuc (omega arith))
  | no over ↦
      let t : ltb places k ≡ false = ground arith in
      let e : sub32 places k ≡ places - k = omega arith in
      let small : ltb (places - k) (2 ^ 31) ≡ true = ground arith in rw (t, e, small) refl
]

-- A text with the digits `d` and `w` in front of the point and, behind it, `k` zeros, the digit `c` that
-- is none, and the bytes `fr`.
abbrev pub number_text : Bool → ℕ → List ℕ → ℕ → ℕ → List ℕ → List ℕ
number_text minus d w k c fr =
    (minus_if minus ++ (d ∷ w)) ++ (b'.' ∷ (replicate k b'0' ++ (c ∷ fr)))

pub record IsNumber (d : ℕ) (w : List ℕ) (c : ℕ) (fr : List ℕ) : Type 0 where
  pub digit : IsDigit d
  pub digits : All IsDigit w
  pub nonzero : b'1' ≤ c
  pub decimal : c ≤ b'9'
  pub decimals : All IsDigit fr

digit-Absent : (b x : ℕ) → (b < b'0') ⊎ (b'9' < b) → IsDigit x → (x == b) ≡ false
digit-Absent b x (inl below) (low, high) = ground arith
digit-Absent b x (inr above) (low, high) = ground arith

pub digits-Absent : (b : ℕ) (xs : List ℕ) → (b < b'0') ⊎ (b'9' < b) → All IsDigit xs → Absent b xs
digits-Absent b [] other h = tt
digits-Absent b (x ∷ xs) other h = (digit-Absent b x other h.0, digits-Absent b xs other h.1)

pub Absent-append : (b : ℕ) (xs ys : List ℕ) → Absent b xs → Absent b ys → Absent b (xs ++ ys)
Absent-append b [] ys h k = k
Absent-append b (x ∷ xs) ys h k = (h.0, Absent-append b xs ys h.1 k)

pub minus-Absent : (b : ℕ) (minus : Bool) → (b'-' == b) ≡ false → Absent b (minus_if minus)
minus-Absent b true h = (h, tt)
minus-Absent b false h = tt

zeros-Absent : (b k : ℕ) → (b'0' == b) ≡ false → Absent b (replicate k b'0')
zeros-Absent b zero h = tt
zeros-Absent b (suc k) h = (h, zeros-Absent b k h)

front-Absent :
    (b : ℕ) (minus : Bool) (d : ℕ) (w : List ℕ)
    → (b'-' == b) ≡ false
    → (b < b'0') ⊎ (b'9' < b)
    → IsDigit d
    → All IsDigit w
    → Absent b (minus_if minus ++ (d ∷ w))
front-Absent b minus d w h other digit digits =
    Absent-append b (minus_if minus) (d ∷ w) (minus-Absent b minus h)
      (digits-Absent b (d ∷ w) other (digit, digits))

number-Absent_e :
    (minus : Bool) (d : ℕ) (w : List ℕ) (k c : ℕ) (fr : List ℕ)
    → IsNumber d w c fr
    → Absent b'E' (number_text minus d w k c fr)
number-Absent_e minus d w k c fr h =
    Absent-append b'E' (minus_if minus ++ (d ∷ w)) _
      (front-Absent b'E' minus d w refl (inr (omega arith)) h.digit h.digits)
      (
        refl,
        Absent-append b'E' (replicate k b'0') (c ∷ fr) (zeros-Absent b'E' k refl)
            (digits-Absent b'E' (c ∷ fr) (inr (omega arith)) ((nine_above, h.decimal), h.decimals)),
      )
  where
    nine_above : b'0' ≤ c
    nine_above = omega (arith, h.nonzero)

-- Where the point and the first nonzero digit behind it stand.
number_places :
    (minus : Bool) (d : ℕ) (w : List ℕ) (k c : ℕ) (fr : List ℕ)
    → IsNumber d w c fr
    → let text = number_text minus d w k c fr in
      let point = find_byte b'.' text in
      (point ≡ length (minus_if minus) + 1 + length w) × (skip_to_nonzero (drop point text) ≡ 1 + k)
unfolding skip_to_nonzero
number_places minus d w k c fr h =
    let front = minus_if minus ++ (d ∷ w) in
    let decimals = replicate k b'0' ++ (c ∷ fr) in
    let point : find_byte b'.' (front ++ (b'.' ∷ decimals)) ≡ length front =
      find_byte_lem b'.' front decimals
        (front-Absent b'.' minus d w refl (inl (omega arith)) h.digit h.digits) in
    let behind : drop (length front) (front ++ (b'.' ∷ decimals)) ≡ b'.' ∷ decimals =
      drop-append front (b'.' ∷ decimals) (length front) refl in
    (
      point ∙ simp lengths (omega arith),
      rw (point, behind) (ap (λ n. 1 + n) (skip_lem k c fr h.nonzero h.decimal)),
    )

-- The precision: the digits in front of the point count, or the zeros behind it, if there are none.
significant_digits_lem :
    (minus : Bool) (d : ℕ) (w : List ℕ) (k c : ℕ) (fr : List ℕ) (places : ℕ)
    → IsNumber d w c fr
    → k < 2 ^ 31
    → places + 1 + length w < 2 ^ 31
    → significant_digits (number_text minus d w k c fr) places ≡ (
        if d == b'0'
        then (if ltb places k then negsuc (k - places - 1) else pos (places - k))
        else pos (places + (1 + length w)))
unfolding significant_digits
significant_digits_lem minus d w k c fr places h small room =
    let text = number_text minus d w k c fr in
    let decimals = b'.' ∷ (replicate k b'0' ++ (c ∷ fr)) in
    let sign = length (minus_if minus) in
    let laid : text ≡ minus_if minus ++ (d ∷ (w ++ decimals)) =
      append_assoc (minus_if minus) (d ∷ w) decimals in
    let facts = first_digit_lem minus d (w ++ decimals) h.digit in
    let byte : get_or text (first_digit text) 0 ≡ d =
      ap (λ t. get_or t (first_digit t) 0) laid ∙ facts.1 in
    let first : first_digit text ≡ sign = ap first_digit laid ∙ facts.0 in
    let (point, behind) = number_places minus d w k c fr h in
    let zeros : sign + 1 + length w + (1 + k) - (sign + 1 + length w) - 1 ≡ k = omega arith in
    let more : sign + 1 + length w - sign ≡ 1 + length w = omega arith in
    rw (byte, first, behind, point, zeros, more)
      (elim (Bool-cases (d == b'0')) [
        | inl e ↦ rw e (sub_digits places k (omega arith) small)
        | inr e ↦ rw e (add_digits places (1 + length w) (omega arith))
      ])

below_zero : (n : ℕ) → ltb_ℤ (negsuc n) (pos 0) ≡ true
below_zero n = ground arith

not_below_zero : (n : ℕ) → ltb_ℤ (pos n) (pos 0) ≡ false
not_below_zero n = ground arith

module _ {N : Type 0} (lib : DecLibrary N) where
  plain_lem :
      (value : N) (minus : Bool) (d : ℕ) (w : List ℕ) (k c : ℕ) (fr : List ℕ)
      → IsNumber d w c fr
      → lib.to_text value ≡ number_text minus d w k c fr
      → length (number_text minus d w k c fr) < 256
      → plain_text lib value ≡ some (number_text minus d w k c fr)
  unfolding plain_text buffer_of
  plain_lem value minus d w k c fr h printed short =
      let text = number_text minus d w k c fr in
      let fits : ltb (length text) 256 ≡ true = ground arith in
      let no_exponent : find_byte b'E' text ≡ length text =
        find_byte_none b'E' text (number-Absent_e minus d w k c fr h) in
      let end : (length text == length text) ≡ true = ground arith in
      rw (printed, fits, no_exponent, end) refl

  -- What is read again: a number, as it is rounded to some digits.
  abbrev pub rounded : DecimalDecNumber N → ℕ → RoundingMode → List ℕ → DecimalDecNumber N
  rounded this digits mode text =
      let context : DecContext = record {
        digits = digits;
        round = select_round mode (lib.is_negative this.value);
        status = 0;
      } in
      record this { value = (lib.from_string context text).0 }

  -- A number that the library prints as `text`, in plain notation with a nonzero digit behind the
  -- point, is read again with a precision of the digits in front of the point and `places` more, or,
  -- below one, of `places` less the zeros behind the point; where this is negative, the number becomes
  -- zero in every mode.
  pub round_lem :
      (this : DecimalDecNumber N) (minus : Bool) (d : ℕ) (w : List ℕ) (k c : ℕ) (fr : List ℕ)
      (places : ℕ) (mode : RoundingMode)
      → IsNumber d w c fr
      → let text = number_text minus d w k c fr in
        lib.is_zero this.value ≡ false
        → lib.to_text this.value ≡ text
        → length text < 256
        → places + 256 < 2 ^ 31
        → round lib this places mode tenth
          ≡ some (
              if d == b'0'
              then (if ltb places k
                  then record this { value = lib.from_int32 (pos 0) }
                  else rounded this (places - k) mode text)
              else rounded this (places + (1 + length w)) mode text)
  unfolding round round_text scale_increment
  round_lem this minus d w k c fr places mode h nonzero printed short room =
      let text = number_text minus d w k c fr in
      let total : length text ≡ length (minus_if minus) + 1 + length w + (1 + k + (1 + length fr)) =
        simp (lengths, length-replicate) (omega arith) in
      let plain = plain_lem this.value minus d w k c fr h printed short in
      let digits = significant_digits_lem minus d w k c fr places h (omega arith) (omega arith) in
      let (point, behind) = number_places minus d w k c fr h in
      let inside : (length (minus_if minus) + 1 + length w + (1 + k) == length text) ≡ false =
        ground arith in
      rw (nonzero, plain, digits, behind, point, inside)
        (elim (Bool-cases (d == b'0')) [
          | inl e ↦ rw e (elim (Bool-cases (ltb places k)) [
            | inl below ↦ rw (below, below_zero (k - places - 1)) refl
            | inr over ↦ rw (over, not_below_zero (places - k)) refl
          ])
          | inr e ↦ rw (e, not_below_zero (places + (1 + length w))) refl
        ])
