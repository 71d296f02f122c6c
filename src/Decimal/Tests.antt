-- ===== src/Decimal/Tests.antt =====
-- The theorems about code/DecimalDecNumber.cpp at concrete inputs, over a library whose numbers are
-- integers, of which the threshold is one.
pub mod Printing
use mlnotes.Base.{
  ℕ, suc, ◌+◌, ◌*◌, ◌/◌, ◌≤◌, ◌<◌, ◌≡◌, ◌≢◌, ◌↔◌, ◌⊎◌, inl, inr, refl, true, false, none, some,
  List, [], ◌∷◌, arith, length, ltb, ◌==◌, All, zero, ◌%◌, ap, ◌∙◌, if◌then◌else◌,
}
use native.Mathlib.Nat.{mul-add-div_right, mul-add-mod_self_right, div-eq_of_lt, mod-eq_of_lt}
use mlnotes.Base.Int.{
  ℤ, pos, negsuc, neg_ℕ, ◌+ℤ◌, ◌-ℤ◌, ◌*ℤ◌, ltb_ℤ, eq_ℤ, pos_part, neg_part, -ℤ_parts,
}
use mlnotes.Decimal.Text.{
  uint64_to_string, int64_to_string, IsDigit, read_digits, Numeral, read-uint64_to_string,
  int64_to_string-Numeral,
}
use mlnotes.Decimal.ToInt.{Parts, max_magnitude, convert_to_int64, convert_to_int64_lem}
use mlnotes.Decimal.{
  DecContext, DecLibrary, DecimalDecNumber, DecRound, new_context, from_int64, assign_int, to_int32,
  plus_assign, minus_assign, times_assign, divide_assign, read_new,
}
use mlnotes.Decimal.Guards.{to_int32-eq-none_of_status, from_int64-Denotes}
use mlnotes.Decimal.Compare.{
  comparison_threshold, comparison_threshold_negative, IsComparison, IsExact, Above, Tests,
  comparison_lem, eq-not_transitive, eq, lt,
}
use mlnotes.Decimal.Rounding.{
  round_to_negative_infinity, Rounds, goes_up, select_round, select_round_lem,
}

-- A function that leaves the context as it is.
abbrev exactly : (ℤ → ℤ → ℤ) → DecContext → ℤ → ℤ → ℤ × DecContext
exactly f c a b = (f a b, c)

abbrev sign_of : ℤ → ℤ → ℤ
sign_of a b = if ltb_ℤ a b then negsuc 0 else if ltb_ℤ b a then pos 1 else pos 0

-- What is read of a text. The thresholds' texts are read as 63037 and its negation.
abbrev read_text : List ℕ → ℤ
read_text [] = pos 0
read_text (c ∷ cs) = if c == b'-' then neg_ℕ (read_digits cs 0) else pos (read_digits (c ∷ cs) 0)

abbrev print_integer : ℤ → List ℕ
print_integer (pos n) = uint64_to_string n
print_integer (negsuc n) = b'-' ∷ uint64_to_string (suc n)

abbrev pub integers : DecLibrary ℤ
integers = record {
  zero_number = pos 0;
  from_int32 = λ q. q;
  from_uint32 = pos;
  from_string = λ c text. (read_text text, c);
  add = exactly ◌+ℤ◌;
  subtract = exactly ◌-ℤ◌;
  multiply = exactly ◌*ℤ◌;
  divide = exactly (λ a b. a);
  compare = exactly sign_of;
  quantize = exactly (λ a b. a);
  power_of = exactly (λ a b. a);
  scale = exactly (λ a b. a);
  square_root = λ c a. (a, c);
  to_int32_of = λ c a. (a, c);
  copy_negate = λ a. pos 0 -ℤ a;
  is_nan = λ a. false;
  is_infinite = λ a. false;
  is_zero = λ a. eq_ℤ a (pos 0);
  is_negative = λ a. ltb_ℤ a (pos 0);
  parts = λ a. record {
    is_special = false;
    is_negative = ltb_ℤ a (pos 0);
    exponent = pos 0;
    digits = 1;
    lsu = (pos_part a + neg_part a) ∷ [];
  };
  to_text = λ a. print_integer a;
  exponential = λ emin emax c a. (a, c);
  reduce = λ c a. (a, c);
  infinite_number = λ negative. pos 0;
  nan_number = pos 0;
  has_error = λ status. ltb 0 status;
}

abbrev pub number : ℤ → DecimalDecNumber ℤ
number q = record { context = new_context 48; value = q }

int64_to_string-Numeral_example :
    (negsuc 41 ≡ negsuc 9223372036854775807 → int64_to_string (negsuc 41) ≡ none)
    × (negsuc 41 ≢ negsuc 9223372036854775807
        → (text : List ℕ) × (int64_to_string (negsuc 41) ≡ some text)
          × Numeral text (negsuc 41)
          × (length text ≤ 21))
int64_to_string-Numeral_example = int64_to_string-Numeral (negsuc 41) (omega arith) (omega arith)

-- The least int64 but one.
abbrev nearly_least : Parts
nearly_least = record {
  is_special = false;
  is_negative = true;
  exponent = pos 0;
  digits = 19;
  lsu = 807 ∷ 775 ∷ 854 ∷ 36 ∷ 372 ∷ 223 ∷ 9 ∷ [];
}

-- The negation of the least int64 wraps to 2 ^ 63.
convert_to_int64_lem_example :
    convert_to_int64 (9223372036854775808) nearly_least ≡ some (negsuc 9223372036854775806)
unfolding max_magnitude
convert_to_int64_lem_example =
    convert_to_int64_lem (9223372036854775808) nearly_least (omega arith) (record {
      finite = refl;
      whole = refl;
      enough = omega arith;
      no_more = omega arith;
      below = omega arith;
      leading = λ h. omega arith;
    })

-- A number whose status notes an error.
abbrev overflowed : DecimalDecNumber ℤ
overflowed = record { context = record (new_context 48) { status = 512 }; value = pos 7 }

to_int32-eq-none_of_status_example :
    (to_int32 integers overflowed ≡ none)
    × (to_int32 integers (assign_int integers overflowed (pos 5)) ≡ none)
to_int32-eq-none_of_status_example =
    to_int32-eq-none_of_status integers overflowed (pos 5) refl (λ c n h. h)

read_plain :
    (digits : List ℕ)
    → All IsDigit digits
    → 0 < length digits
    → read_text digits ≡ pos (read_digits digits 0)
read_plain [] h some_digit = ground arith
read_plain (c ∷ cs) h some_digit = ground arith

read_text-Numeral : (text : List ℕ) (q : ℤ) → Numeral text q → read_text text ≡ q
read_text-Numeral text q (digits, h, some_digit, inl (t, e)) =
    rw (t, e) (read_plain digits h some_digit)
read_text-Numeral text q (digits, h, some_digit, inr (t, e)) = rw (t, e) refl

from_int64-Denotes_example :
    (d : DecimalDecNumber ℤ) × (from_int64 integers (negsuc 9876543210) ≡ some d)
    × (d.value ≡ negsuc 9876543210)
from_int64-Denotes_example =
    from_int64-Denotes integers (λ n q. n ≡ q) (negsuc 9876543210)
      (record {
        int32 = λ q low high. refl;
        numeral = λ c text q h short. read_text-Numeral text q h;
      })
      (omega arith) (omega arith)

integers-IsComparison : IsComparison integers (λ q. q) 63037
unfolding comparison_threshold comparison_threshold_negative read_new
integers-IsComparison = record {
  less = λ c c' a b h g under. ground arith;
  same = λ c c' a b h g e. ground arith;
  more = λ c c' a b h g over. ground arith;
  threshold = refl;
  threshold_negative = refl;
  numbers = (refl, refl);
}

integers-IsExact : (a b : ℤ) → IsExact integers (λ q. q) (number a) (number b)
integers-IsExact a b = record {
  left = refl;
  right = refl;
  finite = refl;
  difference = omega (arith, -ℤ_parts a b);
}

comparison_lem_example :
    let a = number (pos 70000) in
    let b = number (pos 5) in
    (Above integers (λ q. q) 63037 a b → Tests integers (pos 1) a b)
    × (Above integers (λ q. q) 63037 b a → Tests integers (negsuc 0) a b)
    × (¬ Above integers (λ q. q) 63037 a b
        → ¬ Above integers (λ q. q) 63037 b a
        → Tests integers (pos 0) a b)
comparison_lem_example =
    comparison_lem integers (λ q. q) 63037 integers-IsComparison (number (pos 70000))
      (number (pos 5)) (integers-IsExact (pos 70000) (pos 5))

eq-not_transitive_example :
    let a = number (pos 0) in
    let b = number (pos 63037) in
    let c = number (pos 126074) in
    (eq integers a b ≡ some true)
    × (eq integers b c ≡ some true)
    × (eq integers a c ≡ some false)
    × (lt integers a c ≡ some true)
unfolding ◌+ℤ◌
eq-not_transitive_example =
    eq-not_transitive integers (λ q. q) 63037 (number (pos 0)) (number (pos 63037))
      (number (pos 126074)) integers-IsComparison (omega arith) (integers-IsExact _ _)
      (integers-IsExact _ _) (integers-IsExact _ _) refl refl

-- A library that rounds as it documents.
abbrev by_division : DecRound → ℕ → ℕ → ℕ
by_division way x zero = 0
by_division way x (suc d) =
    if goes_up way (x / suc d) (x % suc d) (suc d) then suc (x / suc d) else x / suc d

by_division_lem :
    (way : DecRound) (q r d : ℕ)
    → r < d
    → by_division way (q * d + r) d ≡ (if goes_up way q r d then suc q else q)
by_division_lem way q r zero h = ground arith
by_division_lem way q r (suc d) h =
    let whole : (q * suc d + r) / suc d ≡ q =
      mul-add-div_right (omega arith) q r
      ∙ ap (λ k. q + k) {y = 0} (div-eq_of_lt h)
      ∙ omega arith in
    let part : (q * suc d + r) % suc d ≡ r = mul-add-mod_self_right q (suc d) r ∙ mod-eq_of_lt h in
    rw (whole, part) refl

select_round_lem_example :
    let m = by_division (select_round round_to_negative_infinity true) 27 10 in
    Rounds round_to_negative_infinity true 27 (m * 10) 10 m
select_round_lem_example =
    select_round_lem by_division round_to_negative_infinity true 2 7 10 by_division_lem
      (omega arith)
