-- ===== src/Decimal/ToInt.antt =====
-- `convertToIntX<int64>` of code/DecimalDecNumber.cpp: the units of a decimal number, three digits
-- in each, the least significant first, are summed up with a test for overflow.
use mlnotes.Base.{
  false, ℕ, ◌+◌, ◌-◌, ◌*◌, ◌%◌, ◌^◌, ◌≤◌, ◌<◌, ◌≡◌, refl, Bool, true, not, ◌||◌, ◌&&◌, Option, none,
  some, List, [], ◌∷◌, arith, length, ltb, leb, if◌then◌else◌, ap, ◌∙◌, ◌>>=◌,
}
use native.Mathlib.Numerals.{unary_clauses}
use native.Mathlib.Decide.{dec_lt}
use native.Mathlib.Nat.{pow-le-pow_right}
use mlnotes.Base.Int.{ℤ, pos, neg_ℕ, eq_ℤ}

-- What is read of a decNumber: whether it is a NaN or an infinity, its sign, and its other fields.
pub record Parts : Type 0 where
  pub is_special : Bool
  pub is_negative : Bool
  pub exponent : ℤ
  pub digits : ℕ
  pub lsu : List ℕ

-- The loop from digit `i` on; `none` is an exception, or a unit behind the last. The power of ten is
-- an entry of the table, which has those below 19.
unfoldable pub units_loop : ℕ → ℕ → ℕ → ℕ → List ℕ → Option ℕ
units_loop max digits acc i [] = if ltb i digits then none else some acc
units_loop max digits acc i (u ∷ us) =
    let next = (acc + u * 10 ^ i % 2 ^ 64) % 2 ^ 64 in
    let rest = units_loop max digits next (i + 3) us in
    if ltb i digits then (if ltb next acc || ltb max next then none else rest) else some acc

-- The largest magnitude. For a negative number it is the negation of the least int64, which overflows
-- and is undefined: `least_negated` is what the compiler makes of it.
unfoldable pub max_magnitude : ℕ → Bool → ℕ
max_magnitude least_negated negative = if negative then least_negated else 2 ^ 63 - 1

-- The cast to int64 and the negation, of at most 2 ^ 63, which is cast to the least int64: the
-- negation of that overflows, which is undefined: `none`.
unfoldable pub signed_result : Bool → ℕ → Option ℤ
signed_result negative n =
    if ltb n (2 ^ 63) then some (if negative then neg_ℕ n else pos n) else none

unfoldable pub convert_to_int64 : ℕ → Parts → Option ℤ
convert_to_int64 least_negated p =
    if p.is_special
    then none
    else if not (eq_ℤ p.exponent (pos 0))
    then none
    else if ltb 19 p.digits
    then none
    else units_loop (max_magnitude least_negated p.is_negative) p.digits 0 0 p.lsu
      >>= signed_result p.is_negative

-- The number that units stand for, the first with the weight `w`.
abbrev pub units_value : ℕ → List ℕ → ℕ
units_value w [] = 0
units_value w (u ∷ us) = u * w + units_value (1000 * w) us

-- A finite integer as the library stores it: as many units as the digits need, and no zero in front
-- of them.
pub record IsInteger (p : Parts) : Type 0 where
  pub finite : p.is_special ≡ false
  pub whole : p.exponent ≡ pos 0
  pub enough : p.digits ≤ 3 * length p.lsu
  pub no_more : 3 * length p.lsu < p.digits + 3
  pub below : units_value 1 p.lsu < 10 ^ p.digits
  pub leading : 19 < p.digits → 10 ^ 19 ≤ units_value 1 p.lsu

units_loop_lem :
    (max digits acc i : ℕ) (us : List ℕ)
    → digits ≤ i + 3 * length us
    → i + 3 * length us < digits + 3
    → acc + units_value (10 ^ i) us < 2 ^ 64
    → acc ≤ max
    → units_loop max digits acc i us
      ≡ (let total = acc + units_value (10 ^ i) us in if leb total max then some total else none)
unfolding units_loop
units_loop_lem max digits acc i [] enough no_more small ok = ground arith
units_loop_lem max digits acc i (u ∷ us) enough no_more small ok =
    let p = 10 ^ i in
    let scaled : 10 ^ (i + 3) ≡ 1000 * p = simp unary_clauses (omega arith) in
    let next = acc + u * p in
    let same : (acc + u * p % 2 ^ 64) % 2 ^ 64 ≡ next = omega arith in
    let more : ltb i digits ≡ true = ground arith in
    let heavier : units_value (10 ^ (i + 3)) us ≡ units_value (1000 * p) us =
      ap (λ w. units_value w us) scaled in
    rw (same, more)
      (elim (dec_lt max next) [
        | yes over ↦ ground arith
        | no fits ↦
            let no_wrap : (ltb next acc || ltb max next) ≡ false = ground arith in
            let ih : units_loop max digits next (i + 3) us ≡ (
                if leb (next + units_value (10 ^ (i + 3)) us) max
                then some (next + units_value (10 ^ (i + 3)) us)
                else none) =
              units_loop_lem max digits next (i + 3) us (omega arith) (omega arith) (omega arith)
                (omega arith) in
            rw (no_wrap, ih) (ap (λ t. if leb t max then some t else none) (omega arith))
      ])

max_small :
    (least_negated : ℕ) (negative : Bool)
    → least_negated ≤ 2 ^ 63
    → max_magnitude least_negated negative ≤ 2 ^ 63
unfolding max_magnitude
max_small least_negated true h = h
max_small least_negated false h = omega arith

-- What the guards leave of an integer's conversion.
convert_guarded :
    (least_negated : ℕ) (p : Parts)
    → IsInteger p
    → convert_to_int64 least_negated p ≡ (
        if ltb 19 p.digits
        then none
        else units_loop (max_magnitude least_negated p.is_negative) p.digits 0 0 p.lsu
          >>= signed_result p.is_negative)
unfolding convert_to_int64
convert_guarded least_negated p g = rw (g.finite, g.whole) refl

signed_if :
    (fits : Bool) (n : ℕ) (negative : Bool)
    → ((if fits then some n else none) >>= signed_result negative)
      ≡ (if fits && ltb n (2 ^ 63) then some (if negative then neg_ℕ n else pos n) else none)
unfolding signed_result
signed_if true n negative = refl
signed_if false n negative = refl

-- An integer as the library stores it is converted to itself when its magnitude is below 2 ^ 63 and,
-- for a negative one, at most what the compiler makes of the negation of the least int64, which is
-- no more than 2 ^ 63. Otherwise it has no result: it throws or, where the least int64 passes the
-- test, its negation is undefined.
pub convert_to_int64_lem :
    (least_negated : ℕ) (p : Parts)
    → least_negated ≤ 2 ^ 63
    → IsInteger p
    → let n = units_value 1 p.lsu in
      convert_to_int64 least_negated p ≡ (
        if leb n (max_magnitude least_negated p.is_negative) && ltb n (2 ^ 63)
        then some (if p.is_negative then neg_ℕ n else pos n)
        else none)
convert_to_int64_lem least_negated p bound g =
    let n = units_value 1 p.lsu in
    let max = max_magnitude least_negated p.is_negative in
    let low = max_small least_negated p.is_negative bound in
    convert_guarded least_negated p g ∙ elim (dec_lt 19 p.digits) [
      | yes many ↦
          let long : ltb 19 p.digits ≡ true = ground arith in
          let over : leb n max ≡ false = ground (arith, g.leading) in rw (long, over) refl
      | no few ↦
          let short : ltb 19 p.digits ≡ false = ground arith in
          let small : 10 ^ p.digits ≤ 10 ^ 19 =
            pow-le-pow_right {n = 10} (omega arith) {i = p.digits} {j = 19} (omega arith) in
          let sum : units_loop max p.digits 0 0 p.lsu ≡ (if leb n max then some n else none) =
            units_loop_lem max p.digits 0 0 p.lsu (omega (arith, g.enough))
              (omega (arith, g.no_more)) (omega (arith, g.below)) (omega arith)
            ∙ ap (λ t. if leb t max then some t else none) {y = n} (omega arith) in
          rw (short, sum) (signed_if (leb n max) n p.is_negative)
    ]
