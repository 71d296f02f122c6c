-- ===== src/Decimal/Rounding.antt =====
-- The rounding modes of code/DecimalDecNumber.cpp, over the ways in which the library rounds a
-- magnitude.
pub mod Places
pub mod Digits
use mlnotes.Base.{
  ℕ, suc, ◌+◌, ◌*◌, ◌%◌, ◌≤◌, ◌<◌, ◌≡◌, refl, Bool, true, false, not, ◌&&◌, ◌||◌, List, arith, ltb,
  leb, ◌==◌, if◌then◌else◌, codes, ◌⊎◌,
}
use native.Mathlib.Nat.{suc-mul}
use mlnotes.Decimal.{
  DecRound, dec_round_up, dec_round_half_up, dec_round_half_even, dec_round_half_down,
  dec_round_down,
}

pub data RoundingMode : Type 0 where
  round_half_to_positive_infinity : RoundingMode
  round_half_to_negative_infinity : RoundingMode
  round_to_positive_infinity : RoundingMode
  round_to_negative_infinity : RoundingMode
  round_away_from_zero : RoundingMode
  round_to_zero : RoundingMode
  round_half_away_from_zero : RoundingMode
  round_half_to_zero : RoundingMode
  round_half_to_even : RoundingMode

pub data RoundIncrement : Type 0 where
  tenth : RoundIncrement
  half : RoundIncrement
  quarter : RoundIncrement

pub record RoundParameters : Type 0 where
  pub decimal_places : ℕ
  pub round_mode : RoundingMode
  pub round_increment : RoundIncrement

-- The constructors with fewer arguments.
abbrev pub with_places : ℕ → RoundParameters
with_places n = record {
  decimal_places = n;
  round_mode = round_half_away_from_zero;
  round_increment = tenth;
}

abbrev pub with_mode : ℕ → RoundingMode → RoundParameters
with_mode n mode = record { decimal_places = n; round_mode = mode; round_increment = tenth }

-- The switch of `round`.
unfoldable pub select_round : RoundingMode → Bool → DecRound
select_round round_half_to_positive_infinity negative =
    if negative then dec_round_half_down else dec_round_half_up
select_round round_half_to_negative_infinity negative =
    if negative then dec_round_half_up else dec_round_half_down
select_round round_to_positive_infinity negative = if negative then dec_round_down else dec_round_up
select_round round_to_negative_infinity negative = if negative then dec_round_up else dec_round_down
select_round round_away_from_zero negative = dec_round_up
select_round round_to_zero negative = dec_round_down
select_round round_half_away_from_zero negative = dec_round_half_up
select_round round_half_to_zero negative = dec_round_half_down
select_round round_half_to_even negative = dec_round_half_even

unfoldable pub rounding_mode_to_string : RoundingMode → List ℕ
rounding_mode_to_string round_half_to_positive_infinity = codes "rounded up"
rounding_mode_to_string round_to_positive_infinity = codes "rounded up"
rounding_mode_to_string round_half_to_negative_infinity = codes "rounded down"
rounding_mode_to_string round_to_negative_infinity = codes "rounded down"
rounding_mode_to_string round_away_from_zero = codes "rounded away from zero"
rounding_mode_to_string round_to_zero = codes "rounded towards zero"
rounding_mode_to_string round_half_away_from_zero = codes "rounded half from zero"
rounding_mode_to_string round_half_to_zero = codes "rounded half towards zero"
rounding_mode_to_string round_half_to_even = codes "rounded half even"

-- Whether a magnitude of `q` units and `r` parts of a unit, of which `d` make one, goes up to the
-- next unit, as the library documents its ways of rounding.
abbrev pub goes_up : DecRound → ℕ → ℕ → ℕ → Bool
goes_up dec_round_up q r d = not (r == 0)
goes_up dec_round_half_up q r d = leb d (2 * r)
goes_up dec_round_half_even q r d = ltb d (2 * r) || (d == 2 * r && q % 2 == 1)
goes_up dec_round_half_down q r d = ltb d (2 * r)
goes_up dec_round_down q r d = false

-- `x` parts, of the sign given, are rounded to `k` parts of the same sign; `d` parts are a unit, and
-- `m` is the number of units of the result.
abbrev pub Rounds : RoundingMode → Bool → ℕ → ℕ → ℕ → ℕ → Type 0
Rounds round_to_positive_infinity false x k d m = (x ≤ k) × (k < x + d)
Rounds round_to_positive_infinity true x k d m = (k ≤ x) × (x < k + d)
Rounds round_to_negative_infinity false x k d m = (k ≤ x) × (x < k + d)
Rounds round_to_negative_infinity true x k d m = (x ≤ k) × (k < x + d)
Rounds round_away_from_zero negative x k d m = (x ≤ k) × (k < x + d)
Rounds round_to_zero negative x k d m = (k ≤ x) × (x < k + d)
Rounds round_half_to_positive_infinity false x k d m = (2 * k ≤ 2 * x + d) × (2 * x < 2 * k + d)
Rounds round_half_to_positive_infinity true x k d m = (2 * x ≤ 2 * k + d) × (2 * k < 2 * x + d)
Rounds round_half_to_negative_infinity false x k d m = (2 * x ≤ 2 * k + d) × (2 * k < 2 * x + d)
Rounds round_half_to_negative_infinity true x k d m = (2 * k ≤ 2 * x + d) × (2 * x < 2 * k + d)
Rounds round_half_away_from_zero negative x k d m = (2 * k ≤ 2 * x + d) × (2 * x < 2 * k + d)
Rounds round_half_to_zero negative x k d m = (2 * x ≤ 2 * k + d) × (2 * k < 2 * x + d)
Rounds round_half_to_even negative x k d m =
    (2 * x ≤ 2 * k + d)
    × (2 * k ≤ 2 * x + d)
    × ((2 * x ≡ 2 * k + d) ⊎ (2 * k ≡ 2 * x + d) → m % 2 ≡ 0)

-- What is left to show when `k` is known in units.
rounds_lem :
    (mode : RoundingMode) (negative : Bool) (q r d p : ℕ)
    → r < d
    → let up = goes_up (select_round mode negative) q r d in
      Rounds mode negative (p + r) (if up then p + d else p) d (if up then suc q else q)
unfolding select_round
rounds_lem round_to_positive_infinity false q r d p h = ground arith
rounds_lem round_to_positive_infinity true q r d p h = ground arith
rounds_lem round_to_negative_infinity false q r d p h = ground arith
rounds_lem round_to_negative_infinity true q r d p h = ground arith
rounds_lem round_away_from_zero negative q r d p h = ground arith
rounds_lem round_to_zero negative q r d p h = ground arith
rounds_lem round_half_to_positive_infinity false q r d p h = ground arith
rounds_lem round_half_to_positive_infinity true q r d p h = ground arith
rounds_lem round_half_to_negative_infinity false q r d p h = ground arith
rounds_lem round_half_to_negative_infinity true q r d p h = ground arith
rounds_lem round_half_away_from_zero negative q r d p h = ground arith
rounds_lem round_half_to_zero negative q r d p h = ground arith
rounds_lem round_half_to_even negative q r d p h = ground arith

-- A whole number of units in parts.
units : (up : Bool) (q d : ℕ) → (if up then suc q else q) * d ≡ (if up then q * d + d else q * d)
units true q d = suc-mul q d
units false q d = refl

-- If the library rounds a magnitude as it documents, the way that `round` selects by the sign gives
-- the mode's rounding of the signed number: up, down, away from zero or to zero by less than a unit,
-- or to the nearest unit, where ties go up, down, away from zero, to zero or to the even unit.
pub select_round_lem :
    (rounding : DecRound → ℕ → ℕ → ℕ) (mode : RoundingMode) (negative : Bool) (q r d : ℕ)
    → ((way : DecRound) (q' r' d' : ℕ)
        → r' < d'
        → rounding way (q' * d' + r') d' ≡ (if goes_up way q' r' d' then suc q' else q'))
    → r < d
    → let m = rounding (select_round mode negative) (q * d + r) d in
      Rounds mode negative (q * d + r) (m * d) d m
select_round_lem rounding mode negative q r d documented h =
    let up = goes_up (select_round mode negative) q r d in
    rw (documented (select_round mode negative) q r d h, units up q d)
      (rounds_lem mode negative q r d (q * d) h)
