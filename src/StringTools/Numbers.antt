-- ===== src/StringTools/Numbers.antt =====
-- `isInteger` and `isInteger64` of code/StringTools.cpp. The C library's `strtol` and `strtoll` (64
-- bits both) are a parameter with what they document; `errno` is a state that they may set.
use mlnotes.Base.{
  ℕ, ◌-◌, ◌%◌, ◌^◌, ◌≡◌, ◌≢◌, ◌↔◌, ◌⊎◌, Bool, true, false, not, ◌&&◌, ◌||◌, List, arith, get_or,
  ◌==◌, if◌then◌else◌, to_int32,
}
use mlnotes.Base.Int.{ℤ, pos, negsuc, eq_ℤ}

-- What a call returns: the value, the number of bytes before `*endptr`, and whether it set ERANGE.
pub record Parsed : Type 0 where
  pub value : ℤ
  pub consumed : ℕ
  pub range : Bool

abbrev pub long_max : ℤ
long_max = pos (2 ^ 63 - 1)

abbrev pub long_min : ℤ
long_min = negsuc (2 ^ 63 - 1)

-- The conversion of a 64-bit result to int.
abbrev pub int_of_long : ℤ → ℤ
int_of_long (pos n) = to_int32 (n % 2 ^ 32)
int_of_long (negsuc n) = to_int32 (2 ^ 32 - 1 - n % 2 ^ 32)

-- What the manual of `strtol` states of its results.
pub record Documented (strtol : List ℕ → ℕ → Parsed) : Type 0 where
  pub nothing :
      (str : List ℕ) (radix : ℕ)
      → (strtol str radix).consumed ≡ 0
      → (strtol str radix).value ≡ pos 0
  pub clamped :
      (str : List ℕ) (radix : ℕ)
      → (strtol str radix).range ≡ true
      → ((strtol str radix).value ≡ long_max) ⊎ ((strtol str radix).value ≡ long_min)

module _ (strtol : List ℕ → ℕ → Parsed) where
  -- The tests in their order, on the result as it was stored; `stale` is whether `errno` was ERANGE
  -- before the call.
  abbrev pub accepts : Bool → List ℕ → ℕ → ℤ → Bool
  accepts stale str radix result =
      let r = strtol str radix in
      let erange = stale || r.range in
      if eq_ℤ result (pos 0) && r.consumed == 0
      then false
      else if not (get_or str r.consumed 0 == 0)
      then false
      else if erange && (eq_ℤ result long_max || eq_ℤ result long_min)
      then false
      else if eq_ℤ result (pos 0) && erange
      then false
      else true

  unfoldable pub is_integer : Bool → List ℕ → ℕ → Bool × ℤ
  is_integer stale str radix =
      let result = int_of_long (strtol str radix).value in (accepts stale str radix result, result)

  unfoldable pub is_integer64 : Bool → List ℕ → ℕ → Bool × ℤ
  is_integer64 stale str radix =
      let result = (strtol str radix).value in (accepts stale str radix result, result)

  -- With `errno` clear, the 64-bit test holds exactly where bytes were converted up to the end of the
  -- string and the value was in range.
  pub is_integer64_iff :
      (str : List ℕ) (radix : ℕ)
      → Documented strtol
      → ((is_integer64 false str radix).0 ≡ true) ↔ (
          ((strtol str radix).consumed ≢ 0)
          × (get_or str (strtol str radix).consumed 0 ≡ 0)
          × ((strtol str radix).range ≡ false))
  unfolding is_integer64
  is_integer64_iff str radix d = (
    λ h. (
      λ e. ground (arith, d.nothing str radix e),
      ground arith,
      ground (arith, d.clamped str radix),
    ),
    λ h. ground (arith, h.0, h.1, h.2),
  )

  -- The 32-bit test accepts a number above the range of long, and stores -1 for it: the result is
  -- compared with the limits of long after it was cut down to int.
  pub is_integer-overflow :
      (stale : Bool) (str : List ℕ) (radix : ℕ)
      → (strtol str radix).value ≡ long_max
      → get_or str (strtol str radix).consumed 0 ≡ 0
      → is_integer stale str radix ≡ (true, negsuc 0)
  unfolding is_integer
  is_integer-overflow stale str radix e h = ground (arith, e, h)

  -- After an earlier range error that nobody cleared, the test rejects every text of the value 0.
  pub is_integer64-stale :
      (str : List ℕ) (radix : ℕ)
      → (strtol str radix).value ≡ pos 0
      → (is_integer64 true str radix).0 ≡ false
  unfolding is_integer64
  is_integer64-stale str radix e = ground (arith, e)
