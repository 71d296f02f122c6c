-- ===== src/Decimal.antt =====
-- code/DecimalDecNumber.cpp: a decimal number over the decNumber library, which is a parameter: its
-- numbers, its contexts and its functions. An exception is `none`.
pub mod Functions
pub mod Text
pub mod ToInt
pub mod Guards
pub mod Compare
pub mod Rounding
pub mod Unpack
pub mod Print
pub mod Tests
use mlnotes.Base.{
  ℕ, ◌+◌, ◌-◌, ◌^◌, ◌≡◌, Bool, true, false, not, ◌&&◌, ◌||◌, Option, none, some, List, ltb, leb,
  ◌==◌, if◌then◌else◌, ◌>>=◌, codes,
}
use mlnotes.Base.Int.{ℤ, pos, negsuc, ltb_ℤ, eq_ℤ, ◌≤ℤ◌}
use mlnotes.Decimal.Text.{int64_to_string, uint64_to_string}
use mlnotes.Decimal.ToInt.{Parts, convert_to_int64}

-- The library's ways of rounding that the source uses.
pub data DecRound : Type 0 where
  dec_round_up : DecRound
  dec_round_half_up : DecRound
  dec_round_half_even : DecRound
  dec_round_half_down : DecRound
  dec_round_down : DecRound

-- `decContext`: the precision, the rounding, and the status, which only an explicit call clears.
pub record DecContext : Type 0 where
  pub digits : ℕ
  pub round : DecRound
  pub status : ℕ

-- A function of two numbers and a context.
abbrev pub Binary : Type 0 → Type 0
Binary N = DecContext → N → N → N × DecContext

-- The functions of decNumber that the class calls; `N` is `decNumber`.
pub record DecLibrary (N : Type 0) : Type 0 where
  pub zero_number : N
  pub from_int32 : ℤ → N
  pub from_uint32 : ℕ → N
  pub from_string : DecContext → List ℕ → N × DecContext
  pub add : Binary N
  pub subtract : Binary N
  pub multiply : Binary N
  pub divide : Binary N
  pub compare : Binary N
  pub quantize : Binary N
  pub power_of : Binary N
  pub scale : Binary N
  pub square_root : DecContext → N → N × DecContext
  pub to_int32_of : DecContext → N → ℤ × DecContext
  pub copy_negate : N → N
  pub is_nan : N → Bool
  pub is_infinite : N → Bool
  pub is_zero : N → Bool
  pub is_negative : N → Bool
  pub parts : N → Parts
  -- `decNumberToString`: the text without its terminator.
  pub to_text : N → List ℕ
  -- `decNumberExp`, for the exponents from `emin` to `emax`.
  pub exponential : (emin : ℤ) (emax : ℕ) → DecContext → N → N × DecContext
  pub reduce : DecContext → N → N × DecContext
  -- The numbers whose fields `infinity` and `nan` set.
  pub infinite_number : Bool → N
  pub nan_number : N
  -- Whether a status has a bit of `DEC_Errors`.
  pub has_error : ℕ → Bool

pub record DecimalDecNumber (N : Type 0) : Type 0 where
  pub context : DecContext
  pub value : N

abbrev pub dec_num_digits : ℕ
dec_num_digits = 48

-- The context of the base specification, without traps.
abbrev pub new_context : ℕ → DecContext
new_context digits = record { digits = digits; round = dec_round_half_up; status = 0 }

module _ {N : Type 0} (lib : DecLibrary N) where
  unfoldable pub default_number : DecimalDecNumber N
  default_number = record { context = new_context dec_num_digits; value = lib.zero_number }

  unfoldable pub from_int : ℤ → DecimalDecNumber N
  from_int rhs = record { context = new_context dec_num_digits; value = lib.from_int32 rhs }

  unfoldable pub copy : DecimalDecNumber N → DecimalDecNumber N
  copy rhs = record { context = new_context dec_num_digits; value = rhs.value }

  -- A text that the library reads with the context of a new number.
  unfoldable pub read_new : List ℕ → DecimalDecNumber N
  read_new text =
      let r = lib.from_string (new_context dec_num_digits) text in
      record { context = r.1; value = r.0 }

  unfoldable pub from_int64 : ℤ → Option (DecimalDecNumber N)
  from_int64 rhs =
      if (not (ltb_ℤ rhs (pos 0)) && not (ltb_ℤ (pos (2 ^ 31 - 1)) rhs))
        || (ltb_ℤ rhs (pos 0) && not (ltb_ℤ rhs (negsuc (2 ^ 31 - 1))))
      then some (from_int rhs)
      else int64_to_string rhs >>= (λ text. some (read_new text))

  unfoldable pub from_uint64 : ℕ → DecimalDecNumber N
  from_uint64 rhs =
      if leb rhs (2 ^ 32 - 1)
      then record { context = new_context dec_num_digits; value = lib.from_uint32 rhs }
      else read_new (uint64_to_string rhs)

  -- `setValue`, which clears no status: `decContextClearStatus` is given an empty mask.
  unfoldable pub set_value : DecimalDecNumber N → List ℕ → Option (DecimalDecNumber N)
  set_value this rhs =
      let r = lib.from_string this.context rhs in
      if lib.has_error r.1.status then none else some (record { context = r.1; value = r.0 })

  unfoldable pub from_text : List ℕ → Option (DecimalDecNumber N)
  from_text str = set_value default_number str

  -- `operator=`: the context stays, with its status.
  unfoldable pub assign_int : DecimalDecNumber N → ℤ → DecimalDecNumber N
  assign_int this rhs = record { context = this.context; value = lib.from_int32 rhs }

  unfoldable pub assign : Bool → DecimalDecNumber N → DecimalDecNumber N → DecimalDecNumber N
  assign aliased this rhs =
      if aliased then this else record { context = this.context; value = rhs.value }

  -- The value and the context after a call of the library.
  abbrev pub store : N × DecContext → DecimalDecNumber N
  store r = record { context = r.1; value = r.0 }

  -- `+=`, `-=` and `*=`.
  unfoldable pub combine :
      Binary N → DecimalDecNumber N → DecimalDecNumber N → Option (DecimalDecNumber N)
  combine op this rhs =
      if lib.is_nan this.value || lib.is_nan rhs.value
      then none
      else some (store (op this.context this.value rhs.value))

  unfoldable pub plus_assign : DecimalDecNumber N → DecimalDecNumber N → Option (DecimalDecNumber N)
  plus_assign this rhs = combine lib.add this rhs

  unfoldable pub minus_assign :
      DecimalDecNumber N → DecimalDecNumber N → Option (DecimalDecNumber N)
  minus_assign this rhs = combine lib.subtract this rhs

  unfoldable pub times_assign :
      DecimalDecNumber N → DecimalDecNumber N → Option (DecimalDecNumber N)
  times_assign this rhs = combine lib.multiply this rhs

  unfoldable pub divide_assign :
      DecimalDecNumber N → DecimalDecNumber N → Option (DecimalDecNumber N)
  divide_assign this rhs =
      if lib.is_nan this.value || lib.is_nan rhs.value
      then none
      else if lib.is_zero rhs.value
      then none
      else if lib.is_infinite this.value || lib.is_infinite rhs.value
      then none
      else some (store (lib.divide this.context this.value rhs.value))

  -- `++` and `--`.
  unfoldable pub step_by : Binary N → DecimalDecNumber N → Option (DecimalDecNumber N)
  step_by op this =
      if lib.is_nan this.value
      then none
      else some (store (op this.context this.value (lib.from_int32 (pos 1))))

  unfoldable pub increment : DecimalDecNumber N → Option (DecimalDecNumber N)
  increment this = step_by lib.add this

  unfoldable pub decrement : DecimalDecNumber N → Option (DecimalDecNumber N)
  decrement this = step_by lib.subtract this

  unfoldable pub unary_plus : DecimalDecNumber N → Option (DecimalDecNumber N)
  unary_plus this = if lib.is_nan this.value then none else some (copy this)

  unfoldable pub unary_minus : DecimalDecNumber N → Option (DecimalDecNumber N)
  unary_minus this =
      if lib.is_nan this.value
      then none
      else some
          (record { context = new_context dec_num_digits; value = lib.copy_negate this.value })

  -- `infinity`, of which the argument is whether it is positive, and `nan`.
  unfoldable pub infinity : Bool → DecimalDecNumber N
  infinity positive = record default_number { value = lib.infinite_number (not positive) }

  unfoldable pub nan : DecimalDecNumber N
  nan = record default_number { value = lib.nan_number }

  unfoldable pub sign : DecimalDecNumber N → ℤ
  sign this =
      if lib.is_negative this.value
      then negsuc 0
      else if lib.is_zero this.value
      then pos 0
      else pos 1

  unfoldable pub is_positive : DecimalDecNumber N → Bool
  is_positive this = ltb_ℤ (pos 0) (sign this)

  unfoldable pub is_infinity : DecimalDecNumber N → ℤ
  is_infinity this =
      if lib.is_infinite this.value
      then (if lib.is_negative this.value then negsuc 0 else pos 1)
      else pos 0

  unfoldable pub is_valid : DecimalDecNumber N → Bool
  is_valid this = not (lib.is_nan this.value) && not (lib.is_infinite this.value)

  -- `convertToIntX<int32>`: a status of an earlier call counts as an error of this one.
  unfoldable pub convert_to_int32 : DecContext → N → Option ℤ
  convert_to_int32 context n =
      let r = lib.to_int32_of context n in if lib.has_error r.1.status then none else some r.0

  -- The number without a fraction: `decNumberQuantize` rounds it down, with a copy of the context.
  unfoldable pub whole_part : DecimalDecNumber N → N
  whole_part this =
      if eq_ℤ (lib.parts this.value).exponent (pos 0)
      then this.value
      else (lib.quantize (record this.context { round = dec_round_down }) this.value
          (lib.from_int32 (pos 0))).0

  unfoldable pub to_int32 : DecimalDecNumber N → Option ℤ
  to_int32 this = if is_valid this then convert_to_int32 this.context (whole_part this) else none

  unfoldable pub to_int64 : ℕ → DecimalDecNumber N → Option ℤ
  to_int64 least_negated this =
      if is_valid this then convert_to_int64 least_negated (lib.parts (whole_part this)) else none
