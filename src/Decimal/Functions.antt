-- ===== src/Decimal/Functions.antt =====
-- The functions of decimal numbers of code/DecimalDecNumber.cpp and code/DecimalDecNumber.hpp that are
-- no members, the conversions of doubles, and the decimal components. The text that `snprintf` makes of
-- a double and the cast of a text to a double are parameters.
use mlnotes.Base.{ℕ, ◌-◌, Option, some, List, if◌then◌else◌, ◌>>=◌}
use mlnotes.Base.Int.{ℤ, pos, negsuc, eq_ℤ}
use mlnotes.Decimal.{
  DecLibrary, DecimalDecNumber, new_context, dec_num_digits, copy, store, read_new, from_int,
  from_int64, plus_assign, divide_assign, unary_minus,
}
use mlnotes.Decimal.Print.{to_string}

module _ {N : Type 0} (lib : DecLibrary N) where
  -- `avg`: the sum and the quotient are made of copies.
  unfoldable pub avg : DecimalDecNumber N → DecimalDecNumber N → Option (DecimalDecNumber N)
  avg lhs rhs =
      plus_assign lib (copy lib lhs) rhs
      >>= (λ sum. divide_assign lib (copy lib sum) (from_int lib (pos 2)))

  unfoldable pub power : DecimalDecNumber N → DecimalDecNumber N → DecimalDecNumber N
  power val exponent = record {
    context = new_context dec_num_digits;
    value = (lib.power_of val.context val.value exponent.value).0;
  }

  unfoldable pub power_int : DecimalDecNumber N → ℤ → DecimalDecNumber N
  power_int val exponent = record {
    context = new_context dec_num_digits;
    value = (lib.power_of val.context val.value (lib.from_int32 exponent)).0;
  }

  unfoldable pub sqrt : DecimalDecNumber N → DecimalDecNumber N
  sqrt val = record {
    context = new_context dec_num_digits;
    value = (lib.square_root val.context val.value).0;
  }

  unfoldable pub from_decimal_components : ℤ → ℤ → Option (DecimalDecNumber N)
  from_decimal_components significand exponent = from_int64 lib significand >>= (λ number.
      if eq_ℤ exponent (pos 0)
      then some number
      else some (store lib (lib.scale number.context number.value (lib.from_int32 exponent))))

  unfoldable pub exp : DecimalDecNumber N → DecimalDecNumber N
  exp val = record {
    context = new_context dec_num_digits;
    value =
        (lib.exponential (negsuc (1000000 - 2)) (1000000 - 1) (new_context dec_num_digits)
          val.value).0;
  }

  unfoldable pub abs : DecimalDecNumber N → Option (DecimalDecNumber N)
  abs value = if lib.is_negative value.value then unary_minus lib value else some (copy lib value)

  -- A double by its text with 15 digits.
  unfoldable pub from_double : List ℕ → DecimalDecNumber N
  from_double text = read_new lib text

  unfoldable pub assign_double : DecimalDecNumber N → List ℕ → DecimalDecNumber N
  assign_double this text = store lib (lib.from_string this.context text)

  unfoldable pub to_double : {D : Type 0} → (List ℕ → Option D) → DecimalDecNumber N → Option D
  to_double lexical_cast this = to_string lib this 15 >>= lexical_cast
