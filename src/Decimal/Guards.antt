-- ===== src/Decimal/Guards.antt =====
-- The exceptions and the conversions of code/DecimalDecNumber.cpp.
use mlnotes.Base.{
  ℕ, ◌-◌, ◌^◌, ◌≤◌, ◌<◌, ◌≡◌, refl, Bool, true, false, Option, none, some, List, arith, length,
  if◌then◌else◌, ap,
}
use native.Mathlib.Decide.{dec_lt}
use mlnotes.Base.Int.{ℤ, pos, negsuc, ◌≤ℤ◌, neg_part}
use mlnotes.Decimal.Text.{int64_to_string, Numeral, int64_to_string-Numeral}
use mlnotes.Decimal.{
  DecContext, DecLibrary, DecimalDecNumber, dec_num_digits, new_context, from_int, from_int64,
  read_new, assign_int, to_int32, convert_to_int32, whole_part, is_valid,
}

if_none : {A : Type 0} (t : Bool) → if◌then◌else◌ {A = Option A} t none none ≡ none
if_none true = refl
if_none false = refl

module _ {N : Type 0} (lib : DecLibrary N) where
  -- Once a call has left an error in the status of a number, its conversion to int32 throws, also
  -- after an int is assigned to it, if the library adds to the status and never clears it.
  pub to_int32-eq-none_of_status :
      (a : DecimalDecNumber N) (q : ℤ)
      → lib.has_error a.context.status ≡ true
      → ((c : DecContext) (n : N)
          → lib.has_error c.status ≡ true
          → lib.has_error (lib.to_int32_of c n).1.status ≡ true)
      → (to_int32 lib a ≡ none) × (to_int32 lib (assign_int lib a q) ≡ none)
  unfolding to_int32 convert_to_int32 assign_int
  to_int32-eq-none_of_status a q h keeps = (
    rw (keeps a.context (whole_part lib a) h) (if_none (is_valid lib a)),
    rw (keeps a.context (whole_part lib (assign_int lib a q)) h)
        (if_none (is_valid lib (assign_int lib a q))),
  )

  -- What the library documents of its readings, for a relation of its numbers to integers.
  pub record IsReading (Denotes : N → ℤ → Type 0) : Type 0 where
    pub int32 :
        (q : ℤ) → negsuc (2 ^ 31 - 1) ≤ℤ q → q ≤ℤ pos (2 ^ 31 - 1) → Denotes (lib.from_int32 q) q
    pub numeral :
        (c : DecContext) (text : List ℕ) (q : ℤ)
        → Numeral text q
        → length text ≤ c.digits
        → Denotes (lib.from_string c text).0 q

  from_int64_small : (n : ℕ) → n < 2 ^ 31 → from_int64 lib (pos n) ≡ some (from_int lib (pos n))
  unfolding from_int64
  from_int64_small n h = ground arith

  from_int64_small_neg :
      (n : ℕ) → n < 2 ^ 31 → from_int64 lib (negsuc n) ≡ some (from_int lib (negsuc n))
  unfolding from_int64
  from_int64_small_neg n h = ground arith

  from_int64_big :
      (n : ℕ) (text : List ℕ)
      → 2 ^ 31 - 1 < n
      → int64_to_string (pos n) ≡ some text
      → from_int64 lib (pos n) ≡ some (read_new lib text)
  unfolding from_int64
  from_int64_big n text h t = ground arith

  from_int64_big_neg :
      (n : ℕ) (text : List ℕ)
      → 2 ^ 31 - 1 < n
      → int64_to_string (negsuc n) ≡ some text
      → from_int64 lib (negsuc n) ≡ some (read_new lib text)
  unfolding from_int64
  from_int64_big_neg n text h t = ground arith

  -- Every int64 but the least makes a number that denotes it, without an exception, if the library
  -- reads an int32 and a numeral of no more characters than its precision exactly.
  pub from_int64-Denotes :
      (Denotes : N → ℤ → Type 0) (q : ℤ)
      → IsReading Denotes
      → negsuc (2 ^ 63 - 2) ≤ℤ q
      → q ≤ℤ pos (2 ^ 63 - 1)
      → (d : DecimalDecNumber N) × (from_int64 lib q ≡ some d) × Denotes d.value q
  unfolding from_int64 from_int read_new
  from_int64-Denotes Denotes (pos n) r low high = elim (dec_lt (2 ^ 31 - 1) n) [
    | yes big ↦
        let low' : negsuc (2 ^ 63 - 1) ≤ℤ pos n = omega arith in
        let t = (int64_to_string-Numeral (pos n) low' high).1 (λ e. ground arith) in
        (
          read_new lib t.0,
          from_int64_big n t.0 big t.1,
          r.numeral (new_context dec_num_digits) t.0 (pos n) t.2 (omega (arith, t.3)),
        )
    | no small ↦ (
      from_int lib (pos n),
      from_int64_small n (omega arith),
      r.int32 (pos n) (omega arith) (omega arith),
    )
  ]
  from_int64-Denotes Denotes (negsuc n) r low high = elim (dec_lt (2 ^ 31 - 1) n) [
    | yes big ↦
        let low' : negsuc (2 ^ 63 - 1) ≤ℤ negsuc n = omega arith in
        let t =
          (int64_to_string-Numeral (negsuc n) low' high).1 (λ e. ground (arith, ap neg_part e)) in
        (
          read_new lib t.0,
          from_int64_big_neg n t.0 big t.1,
          r.numeral (new_context dec_num_digits) t.0 (negsuc n) t.2 (omega (arith, t.3)),
        )
    | no small ↦ (
      from_int lib (negsuc n),
      from_int64_small_neg n (omega arith),
      r.int32 (negsuc n) (omega arith) (omega arith),
    )
  ]
