-- ===== src/Decimal/Compare.antt =====
-- The comparisons of code/DecimalDecNumber.cpp, which hold within a tolerance.
use mlnotes.Base.{
  ℕ, zero, suc, ◌+◌, ◌<◌, ◌≡◌, ◌⊎◌, inl, inr, refl, Bool, true, false, not, ◌||◌, Option, none,
  some, arith, if◌then◌else◌, ◌>>=◌, codes, ap,
}
use native.Mathlib.Decide.{dec_lt}
use mlnotes.Base.Int.{
  ℤ, pos, negsuc, ltb_ℤ, eq_ℤ, neg_ℕ, eq_of_parts, ◌+ℤ◌, +ℤ_parts, pos_part, neg_part,
}
use mlnotes.Decimal.{
  DecContext, DecLibrary, DecimalDecNumber, new_context, read_new, copy, default_number,
  unary_minus,
}

abbrev pub dec_num_comparison_digits : ℕ
dec_num_comparison_digits = 16

neg_ℕ_parts : (t : ℕ) → (pos_part (neg_ℕ t) ≡ 0) × (neg_part (neg_ℕ t) ≡ t)
neg_ℕ_parts zero = (refl, refl)
neg_ℕ_parts (suc t) = (refl, refl)

module _ {N : Type 0} (lib : DecLibrary N) where
  -- The two thresholds are made of doubles, which the constructor prints and the library reads.
  unfoldable pub comparison_threshold : N
  comparison_threshold = (read_new lib (codes "1e-37")).value

  unfoldable pub comparison_threshold_negative : N
  comparison_threshold_negative = (read_new lib (codes "-1e-37")).value

  -- The result, and the context of the number after the calls, which note their status in it.
  unfoldable pub compared_to : DecimalDecNumber N → DecimalDecNumber N → Option (ℤ × DecContext)
  compared_to this rhs =
      let tmp = lib.subtract this.context this.value rhs.value in
      let above = lib.compare (new_context dec_num_comparison_digits) tmp.0 comparison_threshold in
      let first = lib.to_int32_of tmp.1 above.0 in
      let below = lib.compare above.1 tmp.0 comparison_threshold_negative in
      let second = lib.to_int32_of first.1 below.0 in
      if lib.is_nan this.value || lib.is_nan rhs.value
      then none
      else if not (ltb_ℤ first.0 (pos 1))
      then some (pos 1, first.1)
      else if not (ltb_ℤ (negsuc 0) second.0)
      then some (negsuc 0, second.1)
      else some (pos 0, second.1)

  -- A test of the result.
  abbrev comparison : (ℤ → Bool) → DecimalDecNumber N → DecimalDecNumber N → Option Bool
  comparison test this rhs = compared_to this rhs >>= (λ r. some (test (r.0)))

  unfoldable pub lt : DecimalDecNumber N → DecimalDecNumber N → Option Bool
  lt this rhs = comparison (λ c. ltb_ℤ c (pos 0)) this rhs

  unfoldable pub le : DecimalDecNumber N → DecimalDecNumber N → Option Bool
  le this rhs = comparison (λ c. not (ltb_ℤ (pos 0) c)) this rhs

  unfoldable pub eq : DecimalDecNumber N → DecimalDecNumber N → Option Bool
  eq this rhs = comparison (λ c. eq_ℤ c (pos 0)) this rhs

  unfoldable pub ne : DecimalDecNumber N → DecimalDecNumber N → Option Bool
  ne this rhs = comparison (λ c. not (eq_ℤ c (pos 0))) this rhs

  unfoldable pub ge : DecimalDecNumber N → DecimalDecNumber N → Option Bool
  ge this rhs = comparison (λ c. not (ltb_ℤ c (pos 0))) this rhs

  unfoldable pub gt : DecimalDecNumber N → DecimalDecNumber N → Option Bool
  gt this rhs = comparison (λ c. ltb_ℤ (pos 0) c) this rhs

  -- `distance`, with `abs` of its header.
  unfoldable pub distance : DecimalDecNumber N → DecimalDecNumber N → Option (DecimalDecNumber N)
  distance this rhs =
      let d : DecimalDecNumber N = record {
        context = (default_number lib).context;
        value = (lib.subtract this.context this.value rhs.value).0;
      } in
      if lib.is_negative d.value then unary_minus lib d else some (copy lib d)

  unfoldable pub equals_delta :
      DecimalDecNumber N → DecimalDecNumber N → DecimalDecNumber N → Option Bool
  equals_delta this rhs delta = distance this rhs >>= (λ dist. le dist delta)

  -- What the library documents of its comparison: -1, 0 or 1, as the values are, in units that
  -- are small enough for the values and the threshold, which is `t` of them.
  pub record IsComparison (value : N → ℤ) (t : ℕ) : Type 0 where
    pub less :
        (c c' : DecContext) (a b : N)
        → lib.is_nan a ≡ false
        → lib.is_nan b ≡ false
        → pos_part (value a) + neg_part (value b) < pos_part (value b) + neg_part (value a)
        → (lib.to_int32_of c' (lib.compare c a b).0).0 ≡ negsuc 0
    pub same :
        (c c' : DecContext) (a b : N)
        → lib.is_nan a ≡ false
        → lib.is_nan b ≡ false
        → value a ≡ value b
        → (lib.to_int32_of c' (lib.compare c a b).0).0 ≡ pos 0
    pub more :
        (c c' : DecContext) (a b : N)
        → lib.is_nan a ≡ false
        → lib.is_nan b ≡ false
        → pos_part (value b) + neg_part (value a) < pos_part (value a) + neg_part (value b)
        → (lib.to_int32_of c' (lib.compare c a b).0).0 ≡ pos 1
    pub threshold : value comparison_threshold ≡ pos t
    pub threshold_negative : value comparison_threshold_negative ≡ neg_ℕ t
    pub numbers :
        (lib.is_nan comparison_threshold ≡ false)
        × (lib.is_nan comparison_threshold_negative ≡ false)

  -- Two numbers whose difference the library gives exactly.
  pub record IsExact (value : N → ℤ) (a b : DecimalDecNumber N) : Type 0 where
    pub left : lib.is_nan a.value ≡ false
    pub right : lib.is_nan b.value ≡ false
    pub finite : lib.is_nan (lib.subtract a.context a.value b.value).0 ≡ false
    pub difference :
        let d = value (lib.subtract a.context a.value b.value).0 in
        pos_part d + (neg_part (value a.value) + pos_part (value b.value))
        ≡ neg_part d + (pos_part (value a.value) + neg_part (value b.value))

  -- The value of `a` is above that of `b` by more than `t`.
  abbrev pub Above : (N → ℤ) → ℕ → DecimalDecNumber N → DecimalDecNumber N → Type 0
  Above value t a b =
      pos_part (value b.value) + neg_part (value a.value) + t
      < pos_part (value a.value) + neg_part (value b.value)

  -- The six tests of a result `c`.
  abbrev pub Tests : ℤ → DecimalDecNumber N → DecimalDecNumber N → Type 0
  Tests c a b =
      (lt a b ≡ some (ltb_ℤ c (pos 0)))
      × (le a b ≡ some (not (ltb_ℤ (pos 0) c)))
      × (eq a b ≡ some (eq_ℤ c (pos 0)))
      × (ne a b ≡ some (not (eq_ℤ c (pos 0))))
      × (ge a b ≡ some (not (ltb_ℤ c (pos 0))))
      × (gt a b ≡ some (ltb_ℤ (pos 0) c))

  tests :
      (c : ℤ) (a b : DecimalDecNumber N)
      → (context : DecContext) × (compared_to a b ≡ some (c, context))
      → Tests c a b
  unfolding lt le eq ne ge gt
  tests c a b h = rw h.1 (refl, refl, refl, refl, refl, refl)

  module _ (value : N → ℤ) (t : ℕ) (k : IsComparison value t) (a b : DecimalDecNumber N)
      (e : IsExact value a b) where
    abbrev tmp : N × DecContext
    tmp = lib.subtract a.context a.value b.value

    abbrev first : ℤ × DecContext
    first =
        lib.to_int32_of tmp.1
          (lib.compare (new_context dec_num_comparison_digits) tmp.0 comparison_threshold).0

    abbrev second : ℤ × DecContext
    second =
        lib.to_int32_of first.1
          (lib.compare
            (lib.compare (new_context dec_num_comparison_digits) tmp.0 comparison_threshold).1 tmp.0
            comparison_threshold_negative).0

    above_lem :
        Above value t a b → (context : DecContext) × (compared_to a b ≡ some (pos 1, context))
    unfolding compared_to
    above_lem h =
        let over : first.0 ≡ pos 1 =
          k.more _ _ _ comparison_threshold e.finite k.numbers.0
            (omega (arith, e.difference, ap pos_part k.threshold, ap neg_part k.threshold)) in
        (first.1, rw (e.left, e.right, over) refl)

    -- At most `t` above.
    first_within : ¬ Above value t a b → (first.0 ≡ pos 0) ⊎ (first.0 ≡ negsuc 0)
    first_within h = elim (dec_lt (pos_part (value tmp.0)) (t + neg_part (value tmp.0))) [
      | yes under ↦ inr (
          k.less _ _ _ comparison_threshold e.finite k.numbers.0
            (omega (arith, ap pos_part k.threshold, ap neg_part k.threshold)))
      | no at ↦ inl (
          k.same _ _ _ comparison_threshold e.finite k.numbers.0 (
            eq_of_parts (value tmp.0) (value comparison_threshold)
              (omega (arith, e.difference, ap pos_part k.threshold, ap neg_part k.threshold))))
    ]

    below_lem :
        Above value t b a → (context : DecContext) × (compared_to a b ≡ some (negsuc 0, context))
    unfolding compared_to
    below_lem h =
        let under : second.0 ≡ negsuc 0 =
          k.less _ _ _ comparison_threshold_negative e.finite k.numbers.1 (
            omega (
              arith,
              e.difference,
              neg_ℕ_parts t,
              ap pos_part k.threshold_negative,
              ap neg_part k.threshold_negative,
            )) in
        (
          second.1,
          elim (first_within (omega arith)) [
            | inl f ↦ rw (e.left, e.right, f, under) refl
            | inr f ↦ rw (e.left, e.right, f, under) refl
          ],
        )

    second_within : ¬ Above value t b a → (second.0 ≡ pos 0) ⊎ (second.0 ≡ pos 1)
    second_within h = elim (dec_lt (neg_part (value tmp.0)) (t + pos_part (value tmp.0))) [
      | yes over ↦ inr (
          k.more _ _ _ comparison_threshold_negative e.finite k.numbers.1 (
            omega (
              arith,
              neg_ℕ_parts t,
              ap pos_part k.threshold_negative,
              ap neg_part k.threshold_negative,
            )))
      | no at ↦ inl (
          k.same _ _ _ comparison_threshold_negative e.finite k.numbers.1 (
            eq_of_parts (value tmp.0) (value comparison_threshold_negative) (
              omega (
                arith,
                e.difference,
                neg_ℕ_parts t,
                ap pos_part k.threshold_negative,
                ap neg_part k.threshold_negative,
              ))))
    ]

    near_lem :
        ¬ Above value t a b
        → ¬ Above value t b a
        → (context : DecContext) × (compared_to a b ≡ some (pos 0, context))
    unfolding compared_to
    near_lem h g = (
      second.1,
      elim (first_within h) [
        | inl f ↦ elim (second_within g) [
          | inl s ↦ rw (e.left, e.right, f, s) refl
          | inr s ↦ rw (e.left, e.right, f, s) refl
        ]
        | inr f ↦ elim (second_within g) [
          | inl s ↦ rw (e.left, e.right, f, s) refl
          | inr s ↦ rw (e.left, e.right, f, s) refl
        ]
      ],
    )

    -- Two numbers that are no NaNs, whose difference the library gives exactly, compare by a
    -- tolerance: all six operators say greater when the first is above the other by more than the
    -- threshold, less when it is below by more, and equal otherwise.
    pub comparison_lem :
        (Above value t a b → Tests (pos 1) a b)
        × (Above value t b a → Tests (negsuc 0) a b)
        × (¬ Above value t a b → ¬ Above value t b a → Tests (pos 0) a b)
    comparison_lem = (
      λ h. tests (pos 1) a b (above_lem h),
      λ h. tests (negsuc 0) a b (below_lem h),
      λ h g. tests (pos 0) a b (near_lem h g),
    )

  -- The equality is not transitive: when the threshold is positive and each of two steps goes up by
  -- the threshold, every number is equal to the next, and the first is less than the last.
  pub eq-not_transitive :
      (value : N → ℤ) (t : ℕ) (a b c : DecimalDecNumber N)
      → IsComparison value t
      → 0 < t
      → IsExact value a b
      → IsExact value b c
      → IsExact value a c
      → value b.value ≡ value a.value +ℤ pos t
      → value c.value ≡ value b.value +ℤ pos t
      → (eq a b ≡ some true) × (eq b c ≡ some true) × (eq a c ≡ some false) × (lt a c ≡ some true)
  eq-not_transitive value t a b c k positive ab bc ac up up' =
      let p = +ℤ_parts (value a.value) (pos t) in
      let q = +ℤ_parts (value b.value) (pos t) in
      let rise : pos_part (value b.value) + neg_part (value a.value)
          ≡ neg_part (value b.value) + pos_part (value a.value) + t =
        omega (arith, p, ap pos_part up, ap neg_part up) in
      let rise' : pos_part (value c.value) + neg_part (value b.value)
          ≡ neg_part (value c.value) + pos_part (value b.value) + t =
        omega (arith, q, ap pos_part up', ap neg_part up') in
      let first = (comparison_lem value t k a b ab).2 (λ h. omega arith) (λ h. omega arith) in
      let second = (comparison_lem value t k b c bc).2 (λ h. omega arith) (λ h. omega arith) in
      let both = (comparison_lem value t k a c ac).1 (omega arith) in
      (first.2, second.2, both.2, both.0)
