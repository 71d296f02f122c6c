-- ===== src/Time/Arith/Moves.antt =====
-- The moves and the differences of code/Time.cpp undo each other.
use mlnotes.Base.{ℕ, suc, ◌-◌, ◌*◌, ◌/◌, ◌≡◌, ◌<◌, arith, ap, ◌∙◌}
use mlnotes.Base.Int.{
  ℤ, pos, negsuc, neg_ℕ, ◌+ℤ◌, ◌-ℤ◌, ◌*ℤ◌, ◌/ℤ◌, +ℤ_parts, -ℤ_parts, eq_of_parts,
}
use mlnotes.Time.Arith.{
  add_days, add_hours, add_minutes, add_seconds, diff_as_days, diff_as_hours, diff_as_minutes,
  diff_as_seconds,
}

add-sub : (t x : ℤ) → t +ℤ x -ℤ t ≡ x
add-sub t x = eq_of_parts (t +ℤ x -ℤ t) x (omega (arith, +ℤ_parts t x, -ℤ_parts (t +ℤ x) t))

-- A whole number of units, divided by the unit.
product_pos : (c n : ℕ) → pos c *ℤ pos n ≡ pos (c * n)
unfolding ◌*ℤ◌
product_pos c n = ground arith

product_neg : (c n : ℕ) → 0 < c * suc n → pos c *ℤ negsuc n ≡ negsuc (c * suc n - 1)
unfolding ◌*ℤ◌
product_neg c n h = ground arith

-- What a unit has to satisfy: it is positive, and dividing by it undoes multiplying.
record WholeUnit (c : ℕ) : Type 0 where
  positive : (k : ℕ) → 0 < c * suc k
  cancel : (k : ℕ) → c * k / c ≡ k

units : (c : ℕ) (n : ℤ) → WholeUnit c → (pos c *ℤ n) /ℤ pos c ≡ n
units c (pos n) u = rw (product_pos c n) (unfold ◌/ℤ◌ in ap pos (u.cancel n))
units c (negsuc n) u =
    rw (product_neg c n (u.positive n))
      (unfold ◌/ℤ◌ in ap neg_ℕ (ap (λ k. k / c) whole ∙ u.cancel (suc n)))
  where
    whole : suc (c * suc n - 1) ≡ c * suc n
    whole = let p = u.positive n in omega arith

-- Moving a time by any number of days, hours, minutes or seconds, forwards or backwards, and taking
-- the difference in that unit gives the number.
pub diff-add :
    (t n : ℤ)
    → (diff_as_days (add_days t n) t ≡ n)
      × (diff_as_hours (add_hours t n) t ≡ n)
      × (diff_as_minutes (add_minutes t n) t ≡ n)
      × (diff_as_seconds (add_seconds t n) t ≡ n)
unfolding diff_as_days diff_as_hours diff_as_minutes diff_as_seconds add_days add_hours add_minutes
    add_seconds
diff-add t n = (
  back 86400000000 (record { positive = λ k. omega arith; cancel = λ k. omega arith }),
  back 3600000000 (record { positive = λ k. omega arith; cancel = λ k. omega arith }),
  back 60000000 (record { positive = λ k. omega arith; cancel = λ k. omega arith }),
  back 1000000 (record { positive = λ k. omega arith; cancel = λ k. omega arith }),
)
  where
    back : (c : ℕ) → WholeUnit c → (t +ℤ pos c *ℤ n -ℤ t) /ℤ pos c ≡ n
    back c u = ap (λ x. x /ℤ pos c) (add-sub t (pos c *ℤ n)) ∙ units c n u
