-- ===== src/StringTools/Tests.antt =====
-- Runs of the functions of code/StringTools.cpp, and their theorems at concrete texts.
use mlnotes.Base.{
  ℕ, ◌+◌, ◌-◌, ◌*◌, ◌^◌, ◌≤◌, ◌≡◌, refl, true, false, some, List, [], ◌∷◌, arith, codes, ltb, leb,
  ◌==◌, ◌&&◌, if◌then◌else◌,
}
use mlnotes.Base.Int.{pos}
use mlnotes.StringTools.Match.{is_date, all_digits}
use mlnotes.StringTools.Trim.{
  trim_chars, trim_trailing_chars, trim_leading_chars, back_loop, front_loop,
}
use mlnotes.StringTools.Trim.Edges.{Trimmed, trim_chars-Trimmed}
use mlnotes.StringTools.Edit.Replace.{replace_all, stands_at, replaced, replace_all-eq-replaced}
use mlnotes.StringTools.Numbers.{Parsed, Documented, long_max}

is_date-runs : (is_date (codes "20131231") ≡ true) × (is_date (codes "18991231") ≡ false)
unfolding is_date all_digits
is_date-runs = (refl, refl)

trim_chars-runs : trim_chars (codes "--a-b---") b'-' ≡ codes "a-b"
unfolding trim_chars trim_trailing_chars trim_leading_chars back_loop front_loop
trim_chars-runs = refl

trim_chars-Trimmed_example :
    Trimmed (λ x. b'-' == x) (codes "--a-b---") (trim_chars (codes "--a-b---") b'-')
trim_chars-Trimmed_example = trim_chars-Trimmed (codes "--a-b---") b'-'

replace_all-runs : replace_all (codes "aXbXX") (codes "X") (codes "XX") ≡ some (codes "aXXbXXXX")
replace_all-runs =
    unfold replaced stands_at in
    replace_all-eq-replaced (codes "aXbXX") (codes "X") (codes "XX") (omega arith)

replace_all-eq-replaced_example :
    replace_all (codes "aabaa") (codes "aa") (codes "a")
    ≡ some (replaced (codes "aa") (codes "a") 0 (codes "aabaa"))
replace_all-eq-replaced_example =
    replace_all-eq-replaced (codes "aabaa") (codes "aa") (codes "a") (omega arith)

-- The decimal digits in front: their value and their number.
digits : List ℕ → ℕ → ℕ → ℕ × ℕ
digits [] acc n = (acc, n)
digits (c ∷ str) acc n =
    if leb b'0' c && leb c b'9' then digits str (acc * 10 + (c - b'0')) (n + 1) else (acc, n)

-- `strtol` for digits alone, in base 10 whatever the radix.
digits_strtol : List ℕ → ℕ → Parsed
unfolding digits
digits_strtol str radix =
    let r = digits str 0 0 in
    if ltb r.0 (2 ^ 63)
    then record { value = pos r.0; consumed = r.1; range = false }
    else record { value = long_max; consumed = r.1; range = true }

digits-grows : (str : List ℕ) (acc n : ℕ) → n ≤ (digits str acc n).1
unfolding digits
digits-grows [] acc n = omega arith
digits-grows (c ∷ str) acc n = ground (arith, digits-grows str (acc * 10 + (c - b'0')) (n + 1))

digits-none : (str : List ℕ) → (digits str 0 0).1 ≡ 0 → (digits str 0 0).0 ≡ 0
unfolding digits
digits-none [] h = refl
digits-none (c ∷ str) h = ground (arith, digits-grows str (0 * 10 + (c - b'0')) (0 + 1))

digits_strtol-Documented : Documented digits_strtol
unfolding digits_strtol
digits_strtol-Documented = record {
  nothing = λ str radix h. ground (arith, digits-none str);
  clamped = λ str radix h. ground arith;
}
