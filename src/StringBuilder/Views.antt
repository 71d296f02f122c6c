-- ===== src/StringBuilder/Views.antt =====
-- The operations of code/StringBuilder.cpp that read or shorten the text.
use mlnotes.Base.{
  ℕ, ◌-◌, ◌≤◌, ◌<◌, ◌≡◌, refl, some, List, [], ◌∷◌, ◌++◌, arith, length, take, drop, length-take,
  at_index, All, ◌≢◌, take-take, c_text, drop-take, eq_of_get_elem?, get_elem?-eq-none, ◌∙◌,
}
use mlnotes.Base.Arrays.{paste, std_copy_within, length-paste}
use mlnotes.StringBuilder.{StringBuilder, str, str_from_right, chop_right, c_str}
use mlnotes.StringBuilder.Invariant.{IsValid}

-- On a valid builder, chopping drops the last `len` bytes of a longer text, and does nothing to any other.
pub chop_right_lem :
    (sb : StringBuilder) (len : ℕ)
    → IsValid sb
    → IsValid (chop_right sb len)
      × (len < sb.insertion_pos → str (chop_right sb len) ≡ take (sb.insertion_pos - len) (str sb))
      × (sb.insertion_pos ≤ len → chop_right sb len ≡ sb)
unfolding chop_right str
chop_right_lem sb len v = (
  record { array = ground (arith, v.array); room = ground arith; word = ground (arith, v.word) },
  λ h. ground (arith, take-take (sb.insertion_pos - len) sb.insertion_pos sb.buffer),
  λ h. ground arith,
)

-- The rightmost bytes of a valid builder: all but the first `count - len` of the text.
pub str_from_right-eq-drop :
    (sb : StringBuilder) (len : ℕ)
    → IsValid sb
    → str_from_right sb len ≡ drop (sb.insertion_pos - len) (str sb)
unfolding str_from_right str
str_from_right-eq-drop sb len v =
    ground (arith, drop-take (sb.insertion_pos - len) sb.insertion_pos len sb.buffer)

c_text-append : (xs rest : List ℕ) → All (λ c. c ≢ 0) xs → c_text (xs ++ 0 ∷ rest) ≡ xs
c_text-append [] rest h = refl
c_text-append (x ∷ xs) rest h = ground (arith, c_text-append xs rest h.1)

take-append : (xs ys : List ℕ) (n : ℕ) → length xs ≡ n → take n (xs ++ ys) ≡ xs
take-append xs ys n h =
    eq_of_get_elem? _ _ (λ i. simp (at_index, h) (ground (arith, get_elem?-eq-none xs i)))

-- The C string of a valid builder whose text holds no zero is the text: the terminating zero is written inside
-- the buffer, behind the text.
pub c_str_lem :
    (sb : StringBuilder)
    → IsValid sb
    → All (λ c. c ≢ 0) (str sb)
    → (sb' : StringBuilder) × (out : List ℕ) × (c_str sb ≡ some (sb', out))
      × (c_text out ≡ str sb)
      × IsValid sb'
      × (str sb' ≡ str sb)
unfolding c_str str
c_str_lem sb v h =
    let pos = sb.insertion_pos in
    let out : List ℕ = paste sb.buffer pos (0 ∷ []) in
    (
      record sb { buffer = out },
      out,
      ground (arith, std_copy_within (0 ∷ []) 0 1 sb.buffer pos 1),
      c_text-append (take pos sb.buffer) _ h,
      record {
        array = length-paste sb.buffer pos (0 ∷ []) (omega arith) ∙ v.array;
        room = v.room;
        word = v.word;
      },
      take-append (take pos sb.buffer) _ pos (omega (arith, length-take pos sb.buffer)),
    )
