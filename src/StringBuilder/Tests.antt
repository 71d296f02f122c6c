-- ===== src/StringBuilder/Tests.antt =====
-- Runs of the builder of code/StringBuilder.cpp, and its theorems at concrete builders.
use Prim.Native.Nat.{max}
use mlnotes.Base.{
  ◌+◌, ◌*◌, ◌≤◌, ◌≡◌, ◌≢◌, refl, some, [], ◌∷◌, ◌++◌, arith, flatten, codes, true, All,
}
use mlnotes.Base.Arrays.{std_copy}
use mlnotes.StringBuilder.{StringBuilder, init, expand, append, append_c_string, insert_bool, str}
use mlnotes.StringBuilder.Invariant.{IsValid}
use mlnotes.StringBuilder.Sequence.{append_all, total, append_all_lem}

-- `ab` in a buffer of four bytes.
abbrev two : StringBuilder
two = record { buffer_size = 4; buffer = b'a' ∷ b'b' ∷ 7 ∷ 7 ∷ []; insertion_pos = 2 }

two-IsValid : IsValid two
two-IsValid = omega arith

-- `two` takes one byte more as it is, and doubles for two.
append_char-fits :
    append 7 two (b'c' ∷ []) 1
    ≡ some (record { buffer_size = 4; buffer = b'a' ∷ b'b' ∷ b'c' ∷ 7 ∷ []; insertion_pos = 3 })
unfolding append std_copy
append_char-fits = refl

insert_bool-grows :
    insert_bool 7 two true
    ≡ some
        (record { buffer_size = 9; buffer = codes "abtrue" ++ 7 ∷ 7 ∷ 7 ∷ []; insertion_pos = 6 })
unfolding insert_bool append_c_string append expand std_copy
insert_bool-grows = refl

append_all_lem_example :
    (sb : StringBuilder) × (append_all 7 (init 7 1) (codes "level" ∷ [] ∷ codes ": up" ∷ [])
      ≡ some sb)
    × IsValid sb
    × (str sb ≡ flatten (codes "level" ∷ [] ∷ codes ": up" ∷ []))
    × (sb.buffer_size ≤ max (1 + 1) (2 * (total (codes "level" ∷ [] ∷ codes ": up" ∷ []) + 1)))
append_all_lem_example =
    append_all_lem 7 1 (codes "level" ∷ [] ∷ codes ": up" ∷ []) (omega arith) (omega arith)

-- No byte of the text is zero.
two-NoZero : All (λ c. c ≢ 0) (str two)
unfolding str
two-NoZero = (ground arith, (ground arith, _))
