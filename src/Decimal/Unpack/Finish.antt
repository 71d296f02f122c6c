-- ===== src/Decimal/Unpack/Finish.antt =====
-- The end of `unpackScientificFormat` (code/DecimalDecNumber.cpp): the point, the terminator, and the
-- test for zero.
use mlnotes.Base.{
  ℕ, ◌+◌, ◌-◌, ◌<◌, ◌≡◌, refl, List, [], ◌∷◌, ◌++◌, Option, some, arith, length, take, drop,
  if◌then◌else◌, lengths, length-append, ap, ◌∙◌, sym, append_assoc, take-append-drop, codes,
  Bool-cases, inl, inr, suc, length-drop,
}
use Prim.Native.Nat.{min}
use mlnotes.Decimal.Unpack.{finish, write_at, all_zero, replace_text}
use mlnotes.Decimal.Unpack.Layout.{write_at_lem, drop_past, take-append}

-- The text of a number behind its sign `s`: a zero is "0.0" and has no sign.
abbrev pub signed : List ℕ → List ℕ → List ℕ
signed s plain = if all_zero plain then codes "0.0" else s ++ plain

-- A result whose text is `text`, with a zero behind it.
pub record Printed (r : Option (List ℕ × ℕ)) (text : List ℕ) : Type 0 where
  pub tail : List ℕ
  pub result : r ≡ some (text ++ (0 ∷ tail), length text)

pub replace_text_lem :
    (buf text : List ℕ) → length text < length buf → Printed (replace_text buf text) text
unfolding replace_text
replace_text_lem buf text h =
    let tail = drop (length text + 1) buf in
    let written : write_at buf 0 (text ++ (0 ∷ [])) ≡ some ((text ++ (0 ∷ [])) ++ tail) =
      ap (λ l. write_at l 0 (text ++ (0 ∷ []))) (sym (take-append-drop (length text + 1) buf))
      ∙ write_at_lem [] (take (length text + 1) buf) (text ++ (0 ∷ [])) tail 0 refl
          (simp lengths (omega arith)) in
    record { tail = tail; result = rw (written, append_assoc text (0 ∷ []) tail) refl }

-- A nonempty list that is behind another.
nonempty_behind :
    (xs : List ℕ) (y : ℕ) (ys : List ℕ) → (z : ℕ) × (zs : List ℕ) × (xs ++ (y ∷ ys) ≡ z ∷ zs)
nonempty_behind [] y ys = (y, ys, refl)
nonempty_behind (x ∷ xs) y ys = (x, xs ++ (y ∷ ys), refl)

-- The text that is kept, and the bytes behind it.
kept :
    (s whole fraction tail : List ℕ) (places : ℕ)
    → s ++ (whole ++ (b'.' ∷ (fraction ++ tail)))
      ≡ (s ++ (whole ++ (b'.' ∷ take places fraction))) ++ (drop places fraction ++ tail)
kept s whole fraction tail places =
    let shown = take places fraction in
    let hidden = drop places fraction ++ tail in
    let split : fraction ++ tail ≡ shown ++ hidden =
      ap (λ l. l ++ tail) (sym (take-append-drop places fraction))
      ∙ append_assoc shown (drop places fraction) tail in
    ap (λ l. s ++ (whole ++ (b'.' ∷ l))) split
    ∙ ap (λ l. s ++ l) (sym (append_assoc whole (b'.' ∷ shown) hidden))
    ∙ sym (append_assoc s (whole ++ (b'.' ∷ shown)) hidden)

-- The test for zero, once the point and the terminator are written.
zero_test :
    (s plain tail : List ℕ) (b n : ℕ)
    → length s ≡ b
    → n ≡ length (s ++ plain)
    → 3 < length ((s ++ plain) ++ (0 ∷ tail))
    → let buf = (s ++ plain) ++ (0 ∷ tail) in
      Printed
        (if all_zero (take (n - b) (drop b buf))
          then replace_text buf (codes "0.0")
          else some (buf, n))
        (signed s plain)
zero_test s plain tail b n h total room =
    let rest = plain ++ (0 ∷ tail) in
    let behind : drop b ((s ++ plain) ++ (0 ∷ tail)) ≡ rest =
      ap (drop b) (append_assoc s plain (0 ∷ tail)) ∙ drop_past s rest b 0 (omega arith) in
    let count : n - b ≡ length plain = total_count in
    rw (behind, count, take-append plain (0 ∷ tail))
      (elim (Bool-cases (all_zero plain)) [
        | inl zero ↦ rw zero (replace_text_lem ((s ++ plain) ++ (0 ∷ tail)) (codes "0.0") room)
        | inr other ↦
            rw other (record {
              tail = tail;
              result = ap (λ k. some ((s ++ plain) ++ (0 ∷ tail), k)) total;
            })
      ])
  where
    total_count : n - b ≡ length plain
    total_count =
        let sum : length (s ++ plain) ≡ length s + length plain = length-append s plain in
        omega arith

-- The number behind the sign has the integer digits `whole`, a byte for the point, and the digits
-- `fraction`; at least one byte is behind it.
pub finish_lem :
    (s whole fraction : List ℕ) (x y : ℕ) (ys : List ℕ) (b e decimal_point places : ℕ)
    → length s ≡ b
    → b + length whole ≡ decimal_point
    → decimal_point + 1 + length fraction ≡ e
    → 3 < length (s ++ (whole ++ (x ∷ (fraction ++ (y ∷ ys)))))
    → Printed
        (finish (s ++ (whole ++ (x ∷ (fraction ++ (y ∷ ys))))) b e decimal_point places)
        (signed s (whole ++ (b'.' ∷ take places fraction)))
unfolding finish
finish_lem s whole fraction x y ys b e decimal_point places h at_point at_end room =
    let plain = whole ++ (b'.' ∷ take places fraction) in
    let last = min e (decimal_point + places + 1) in
    let behind = nonempty_behind (drop places fraction) y ys in
    let pointed : write_at (s ++ (whole ++ (x ∷ (fraction ++ (y ∷ ys))))) decimal_point (b'.' ∷ [])
        ≡ some ((s ++ plain) ++ (behind.0 ∷ behind.1)) =
      ap (λ l. write_at l decimal_point (b'.' ∷ []))
        (sym (append_assoc s whole (x ∷ (fraction ++ (y ∷ ys)))))
      ∙ write_at_lem (s ++ whole) (x ∷ []) (b'.' ∷ []) (fraction ++ (y ∷ ys)) decimal_point
          (simp lengths (omega arith)) refl
      ∙ ap some (
          append_assoc s whole (b'.' ∷ (fraction ++ (y ∷ ys)))
          ∙ kept s whole fraction (y ∷ ys) places
          ∙ ap (λ l. (s ++ plain) ++ l) behind.2) in
    let total : last ≡ length (s ++ plain) = simp lengths (omega arith) in
    let ended : write_at ((s ++ plain) ++ (behind.0 ∷ behind.1)) last (0 ∷ [])
        ≡ some ((s ++ plain) ++ (0 ∷ behind.1)) =
      write_at_lem (s ++ plain) (behind.0 ∷ []) (0 ∷ []) behind.1 last (sym total) refl in
    let hidden : length fraction - places + suc (length ys) ≡ suc (length behind.1) =
      ap (λ k. k + suc (length ys)) (sym (length-drop places fraction))
      ∙ sym (length-append (drop places fraction) (y ∷ ys))
      ∙ ap length behind.2 in
    let same : length ((s ++ plain) ++ (0 ∷ behind.1))
        ≡ length (s ++ (whole ++ (x ∷ (fraction ++ (y ∷ ys))))) =
      simp lengths (omega arith) in
    rw (pointed, ended) (zero_test s plain behind.1 b last h total (omega arith))
