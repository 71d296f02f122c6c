-- ===== src/StringBuilder/Sequence.antt =====
-- Sequences of appends to a builder of code/StringBuilder.cpp, and its copy constructor.
use Prim.Native.Nat.{max}
use mlnotes.Base.{
  ℕ, ◌+◌, ◌*◌, ◌%◌, ◌^◌, ◌≤◌, ◌<◌, ◌≡◌, refl, Option, some, List, [], ◌∷◌, ◌++◌, arith, length,
  replicate, length-replicate, take_all, ◌∙◌, ap, sym, subst, ◌>>=◌, append-nil, append_assoc,
  flatten,
}
use native.Mathlib.Decide.{dec_lt}
use mlnotes.StringBuilder.{StringBuilder, init, append_string, copy, str}
use mlnotes.StringBuilder.Invariant.{IsValid, init-IsValid}
use mlnotes.StringBuilder.Append.{Appended, append_lem}

-- A client's appends in order.
pub append_all : ℕ → StringBuilder → List (List ℕ) → Option StringBuilder
append_all fill sb [] = some sb
append_all fill sb (s ∷ ss) = do sb' ← append_string fill sb s; append_all fill sb' ss

abbrev pub total : List (List ℕ) → ℕ
total [] = 0
total (s ∷ ss) = length s + total ss

-- What a sequence of appends leaves behind.
pub record Built (sb : StringBuilder) (size : ℕ) (ss : List (List ℕ)) (sb' : StringBuilder)
    : Type 0 where
  pub valid : IsValid sb'
  pub text : str sb' ≡ str sb ++ flatten ss
  pub bounded : sb'.buffer_size ≤ max size (2 * (sb.insertion_pos + total ss + 1))

module _ (fill : ℕ) where
  append_string_lem :
      (sb : StringBuilder) (s : List ℕ)
      → IsValid sb
      → sb.buffer_size + length s + 1 < 2 ^ 31
      → (sb' : StringBuilder) × (append_string fill sb s ≡ some sb') × Appended sb s sb'
  unfolding append_string str
  append_string_lem sb [] v h = (
    sb,
    refl,
    record { valid = v; text = sym (append-nil _); moved = omega arith; bounded = omega arith },
  )
  append_string_lem sb (c ∷ s) v h =
      let (sb', done, a) = append_lem fill sb (c ∷ s) (length (c ∷ s)) v (omega arith) h in
      (
        sb',
        rw small done,
        subst (λ t. Appended sb t sb') (take_all (length (c ∷ s)) (c ∷ s) (omega arith)) a,
      )
    where
      small : length (c ∷ s) % 2 ^ 32 ≡ length (c ∷ s)
      small = omega arith

  append_all_from :
      (ss : List (List ℕ)) (sb : StringBuilder) (size : ℕ)
      → IsValid sb
      → size < 2 ^ 28
      → sb.buffer_size ≤ max size (2 * (sb.insertion_pos + 1))
      → sb.insertion_pos + total ss < 2 ^ 28
      → (sb' : StringBuilder) × (append_all fill sb ss ≡ some sb') × Built sb size ss sb'
  unfolding append_all flatten
  append_all_from [] sb size v hs hb ht =
      (sb, refl, record { valid = v; text = sym (append-nil _); bounded = omega arith })
  append_all_from (s ∷ ss) sb size v hs hb ht =
      let (mid, done, a) = append_string_lem sb s v (omega arith) in
      let (sb', rest, b) =
        append_all_from ss mid size a.valid hs (omega (arith, a.bounded, a.moved))
          (omega (arith, a.moved)) in
      (
        sb',
        rw done rest,
        record {
          valid = b.valid;
          text = b.text ∙ ap (λ t. t ++ flatten ss) a.text ∙ append_assoc (str sb) s (flatten ss);
          bounded = omega (arith, b.bounded, a.moved);
        },
      )

  insertion_pos-init : (n : ℕ) → (init fill n).insertion_pos ≡ 0
  unfolding init
  insertion_pos-init n = refl

  -- Appends of strings whose total length is below 2 ^ 28, to a new builder of an initial size below
  -- 2 ^ 27, all succeed; the text is the strings one after the other, the builder is valid, and its
  -- buffer is at most as large as the larger of the initial size plus one and twice the text with
  -- its terminating zero.
  pub append_all_lem :
      (n : ℕ) (ss : List (List ℕ))
      → n < 2 ^ 27
      → total ss < 2 ^ 28
      → (sb : StringBuilder) × (append_all fill (init fill n) ss ≡ some sb)
        × IsValid sb
        × (str sb ≡ flatten ss)
        × (sb.buffer_size ≤ max (n + 1) (2 * (total ss + 1)))
  append_all_lem n ss hn ht =
      let (v, empty, sized) = init-IsValid fill n (omega arith) in
      let (sb, done, b) =
        append_all_from ss (init fill n) (n + 1) v (omega arith) (omega arith)
          (omega (arith, insertion_pos-init n)) in
      (
        sb,
        done,
        b.valid,
        b.text ∙ ap (λ t. t ++ flatten ss) empty,
        omega (arith, b.bounded, insertion_pos-init n),
      )

  -- The copy of a valid builder whose text is shorter than 2 ^ 29 is made, is valid and has its
  -- text.
  pub copy_lem :
      (sb : StringBuilder)
      → IsValid sb
      → sb.insertion_pos < 2 ^ 29
      → (sb' : StringBuilder) × (copy fill sb ≡ some sb') × IsValid sb' × (str sb' ≡ str sb)
  unfolding copy
  copy_lem sb v h = elim (dec_lt 0 sb.insertion_pos) [
    | no empty ↦ (
      record { buffer_size = 1; buffer = replicate 1 fill; insertion_pos = 0 },
      ground arith,
      omega arith,
      unfold str in ground arith,
    )
    | yes more ↦
        let fresh : StringBuilder = record {
          buffer_size = sb.insertion_pos + 1;
          buffer = replicate (sb.insertion_pos + 1) fill;
          insertion_pos = 0;
        } in
        let v' : IsValid fresh = record {
          array = length-replicate _ fill;
          room = omega arith;
          word = omega arith;
        } in
        let (sb', done, a) =
          append_lem fill fresh sb.buffer sb.insertion_pos v' (omega arith) (omega arith) in
        (sb', ground (arith, done), a.valid, unfold str in a.text)
  ]
