-- ===== src/Decimal/Unpack/Size.antt =====
-- The size of the buffer of `unpackScientificFormat` (code/DecimalDecNumber.cpp).
use mlnotes.Base.{
  ℕ, ◌+◌, ◌-◌, ◌≤◌, ◌≡◌, refl, Bool, true, false, Option, none, some, List, [], ◌∷◌, ◌++◌, arith,
  length, take, drop, leb, ◌&&◌, if◌then◌else◌, ◌>>=◌, lengths, codes, Bool-cases, inl, inr, leb→le,
  ◌∙◌, sym, ap,
}
use mathlib.Core.Option.{some-injective}
use mlnotes.Base.Arrays.{std_copy, length-paste}
use mlnotes.Decimal.Unpack.{
  write_at, replace_text, finish, shift_right, append_zeros, move_point, unpack_exponent,
  unpack_scientific_format,
}

-- What comes out, if anything does, has `n` bytes.
pub record KeepsSize {A : Type 0} (bytes : A → List ℕ) (n : ℕ) (o : Option A) : Type 0 where
  pub size_of : (r : A) → o ≡ some r → length (bytes r) ≡ n

abbrev plain : List ℕ → List ℕ
plain buf = buf

abbrev Keeps : ℕ → Option (List ℕ) → Type 0
Keeps n o = KeepsSize plain n o

none_not_some : {A : Type 0} (a : A) → none ≡ some a → ⊥
none_not_some a e = cc

-- The buffer of a result.
abbrev pub bytes : List ℕ × ℕ → List ℕ
bytes r = r.0

module _ {A B : Type 0} (bytes_a : A → List ℕ) (bytes_b : B → List ℕ) where
  after :
      (n : ℕ) (o : Option A) (f : A → Option B)
      → KeepsSize bytes_a n o
      → ((a : A) → length (bytes_a a) ≡ n → KeepsSize bytes_b n (f a))
      → KeepsSize bytes_b n (o >>= f)
  after n none f h k = record { size_of = λ r e. absurd (none_not_some r e) }
  after n (some a) f h k = k a (h.size_of a refl)

module _ {A : Type 0} (bytes_a : A → List ℕ) where
  either :
      (n : ℕ) (t : Bool) (o o' : Option A)
      → KeepsSize bytes_a n o
      → KeepsSize bytes_a n o'
      → KeepsSize bytes_a n (if t then o else o')
  either n true o o' h k = h
  either n false o o' h k = k

  of_some : (n : ℕ) (a : A) → length (bytes_a a) ≡ n → KeepsSize bytes_a n (some a)
  of_some n a h = record {
    size_of = λ r e. ap (λ x. length (bytes_a x)) (sym (some-injective _ _ e)) ∙ h;
  }

  of_none : (n : ℕ) → KeepsSize bytes_a n none
  of_none n = record { size_of = λ r e. absurd (none_not_some r e) }

write_at-Keeps : (n at : ℕ) (buf xs : List ℕ) → length buf ≡ n → Keeps n (write_at buf at xs)
unfolding write_at
write_at-Keeps n at buf xs h = elim (Bool-cases (leb (at + length xs) (length buf))) [
  | inl e ↦ rw e (of_some plain n _ (length-paste buf at xs (leb→le _ _ e) ∙ h))
  | inr e ↦ rw e (of_none plain n)
]

std_copy-Keeps :
    (n from to at : ℕ) (buf : List ℕ) → length buf ≡ n → Keeps n (std_copy buf from to buf at)
unfolding std_copy
std_copy-Keeps n from to at buf h =
    elim (Bool-cases (leb from to && leb to (length buf) && leb (at + (to - from)) (length buf))) [
      | inl e ↦ rw e (
          of_some plain n _ (
            let within : at + (to - from) ≤ length buf = ground arith in
            length-paste buf at (take (to - from) (drop from buf)) (simp lengths (omega arith))
            ∙ h))
      | inr e ↦ rw e (of_none plain n)
    ]

replace_text-KeepsSize :
    (n : ℕ) (buf text : List ℕ) → length buf ≡ n → KeepsSize bytes n (replace_text buf text)
unfolding replace_text
replace_text-KeepsSize n buf text h =
    after plain bytes n _ _ (write_at-Keeps n 0 buf (text ++ (0 ∷ [])) h)
      (λ b k. of_some bytes n _ k)

finish-KeepsSize :
    (n : ℕ) (buf : List ℕ) (b e decimal_point places : ℕ)
    → length buf ≡ n
    → KeepsSize bytes n (finish buf b e decimal_point places)
unfolding finish
finish-KeepsSize n buf b e decimal_point places h =
    after plain bytes n _ _
      (after plain plain n _ _ (write_at-Keeps n decimal_point buf _ h)
        (λ pointed k. write_at-Keeps n _ pointed _ k))
      (λ ended k.
        either bytes n _ _ _ (replace_text-KeepsSize n ended (codes "0.0") k) (of_some bytes n _ k))

shift_right-KeepsSize :
    (n : ℕ) (buf : List ℕ) (b f size : ℕ) (point : Bool) (figures magnitude places : ℕ)
    → length buf ≡ n
    → KeepsSize bytes n (shift_right buf b f size point figures magnitude places)
unfolding shift_right
shift_right-KeepsSize n buf b f size point figures magnitude places h =
    after plain bytes n _ _
      (either plain n point _ (some buf) (write_at-Keeps n (b + 1) buf _ h) (of_some plain n buf h))
      (λ joined k. either bytes n _ _ _ (replace_text-KeepsSize n joined (codes "0.0") k) (
        after plain bytes n _ _
          (after plain plain n _ _ (std_copy-Keeps n b f _ joined k)
            (λ moved l. write_at-Keeps n b moved _ l))
          (λ filled l. finish-KeepsSize n filled b _ _ places l)))

append_zeros-KeepsSize :
    (n : ℕ) (buf : List ℕ) (b f size : ℕ) (point : Bool) (figures magnitude places : ℕ)
    → length buf ≡ n
    → KeepsSize bytes n (append_zeros buf b f size point figures magnitude places)
unfolding append_zeros
append_zeros-KeepsSize n buf b f size point figures magnitude places h =
    either bytes n _ _ _ (replace_text-KeepsSize n buf (codes "NaN") h) (
      after plain bytes n _ _
        (after plain plain n _ _
          (either plain n point _ (some buf) (std_copy-Keeps n (b + 2) f (b + 1) buf h)
            (of_some plain n buf h))
          (λ joined k. write_at-Keeps n _ joined _ k))
        (λ filled k. finish-KeepsSize n filled b _ _ places k))

move_point-KeepsSize :
    (n : ℕ) (buf : List ℕ) (b f magnitude places : ℕ)
    → length buf ≡ n
    → KeepsSize bytes n (move_point buf b f magnitude places)
unfolding move_point
move_point-KeepsSize n buf b f magnitude places h =
    after plain bytes n _ _ (std_copy-Keeps n (b + 2) (b + 2 + magnitude) (b + 1) buf h)
      (λ moved k. finish-KeepsSize n moved b f _ places k)

unpack_exponent-KeepsSize :
    (n : ℕ) (buf : List ℕ) (b f size places : ℕ)
    → length buf ≡ n
    → KeepsSize bytes n (unpack_exponent buf b f size places)
unfolding unpack_exponent
unpack_exponent-KeepsSize n buf b f size places h =
    either bytes n _ _ _ (shift_right-KeepsSize n buf b f size _ _ _ places h) (
      either bytes n _ _ _ (append_zeros-KeepsSize n buf b f size _ _ _ places h)
        (move_point-KeepsSize n buf b f _ places h))

-- If a buffer comes out, it has as many bytes as before.
pub unpack_scientific_format-KeepsSize :
    (n : ℕ) (buf : List ℕ) (e size places : ℕ)
    → length buf ≡ n
    → KeepsSize bytes n (unpack_scientific_format buf e size places)
unfolding unpack_scientific_format
unpack_scientific_format-KeepsSize n buf e size places h =
    either bytes n _ _ _ (of_some bytes n (buf, e) h) (
      either bytes n _ _ _ (unpack_exponent-KeepsSize n buf 1 _ (size - 1) places h)
        (unpack_exponent-KeepsSize n buf 0 _ size places h))
