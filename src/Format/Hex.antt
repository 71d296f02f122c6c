-- ===== src/Format/Hex.antt =====
-- `toHexString` of code/Format.cpp, read back.
use mlnotes.Base.{
  ℕ, zero, suc, ◌+◌, ◌-◌, ◌*◌, ◌/◌, ◌%◌, ◌≤◌, ◌<◌, ◌≡◌, refl, true, some, List, [], ◌∷◌, arith,
  length, get_or, take, drop, leb, if◌then◌else◌, ap, All, ◌∙◌, Bool-cases, inl, inr, length-take,
}
use mlnotes.Format.{nibble_to_char, isprint, high_nibble, low_nibble, hex_loop, to_hex_string}

-- The value of a hexadecimal digit.
abbrev pub hex_value : ℕ → ℕ
hex_value c = if leb b'A' c then c + 10 - b'A' else c - b'0'

-- The byte whose digits stand behind 0x.
abbrev pub byte_at : List ℕ → ℕ
byte_at s = hex_value (get_or s 2 0) * 16 + hex_value (get_or s 3 0)

-- `n` bytes, each with its digits, with the character in parentheses if there is one, and with a
-- comma and a space in front of the next.
abbrev pub read_hex : ℕ → List ℕ → List ℕ
read_hex zero s = []
read_hex (suc n) s = byte_at s ∷ read_hex n (drop (if isprint (byte_at s) then 11 else 6) s)

hex_value-nibble : (k : ℕ) → k < 16 → hex_value (nibble_to_char k) ≡ k
unfolding nibble_to_char
hex_value-nibble k h = ground arith

nibbles :
    (c : ℕ)
    → c < 128
    → hex_value (nibble_to_char (high_nibble c)) * 16 + hex_value (nibble_to_char (low_nibble c))
      ≡ c
unfolding high_nibble low_nibble
nibbles c h =
    ground (arith, hex_value-nibble (c / 16) (omega arith), hex_value-nibble (c % 16) (omega arith))

-- Behind a byte's text stands the loop over the bytes that are left, without their first comma.
behind :
    (c : ℕ) (cs : List ℕ)
    → read_hex (length cs) (drop (if isprint c then 11 else 6) (hex_loop (c ∷ cs) true))
      ≡ read_hex (length cs) (hex_loop cs true)
unfolding hex_loop
behind c [] = refl
behind c (d ∷ cs) = elim (Bool-cases (isprint c)) [
  | inl shown ↦ rw shown refl
  | inr hidden ↦ rw hidden refl
]

read_hex-hex_loop :
    (cs : List ℕ) → All (λ c. c < 128) cs → read_hex (length cs) (hex_loop cs true) ≡ cs
read_hex-hex_loop [] h = refl
read_hex-hex_loop (c ∷ cs) h =
    ap (λ b. b ∷ read_hex (length cs) (drop (if isprint b then 11 else 6) (hex_loop (c ∷ cs) true)))
      same
    ∙ ap (λ t. c ∷ t) (behind c cs ∙ read_hex-hex_loop cs h.1)
  where
    same : byte_at (hex_loop (c ∷ cs) true) ≡ c
    same = unfold hex_loop in nibbles c h.0

All-take : (P : ℕ → Type 0) (n : ℕ) (xs : List ℕ) → All P xs → All P (take n xs)
All-take P zero xs h = _
All-take P (suc n) [] h = _
All-take P (suc n) (x ∷ xs) h = (h.0, All-take P n xs h.1)

-- The text of a positive number of bytes, all of them below 128, reads back as those bytes.
pub read_hex-to_hex_string :
    (bytes : List ℕ) (n : ℕ)
    → 0 < n
    → n ≤ length bytes
    → All (λ c. c < 128) bytes
    → read_hex n (to_hex_string (some bytes) n) ≡ take n bytes
unfolding to_hex_string
read_hex-to_hex_string bytes n pos le h =
    let back = read_hex-hex_loop (take n bytes) (All-take (λ c. c < 128) n bytes h) in
    let len : length (take n bytes) ≡ n = omega (arith, length-take n bytes) in
    ground (arith, rw len at back)

-- A byte from 128 on is printed with a question mark for its high digit, since a signed char is
-- shifted: the text is that of every other byte with the same low digit.
pub to_hex_string-high :
    (c d n : ℕ) (bytes : List ℕ)
    → 128 ≤ c
    → c < 256
    → 128 ≤ d
    → d < 256
    → c % 16 ≡ d % 16
    → (to_hex_string (some (c ∷ bytes)) (suc n) ≡ to_hex_string (some (d ∷ bytes)) (suc n))
      × (get_or (to_hex_string (some (c ∷ bytes)) (suc n)) 2 0 ≡ b'?')
unfolding to_hex_string hex_loop high_nibble low_nibble nibble_to_char isprint
to_hex_string-high c d n bytes hc hc' hd hd' e = (ground arith, ground arith)
