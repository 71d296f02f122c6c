-- ===== src/StringTools/Edit.antt =====
-- The edits of code/StringTools.cpp: change of case (of ASCII letters, as in the C locale), removal
-- of characters, and `replaceAll`.
pub mod Replace
use mlnotes.Base.{
  ℕ, zero, suc, ◌+◌, ◌-◌, ◌≤◌, ◌<◌, ◌≡◌, ◌≢◌, ◌↔◌, ◌⊎◌, inl, inr, refl, Bool, true, false, not,
  ◌&&◌, ◌||◌, Option, none, some, List, [], ◌∷◌, ◌++◌, arith, length, take, drop, ltb, leb, ◌==◌,
  if◌then◌else◌, All, ap, sym, ◌∙◌, Bool-cases, append-nil, append_assoc, c_text,
}
use mlnotes.StringTools.Trim.{one_of}

unfoldable pub tolower : ℕ → ℕ
tolower c = if leb b'A' c && leb c b'Z' then c + 32 else c

unfoldable pub toupper : ℕ → ℕ
toupper c = if leb b'a' c && leb c b'z' then c - 32 else c

-- `for (c = str.c_str(); *c; ++c)`: up to the first zero byte.
unfoldable pub to_lower_case : List ℕ → List ℕ
unfolding tolower
to_lower_case [] = []
to_lower_case (c ∷ str) = if c == 0 then [] else tolower c ∷ to_lower_case str

unfoldable pub to_upper_case : List ℕ → List ℕ
unfolding toupper
to_upper_case [] = []
to_upper_case (c ∷ str) = if c == 0 then [] else toupper c ∷ to_upper_case str

-- `std::remove_copy_if` into a new string.
unfoldable pub remove_copy_if : (ℕ → Bool) → List ℕ → List ℕ
remove_copy_if p [] = []
remove_copy_if p (c ∷ str) = if p c then remove_copy_if p str else c ∷ remove_copy_if p str

unfoldable pub remove_char : List ℕ → ℕ → List ℕ
unfolding remove_copy_if
remove_char str remove = remove_copy_if (λ c. c == remove) str

unfoldable pub remove_chars : List ℕ → List ℕ → List ℕ
unfolding remove_copy_if
remove_chars str remove = remove_copy_if (one_of remove) str

unfoldable pub remove_newlines : List ℕ → List ℕ
unfolding remove_copy_if
remove_newlines str = remove_copy_if (λ c. c == b'\n' || c == b'\r') str

-- Lowering what was raised is lowering, and raising what was lowered is raising.
pub to_lower-to_upper :
    (s : List ℕ)
    → (to_lower_case (to_upper_case s) ≡ to_lower_case s)
      × (to_upper_case (to_lower_case s) ≡ to_upper_case s)
unfolding to_lower_case to_upper_case
to_lower-to_upper [] = (refl, refl)
to_lower-to_upper (c ∷ s) = ground (arith, to_lower-to_upper s)

-- Removing a set of characters is removing them one after the other, in any order.
pub remove_chars-cons :
    (s set : List ℕ) (c : ℕ)
    → (remove_chars s (c ∷ set) ≡ remove_chars (remove_char s c) set)
      × (remove_chars s (c ∷ set) ≡ remove_char (remove_chars s set) c)
unfolding remove_chars remove_char
remove_chars-cons [] set c = (refl, refl)
remove_chars-cons (x ∷ s) set c = ground (arith, remove_chars-cons s set c)

-- Removing the newlines is removing the characters CR and LF.
pub remove_newlines-eq-remove_chars :
    (s : List ℕ) → remove_newlines s ≡ remove_chars s (b'\n' ∷ b'\r' ∷ [])
unfolding remove_newlines remove_chars
remove_newlines-eq-remove_chars [] = refl
remove_newlines-eq-remove_chars (x ∷ s) = ground (arith, remove_newlines-eq-remove_chars s)
