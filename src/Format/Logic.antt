-- ===== src/Format/Logic.antt =====
-- The conversions of code/Format.cpp between Booleans and text.
use mlnotes.Base.{
  ℕ, ◌≡◌, ◌<◌, ◌↔◌, ◌⊎◌, inl, inr, refl, Bool, true, false, ◌||◌, none, some, List, [], ◌∷◌, arith,
  if◌then◌else◌, codes, c_text,
}
use mlnotes.StringTools.Edit.{tolower, to_lower_case}
use mlnotes.Format.{
  same_bytes, strcmp_eq, strcasecmp_eq, get_bool_value, string_to_bool, string_to_bool_or,
  bool_to_string, bool_to_string_yn,
}

pub same_bytes_iff : (a b : List ℕ) → (same_bytes a b ≡ true) ↔ (a ≡ b)
unfolding same_bytes
same_bytes_iff [] [] = (λ h. refl, λ h. refl)
same_bytes_iff [] (d ∷ b) = (λ h. ground arith, λ h. ground arith)
same_bytes_iff (c ∷ a) [] = (λ h. ground arith, λ h. ground arith)
same_bytes_iff (c ∷ a) (d ∷ b) =
    let ih = same_bytes_iff a b in (λ h. ground (arith, ih.0), λ h. ground (arith, ih.1))

-- A text of one digit is itself in lower case.
digit_lower :
    (val : List ℕ) (d : ℕ)
    → d < b'A'
    → 0 < d
    → same_bytes (c_text val) (d ∷ []) ≡ same_bytes (to_lower_case val) (d ∷ [])
unfolding same_bytes to_lower_case tolower
digit_lower [] d h p = refl
digit_lower (c ∷ []) d h p = ground arith
digit_lower (c ∷ (e ∷ val)) d h p = ground arith

-- The words for a truth value.
abbrev pub IsWord : Bool → List ℕ → Type 0
IsWord b w =
    (w ≡ (if b then codes "yes" else codes "no"))
    ⊎ ((w ≡ (if b then codes "y" else codes "n"))
        ⊎ ((w ≡ (if b then codes "1" else codes "0"))
            ⊎ (w ≡ (if b then codes "true" else codes "false"))))

-- The tests on a text in lower case.
abbrev one_of_words : List ℕ → List ℕ → List ℕ → List ℕ → List ℕ → Bool
one_of_words w a b c d = same_bytes w a || same_bytes w b || same_bytes w c || same_bytes w d

get_bool_value-lower :
    (val : List ℕ)
    → get_bool_value val ≡ (
        if one_of_words (to_lower_case val) (codes "yes") (codes "y") (codes "1") (codes "true")
        then some true
        else if one_of_words
            (to_lower_case val)
            (codes "no")
            (codes "n")
            (codes "0")
            (codes "false")
        then some false
        else none)
unfolding get_bool_value strcmp_eq strcasecmp_eq to_lower_case tolower
get_bool_value-lower val =
    rw
      (
        digit_lower val b'1' (omega arith) (omega arith),
        digit_lower val b'0' (omega arith) (omega arith),
      )
      refl

one_of_words_iff :
    (w a b c d : List ℕ)
    → (one_of_words w a b c d ≡ true) ↔ ((w ≡ a) ⊎ ((w ≡ b) ⊎ ((w ≡ c) ⊎ (w ≡ d))))
one_of_words_iff w a b c d =
    let p = same_bytes_iff w a in
    let q = same_bytes_iff w b in
    let r = same_bytes_iff w c in
    let s = same_bytes_iff w d in
    (λ h. ground (arith, p.0, q.0, r.0, s.0), λ h. ground (arith, p.1, q.1, r.1, s.1))

-- No word for false is one for true.
apart :
    (w : List ℕ)
    → IsWord false w
    → one_of_words w (codes "yes") (codes "y") (codes "1") (codes "true") ≡ false
unfolding same_bytes
apart w (inl e) = rw e refl
apart w (inr (inl e)) = rw e refl
apart w (inr (inr (inl e))) = rw e refl
apart w (inr (inr (inr e))) = rw e refl

choice_true :
    (y n : Bool)
    → ((if y then some true else if n then some false else none) ≡ some true) ↔ (y ≡ true)
choice_true true n = (λ h. refl, λ h. refl)
choice_true false true = (λ h. ground arith, λ h. ground arith)
choice_true false false = (λ h. ground arith, λ h. ground arith)

choice_false :
    (y n : Bool)
    → ((if y then some true else if n then some false else none) ≡ some false)
      ↔ ((y ≡ false) × (n ≡ true))
choice_false true n = (λ h. ground arith, λ h. ground arith)
choice_false false true = (λ h. (refl, refl), λ h. refl)
choice_false false false = (λ h. ground arith, λ h. ground arith)

-- A text is read as a truth value exactly when its lower-case form is one of the words for that
-- value; a null pointer is read as none.
pub string_to_bool_iff :
    (val : List ℕ) (b : Bool) → (string_to_bool (some val) ≡ some b) ↔ IsWord b (to_lower_case val)
unfolding string_to_bool
string_to_bool_iff val true =
    let w = to_lower_case val in
    let words = one_of_words_iff w (codes "yes") (codes "y") (codes "1") (codes "true") in
    let pick = choice_true _ _ in
    rw (get_bool_value-lower val) (λ h. words.0 (pick.0 h), λ h. pick.1 (words.1 h))
string_to_bool_iff val false =
    let w = to_lower_case val in
    let words = one_of_words_iff w (codes "no") (codes "n") (codes "0") (codes "false") in
    let pick = choice_false _ _ in
    rw (get_bool_value-lower val) (λ h. words.0 (pick.0 h).1, λ h. pick.1 (apart w h, words.1 h))

-- Both texts that are printed for a truth value are read as that value, whatever the default.
pub bool_to_string-read :
    (b default_value : Bool)
    → (string_to_bool (some (bool_to_string b)) ≡ some b)
      × (string_to_bool (some (bool_to_string_yn b)) ≡ some b)
      × (string_to_bool_or (some (bool_to_string b)) default_value ≡ b)
      × (string_to_bool_or (some (bool_to_string_yn b)) default_value ≡ b)
unfolding string_to_bool string_to_bool_or bool_to_string bool_to_string_yn get_bool_value
    strcasecmp_eq strcmp_eq same_bytes to_lower_case tolower
bool_to_string-read true d = (refl, refl, refl, refl)
bool_to_string-read false d = (refl, refl, refl, refl)
