-- ===== src/StringTools/Match.antt =====
-- `startsWith`, `endsWith` and `isDate` of code/StringTools.cpp.
use mlnotes.Base.{
  ℕ, zero, suc, ◌+◌, ◌-◌, ◌≤◌, ◌<◌, ◌≡◌, ◌↔◌, ◌⊎◌, inl, inr, refl, Bool, true, false, not, ◌&&◌,
  ◌||◌, List, [], ◌∷◌, ◌++◌, arith, length, take, drop, get_or, ltb, ◌==◌, if◌then◌else◌, ap, sym,
  ◌∙◌, length-append, length-drop, take-append-drop, Bool-cases, c_text, drop-append,
}
use native.Mathlib.Decide.{dec_lt}

-- The loop of `startsWith(const char *, const char *)`: on while neither string has ended.
unfoldable pub starts_with : List ℕ → List ℕ → Bool
starts_with [] [] = true
starts_with [] (t ∷ token) = t == 0
starts_with (c ∷ src) [] = true
starts_with (c ∷ src) (t ∷ token) =
    if not (c == 0) && not (t == 0)
    then (if c == t then starts_with src token else false)
    else t == 0

-- Whether `strncmp` of the first `n` bytes is 0.
unfoldable pub strncmp_eq : List ℕ → List ℕ → ℕ → Bool
strncmp_eq a b zero = true
strncmp_eq [] [] (suc n) = true
strncmp_eq [] (d ∷ b) (suc n) = d == 0
strncmp_eq (c ∷ a) [] (suc n) = c == 0
strncmp_eq (c ∷ a) (d ∷ b) (suc n) =
    if c == d then (if c == 0 then true else strncmp_eq a b n) else false

unfoldable pub ends_with : List ℕ → List ℕ → Bool
unfolding strncmp_eq
ends_with src suffix =
    let src_len = length (c_text src) in
    let suffix_len = length (c_text suffix) in
    if ltb src_len suffix_len
    then false
    else strncmp_eq (drop (src_len - suffix_len) src) suffix suffix_len

-- The loop over the first `n` bytes from index `i` on.
unfoldable pub all_digits : List ℕ → ℕ → ℕ → Bool
all_digits str i zero = true
all_digits str i (suc n) =
    if ltb (get_or str i 0) b'0' || ltb b'9' (get_or str i 0)
    then false
    else all_digits str (i + 1) n

unfoldable pub is_date : List ℕ → Bool
is_date str =
    if not (length (c_text str) == 8)
    then false
    else if not (all_digits str 0 8)
    then false
    else if not (get_or str 0 0 == b'1' && get_or str 1 0 == b'9' || get_or str 0 0 == b'2')
    then false
    else true

starts_with_sound :
    (src token : List ℕ)
    → starts_with src token ≡ true
    → (rest : List ℕ) × (c_text src ≡ c_text token ++ rest)
unfolding starts_with
starts_with_sound [] [] h = ([], refl)
starts_with_sound [] (t ∷ token) h = ([], ground arith)
starts_with_sound (c ∷ src) [] h = (c_text (c ∷ src), refl)
starts_with_sound (c ∷ src) (t ∷ token) h = elim (Bool-cases (t == 0)) [
  | inl ended ↦ (c_text (c ∷ src), ground arith)
  | inr more ↦
      let (rest, e) = starts_with_sound src token (ground arith) in (rest, ground (arith, e))
]

starts_with_complete :
    (src token rest : List ℕ) → c_text src ≡ c_text token ++ rest → starts_with src token ≡ true
unfolding starts_with
starts_with_complete [] [] rest h = refl
starts_with_complete [] (t ∷ token) rest h = ground arith
starts_with_complete (c ∷ src) [] rest h = refl
starts_with_complete (c ∷ src) (t ∷ token) rest h =
    ground (arith, starts_with_complete src token rest)

-- The test holds exactly when the token, up to its terminating zero, is a prefix of the source.
pub starts_with_iff :
    (src token : List ℕ)
    → (starts_with src token ≡ true) ↔ ((rest : List ℕ) × (c_text src ≡ c_text token ++ rest))
starts_with_iff src token =
    (starts_with_sound src token, λ h. starts_with_complete src token h.0 h.1)

c_text-drop : (k : ℕ) (s : List ℕ) → k ≤ length (c_text s) → c_text (drop k s) ≡ drop k (c_text s)
c_text-drop zero s h = refl
c_text-drop (suc k) [] h = refl
c_text-drop (suc k) (c ∷ s) h = ground (arith, c_text-drop k s)

-- `strncmp` over the whole of two texts of one length compares them for equality.
strncmp_eq_sound :
    (a b : List ℕ) (n : ℕ)
    → length (c_text a) ≡ n
    → length (c_text b) ≡ n
    → strncmp_eq a b n ≡ true
    → c_text a ≡ c_text b
unfolding strncmp_eq
strncmp_eq_sound [] [] zero ha hb h = refl
strncmp_eq_sound [] [] (suc n) ha hb h = refl
strncmp_eq_sound [] (d ∷ b) zero ha hb h = ground arith
strncmp_eq_sound [] (d ∷ b) (suc n) ha hb h = ground arith
strncmp_eq_sound (c ∷ a) [] zero ha hb h = ground arith
strncmp_eq_sound (c ∷ a) [] (suc n) ha hb h = ground arith
strncmp_eq_sound (c ∷ a) (d ∷ b) zero ha hb h = ground arith
strncmp_eq_sound (c ∷ a) (d ∷ b) (suc n) ha hb h = ground (arith, strncmp_eq_sound a b n)

strncmp_eq_complete : (a b : List ℕ) (n : ℕ) → c_text a ≡ c_text b → strncmp_eq a b n ≡ true
unfolding strncmp_eq
strncmp_eq_complete a b zero e = refl
strncmp_eq_complete [] [] (suc n) e = refl
strncmp_eq_complete [] (d ∷ b) (suc n) e = ground arith
strncmp_eq_complete (c ∷ a) [] (suc n) e = ground arith
strncmp_eq_complete (c ∷ a) (d ∷ b) (suc n) e = ground (arith, strncmp_eq_complete a b n)

ends_with_sound :
    (src suffix : List ℕ)
    → ends_with src suffix ≡ true
    → (front : List ℕ) × (c_text src ≡ front ++ c_text suffix)
unfolding ends_with
ends_with_sound src suffix h =
    let n = length (c_text src) in
    let k = length (c_text suffix) in
    let fits : k ≤ n = ground arith in
    let same : strncmp_eq (drop (n - k) src) suffix k ≡ true = ground arith in
    let cut : c_text (drop (n - k) src) ≡ drop (n - k) (c_text src) =
      c_text-drop (n - k) src (omega arith) in
    (
      take (n - k) (c_text src),
      sym (take-append-drop (n - k) (c_text src))
          ∙ ap (λ t. take (n - k) (c_text src) ++ t)
              (sym cut
                ∙ strncmp_eq_sound (drop (n - k) src) suffix k
                    (ap length cut ∙ length-drop (n - k) (c_text src) ∙ omega arith) refl same),
    )

ends_with_complete :
    (src suffix front : List ℕ) → c_text src ≡ front ++ c_text suffix → ends_with src suffix ≡ true
unfolding ends_with
ends_with_complete src suffix front e =
    let n = length (c_text src) in
    let k = length (c_text suffix) in
    let len : n ≡ length front + k = ap length e ∙ length-append front (c_text suffix) in
    ground (
      arith,
      len,
      strncmp_eq_complete (drop (n - k) src) suffix k,
      c_text-drop (n - k) src,
      ap (drop (n - k)) e,
      drop-append front (c_text suffix) (n - k),
    )

-- The test holds exactly when the suffix ends the source, both up to their terminating zeros.
pub ends_with_iff :
    (src suffix : List ℕ)
    → (ends_with src suffix ≡ true) ↔ ((front : List ℕ) × (c_text src ≡ front ++ c_text suffix))
ends_with_iff src suffix = (ends_with_sound src suffix, λ h. ends_with_complete src suffix h.0 h.1)

abbrev pub IsDigit : ℕ → Type 0
IsDigit c = (b'0' ≤ c) × (c ≤ b'9')

all_digits_sound :
    (str : List ℕ) (i n : ℕ)
    → all_digits str i n ≡ true
    → (j : ℕ) → i ≤ j
    → j < i + n
    → IsDigit (get_or str j 0)
unfolding all_digits
all_digits_sound str i zero h j lo hi = absurd (omega arith)
all_digits_sound str i (suc n) h j lo hi = elim (dec_lt i j) [
  | yes later ↦ all_digits_sound str (i + 1) n (ground arith) j (omega arith) (omega arith)
  | no first ↦ let e : i ≡ j = omega arith in ground (arith, e)
]

all_digits_complete :
    (str : List ℕ) (i n : ℕ)
    → ((j : ℕ) → i ≤ j → j < i + n → IsDigit (get_or str j 0))
    → all_digits str i n ≡ true
unfolding all_digits
all_digits_complete str i zero h = refl
all_digits_complete str i (suc n) h = ground (
  arith,
  h i (omega arith) (omega arith),
  all_digits_complete str (i + 1) n (λ j lo hi. h j (omega arith) (omega arith)),
)

-- What the comment on `isDate` says: 19yymmdd or 2yyymmdd.
pub record DateText (str : List ℕ) : Type 0 where
  pub eight : length (c_text str) ≡ 8
  pub digits : (j : ℕ) → j < 8 → IsDigit (get_or str j 0)
  pub century : ((get_or str 0 0 ≡ b'1') × (get_or str 1 0 ≡ b'9')) ⊎ (get_or str 0 0 ≡ b'2')

-- The test holds exactly of eight digits that begin with 19 or with 2.
pub is_date_iff : (str : List ℕ) → (is_date str ≡ true) ↔ DateText str
unfolding is_date
is_date_iff str = (
  λ h. record {
    eight = ground arith;
    digits = λ j hj. all_digits_sound str 0 8 (ground arith) j (omega arith) (omega arith);
    century = ground arith;
  },
  λ d. ground (
    arith,
    d.eight,
    d.century,
    all_digits_complete str 0 8 (λ j lo hi. d.digits j (omega arith)),
  ),
)
