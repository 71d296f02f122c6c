-- ===== src/StringTools/Trim/Sets.antt =====
-- `trim` of code/StringTools.cpp, which looks for bytes outside a set, and how it agrees with
-- `trimChars`.
use mlnotes.Base.{
  ℕ, zero, suc, ◌+◌, ◌-◌, ◌≤◌, ◌<◌, ◌≡◌, ◌⊎◌, inl, inr, refl, Bool, true, false, none, some, List,
  [], ◌∷◌, arith, length, take, drop, get_or, ◌==◌, ap, ap₂, sym, subst, ◌∙◌, take_all, Bool-cases,
}
use mathlib.Core.Path.{fun_ext}
use native.Mathlib.Decide.{dec_lt}
use mlnotes.StringTools.Trim.{
  one_of, find_first_not_of, find_last_not_of, trim, back_loop, trim_chars,
}
use mlnotes.StringTools.Trim.Edges.{
  Trimmed, FrontStop, BackStop, stops_Trimmed, back_loop_stops, trim_chars-Trimmed,
}

-- One more byte to be removed in front.
FrontStop-cons :
    (p : ℕ → Bool) (c : ℕ) (s : List ℕ) (n k : ℕ)
    → p c ≡ true
    → FrontStop p s 0 n k
    → FrontStop p (c ∷ s) 0 (suc n) (suc k)
FrontStop-cons p c s n k h f = record {
  ge = omega arith;
  le = omega (arith, f.le);
  removed = gone;
  kept = ground (arith, f.kept);
}
  where
    gone : (j : ℕ) → 0 ≤ j → j < suc k → p (get_or (c ∷ s) j 0) ≡ true
    gone zero _ _ = h
    gone (suc j) _ lt = f.removed j (omega arith) (omega arith)

-- `find_first_not_of` finds the first byte outside the set.
find_first_lem :
    (set s : List ℕ) (i : ℕ)
    → ((find_first_not_of set s i ≡ none) × FrontStop (one_of set) s 0 (length s) (length s))
      ⊎ ((k : ℕ) × (find_first_not_of set s i ≡ some (i + k))
          × (k < length s)
          × FrontStop (one_of set) s 0 (length s) k)
unfolding find_first_not_of
find_first_lem set [] i = inl (
  refl,
  record {
    ge = omega arith;
    le = omega arith;
    removed = λ j h k. absurd (omega arith);
    kept = inl refl;
  },
)
find_first_lem set (c ∷ s) i = elim (Bool-cases (one_of set c)) [
  | inr stays ↦ inr (
    0,
    ground arith,
    omega arith,
    record {
      ge = omega arith;
      le = omega arith;
      removed = λ j h k. absurd (omega arith);
      kept = inr stays;
    },
  )
  | inl gone ↦ elim (find_first_lem set s (i + 1)) [
    | inl (e, f) ↦
        inl (ground (arith, e), FrontStop-cons (one_of set) c s (length s) (length s) gone f)
    | inr (k, e, lt, f) ↦
        inr (
          suc k,
          ground (arith, e),
          omega arith,
          FrontStop-cons (one_of set) c s (length s) k gone f,
        )
  ]
]

-- `find_last_not_of` finds what the loop from the back stops at.
find_last-eq :
    (set s : List ℕ) (n : ℕ)
    → ((find_last_not_of set s n ≡ none) × (back_loop (one_of set) s n ≡ 0))
      ⊎ ((e : ℕ) × (find_last_not_of set s n ≡ some e) × (back_loop (one_of set) s n ≡ suc e))
unfolding find_last_not_of back_loop
find_last-eq set s zero = inl (refl, refl)
find_last-eq set s (suc n) = elim (Bool-cases (one_of set (get_or s n 0))) [
  | inr stays ↦ inr (n, ground arith, ground arith)
  | inl gone ↦ rw gone (find_last-eq set s n)
]

module _ (p : ℕ → Bool) (s : List ℕ) (k : ℕ) where
  -- A byte that is kept is not behind the place where the loop from the back stops.
  within_back :
      {e : ℕ}
      → (k ≡ 0 + length s) ⊎ (p (get_or s k 0) ≡ false)
      → BackStop p s (length s) e
      → k < length s
      → k < e
  within_back {e} kept b lt = elim (dec_lt k e) [
    | yes h ↦ h
    | no h ↦ let gone = b.removed k (omega arith) lt in ground (arith, kept)
  ]

-- Trimming a set on both sides keeps exactly what lies between the outermost bytes outside it.
pub trim-Trimmed : (set s : List ℕ) → Trimmed (one_of set) s (trim s set)
unfolding trim
trim-Trimmed set s = elim (find_first_lem set s 0) [
  | inl (e, f) ↦
      stops_Trimmed (one_of set) s _ (length s) (length s) f (omega arith) (omega arith)
        (λ j h l. absurd (omega arith)) (inl refl)
        (let z : length s - length s ≡ 0 = omega arith in rw z (ground (arith, e)))
  | inr (k, e, lt, f) ↦ elim (find_last-eq set s (length s)) [
    | inl (_, z) ↦ absurd (
        omega (
          arith,
          within_back (one_of set) s k f.kept (rw z at (back_loop_stops (one_of set) s (length s)))
              lt,
        ))
    | inr (last, e', z) ↦
        let b = rw z at (back_loop_stops (one_of set) s (length s)) in
        let le = within_back (one_of set) s k f.kept b lt in
        stops_Trimmed (one_of set) s _ k (suc last) f (omega (arith, le)) (omega (arith, b.le))
          b.removed (inr (ground (arith, b.kept)))
          (ground (arith, e, e', take_all (length s) s, b.le))
  ]
]

-- A byte that is not to be removed lies within the trimmed part.
kept_inside :
    (p : ℕ → Bool) (s out : List ℕ) (t : Trimmed p s out) (j : ℕ)
    → j < length s
    → p (get_or s j 0) ≡ false
    → (t.start ≤ j) × (j < t.stop)
kept_inside p s out t j lt kept = (
  elim (dec_lt j t.start) [ no h ↦ omega arith | yes h ↦ let gone = t.front j h in cc ],
  elim (dec_lt j t.stop) [ yes h ↦ h | no h ↦ let gone = t.back j (omega arith) lt in cc ],
)

-- One trimmed part that is not empty lies within any other.
part_inside :
    (p : ℕ → Bool) (s a b : List ℕ) (x : Trimmed p s a) (y : Trimmed p s b)
    → x.start < x.stop
    → (y.start ≤ x.start) × (x.stop ≤ y.stop)
part_inside p s a b x y full = elim x.edges [
  | inl empty ↦ absurd (omega arith)
  | inr (first, last) ↦
      let here = kept_inside p s b y x.start (omega (arith, x.within)) first in
      let there = kept_inside p s b y (x.stop - 1) (omega (arith, x.within)) last in
      (here.0, omega (arith, there.1))
]

-- The trimmed part is determined by what is removed.
pub Trimmed-unique : (p : ℕ → Bool) (s a b : List ℕ) → Trimmed p s a → Trimmed p s b → a ≡ b
Trimmed-unique p s a b x y = elim (dec_lt x.start x.stop) [
  | yes full ↦
      let xy = part_inside p s a b x y full in
      let yx = part_inside p s b a y x (omega arith) in
      let e : x.start ≡ y.start = omega arith in
      let e' : x.stop - x.start ≡ y.stop - y.start = omega arith in
      x.text ∙ ap₂ (λ n k. take n (drop k s)) e' e ∙ sym y.text
  | no empty ↦ elim (dec_lt y.start y.stop) [
    | yes full ↦ let yx = part_inside p s b a y x full in absurd (omega arith)
    | no empty' ↦
        let e : x.stop - x.start ≡ 0 = omega (arith, x.ordered) in
        let e' : y.stop - y.start ≡ 0 = omega (arith, y.ordered) in
        x.text
        ∙ ap (λ n. take n (drop x.start s)) e
        ∙ sym (y.text ∙ ap (λ n. take n (drop y.start s)) e')
  ]
]

-- Trimming a set of one character is trimming that character.
pub trim-eq-trim_chars : (s : List ℕ) (c : ℕ) → trim s (c ∷ []) ≡ trim_chars s c
trim-eq-trim_chars s c =
    Trimmed-unique (λ x. c == x) s _ _
      (subst (λ p. Trimmed p s (trim s (c ∷ []))) (fun_ext same) (trim-Trimmed (c ∷ []) s))
      (trim_chars-Trimmed s c)
  where
    same : (x : ℕ) → one_of (c ∷ []) x ≡ (c == x)
    same x = ground arith
