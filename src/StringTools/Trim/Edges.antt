-- ===== src/StringTools/Trim/Edges.antt =====
-- What the trims of code/StringTools.cpp keep: everything between the first and the last byte that
-- is not to be removed.
use mlnotes.Base.{
  ℕ, zero, suc, ◌+◌, ◌-◌, ◌≤◌, ◌<◌, ◌≡◌, ◌⊎◌, inl, inr, refl, Bool, true, false, List, arith,
  length, take, drop, get_or, ◌==◌, subst, length-drop, take_all, get_or-drop, Bool-cases,
}
use native.Mathlib.Decide.{dec_lt}
use mlnotes.StringTools.Trim.{
  back_loop, trim_trailing_chars, trim_right_spaces, front_loop, trim_leading_chars, trim_chars,
}

-- `out` is the part of `s` from `start` to before `stop`; `p` holds of all that is left out, and of
-- neither end of a part that is not empty.
pub record Trimmed (p : ℕ → Bool) (s out : List ℕ) : Type 0 where
  pub start : ℕ
  pub stop : ℕ
  pub ordered : start ≤ stop
  pub within : stop ≤ length s
  pub text : out ≡ take (stop - start) (drop start s)
  pub front : (j : ℕ) → j < start → p (get_or s j 0) ≡ true
  pub back : (j : ℕ) → stop ≤ j → j < length s → p (get_or s j 0) ≡ true
  pub edges :
      (start ≡ stop) ⊎ ((p (get_or s start 0) ≡ false) × (p (get_or s (stop - 1) 0) ≡ false))

-- The loop from the back stops behind the last byte to be kept.
pub record BackStop (p : ℕ → Bool) (s : List ℕ) (n k : ℕ) : Type 0 where
  pub le : k ≤ n
  pub removed : (j : ℕ) → k ≤ j → j < n → p (get_or s j 0) ≡ true
  pub kept : (k ≡ 0) ⊎ (p (get_or s (k - 1) 0) ≡ false)

pub back_loop_stops : (p : ℕ → Bool) (s : List ℕ) (n : ℕ) → BackStop p s n (back_loop p s n)
unfolding back_loop
back_loop_stops p s zero = record {
  le = omega arith;
  removed = λ j h k. absurd (omega arith);
  kept = inl refl;
}
back_loop_stops p s (suc n) = elim (Bool-cases (p (get_or s n 0))) [
  | inl gone ↦
      let b = back_loop_stops p s n in
      rw gone (record {
        le = omega (arith, b.le);
        removed = λ j h k. elim (dec_lt j n) [
          | yes lt ↦ b.removed j h lt
          | no ge ↦ let e : j ≡ n = omega arith in rw e gone
        ];
        kept = b.kept;
      })
  | inr stays ↦ rw stays (record {
    le = omega arith;
    removed = λ j h k. absurd (omega arith);
    kept = inr (let e : suc n - 1 ≡ n = omega arith in rw e stays);
  })
]

pub record FrontStop (p : ℕ → Bool) (s : List ℕ) (i n k : ℕ) : Type 0 where
  pub ge : i ≤ k
  pub le : k ≤ i + n
  pub removed : (j : ℕ) → i ≤ j → j < k → p (get_or s j 0) ≡ true
  pub kept : (k ≡ i + n) ⊎ (p (get_or s k 0) ≡ false)

front_loop_stops : (p : ℕ → Bool) (s : List ℕ) (n i : ℕ) → FrontStop p s i n (front_loop p s n i)
unfolding front_loop
front_loop_stops p s zero i = record {
  ge = omega arith;
  le = omega arith;
  removed = λ j h k. absurd (omega arith);
  kept = inl (omega arith);
}
front_loop_stops p s (suc n) i = elim (Bool-cases (p (get_or s i 0))) [
  | inl gone ↦
      let f = front_loop_stops p s n (i + 1) in
      rw gone (record {
        ge = omega (arith, f.ge);
        le = omega (arith, f.le);
        removed = λ j h k. elim (dec_lt i j) [
          | yes lt ↦ f.removed j (omega arith) k
          | no ge ↦ let e : j ≡ i = omega arith in rw e gone
        ];
        kept = ground (arith, f.kept);
      })
  | inr stays ↦ rw stays (record {
    ge = omega arith;
    le = omega arith;
    removed = λ j h k. absurd (omega arith);
    kept = inr stays;
  })
]

trim_trailing-eq-take :
    (s : List ℕ) (c : ℕ) → trim_trailing_chars s c ≡ take (back_loop (λ x. c == x) s (length s)) s
unfolding trim_trailing_chars
trim_trailing-eq-take s c = ground (arith, take_all (length s) s)

trim_leading-eq-drop :
    (s : List ℕ) (c : ℕ) → trim_leading_chars s c ≡ drop (front_loop (λ x. c == x) s (length s) 0) s
unfolding trim_leading_chars
trim_leading-eq-drop s c =
    let k = front_loop (λ x. c == x) s (length s) 0 in
    ground (arith, length-drop k s, take_all (length s - k) (drop k s))

-- Trimming the right spaces is trimming trailing spaces.
trim_right-eq-trailing : (s : List ℕ) → trim_right_spaces s ≡ trim_trailing_chars s b' '
unfolding trim_right_spaces trim_trailing_chars
trim_right-eq-trailing s = refl

-- Where the loops from the two ends stop, a trimmed part lies in between.
pub stops_Trimmed :
    (p : ℕ → Bool) (s out : List ℕ) (k e : ℕ)
    → FrontStop p s 0 (length s) k
    → k ≤ e
    → e ≤ length s
    → ((j : ℕ) → e ≤ j → j < length s → p (get_or s j 0) ≡ true)
    → (k ≡ e) ⊎ (p (get_or s (e - 1) 0) ≡ false)
    → out ≡ take (e - k) (drop k s)
    → Trimmed p s out
stops_Trimmed p s out k e f hk he removed kept text = record {
  start = k;
  stop = e;
  ordered = hk;
  within = he;
  text = text;
  front = λ j h. f.removed j (omega arith) h;
  back = removed;
  edges = both f.kept kept;
}
  where
    both :
        (k ≡ 0 + length s) ⊎ (p (get_or s k 0) ≡ false)
        → (k ≡ e) ⊎ (p (get_or s (e - 1) 0) ≡ false)
        → (k ≡ e) ⊎ ((p (get_or s k 0) ≡ false) × (p (get_or s (e - 1) 0) ≡ false))
    both _ (inl empty) = inl empty
    both (inl all) (inr _) = inl (omega arith)
    both (inr first) (inr last) = inr (first, last)

-- Trimming a character on both sides keeps exactly what lies between its outermost other bytes.
pub trim_chars-Trimmed : (s : List ℕ) (c : ℕ) → Trimmed (λ x. c == x) s (trim_chars s c)
unfolding trim_chars
trim_chars-Trimmed s c =
    let p : ℕ → Bool = λ x. c == x in
    let k = front_loop p s (length s) 0 in
    let f = front_loop_stops p s (length s) 0 in
    let n = back_loop p (drop k s) (length (drop k s)) in
    let b = back_loop_stops p (drop k s) (length (drop k s)) in
    let len = length-drop k s in
    let n' : k + n - k ≡ n = omega arith in
    stops_Trimmed p s (trim_chars s c) k (k + n) f (omega arith) (omega (arith, f.le, b.le, len))
      (λ j h l.
        let e : k + (j - k) ≡ j = omega arith in
        subst (λ i. p (get_or s i 0) ≡ true) e
          (rw (get_or-drop k s (j - k) 0) at
            (b.removed (j - k) (omega arith) (omega (arith, len)))))
      (last k n b.kept) (rw (trim_leading-eq-drop s c, trim_trailing-eq-take (drop k s) c, n'))
  where
    last :
        (k n : ℕ)
        → (n ≡ 0) ⊎ ((c == get_or (drop k s) (n - 1) 0) ≡ false)
        → (k ≡ k + n) ⊎ ((c == get_or s (k + n - 1) 0) ≡ false)
    last k n (inl e) = inl (omega arith)
    last k zero (inr h) = inl (omega arith)
    last k (suc n) (inr h) =
        let e : k + suc n - 1 ≡ k + n = omega arith in
        let e' : suc n - 1 ≡ n = omega arith in inr (rw (e) (rw (e', get_or-drop k s n 0) at h))
