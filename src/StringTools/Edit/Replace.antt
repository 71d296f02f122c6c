-- ===== src/StringTools/Edit/Replace.antt =====
-- `replaceAll` of code/StringTools.cpp.
use mlnotes.Base.{
  ℕ, zero, suc, ◌+◌, ◌-◌, ◌≤◌, ◌<◌, ◌≡◌, ◌⊎◌, inl, inr, refl, Bool, true, false, Option, none, some,
  List, [], ◌∷◌, ◌++◌, arith, length, take, drop, leb, ◌==◌, if◌then◌else◌, ap, sym, ◌∙◌,
  Bool-cases, append_assoc, length-append, drop-append, length-drop, eq_of_get_elem?, at_index,
  lengths, length-take,
}

-- Whether `orig` stands at the beginning.
unfoldable pub stands_at : List ℕ → List ℕ → Bool
stands_at [] s = true
stands_at (o ∷ orig) [] = false
stands_at (o ∷ orig) (c ∷ s) = if o == c then stands_at orig s else false

-- The first place at which `orig` stands in the bytes from index `i` on.
unfoldable pub find_in : List ℕ → List ℕ → ℕ → Option ℕ
find_in orig [] i = if stands_at orig [] then some i else none
find_in orig (c ∷ s) i =
    let later = find_in orig s (i + 1) in if stands_at orig (c ∷ s) then some i else later

-- `result.find(orig, j)`
unfoldable pub find : List ℕ → List ℕ → ℕ → Option ℕ
unfolding find_in stands_at
find result orig j = if leb j (length result) then find_in orig (drop j result) j else none

-- The loop; `none` means that the fuel ran out.
unfoldable pub replace_loop : ℕ → List ℕ → List ℕ → List ℕ → ℕ → Option (List ℕ)
replace_loop zero result orig dest j = none
replace_loop (suc fuel) result orig dest j = elim (find result orig j) [
  | none ↦ some result
  | some k ↦
      replace_loop fuel (take k result ++ dest ++ drop (k + length orig) result) orig dest
        (k + length dest)
]

-- One round more than the source has bytes.
unfoldable pub replace_all : List ℕ → List ℕ → List ℕ → Option (List ℕ)
unfolding replace_loop find
replace_all src orig dest = replace_loop (suc (length src)) src orig dest 0

-- The source read once from left to right; `skip` bytes of a replaced text are still to be passed.
unfoldable pub replaced : List ℕ → List ℕ → ℕ → List ℕ → List ℕ
replaced orig dest skip [] = []
replaced orig dest (suc skip) (c ∷ s) = replaced orig dest skip s
replaced orig dest zero (c ∷ s) =
    let hit = dest ++ replaced orig dest (length orig - 1) s in
    let miss = c ∷ replaced orig dest 0 s in if stands_at orig (c ∷ s) then hit else miss

stands_at-nil : (orig : List ℕ) → 0 < length orig → stands_at orig [] ≡ false
unfolding stands_at
stands_at-nil [] h = absurd (omega arith)
stands_at-nil (o ∷ orig) h = refl

drop-cons : (n c : ℕ) (s : List ℕ) → 0 < n → drop n (c ∷ s) ≡ drop (n - 1) s
drop-cons zero c s h = absurd (omega arith)
drop-cons (suc n) c s h = ap (λ k. drop k s) (omega arith)

drop-cons_suc : (n m c : ℕ) (s : List ℕ) → m ≡ suc n → drop m (c ∷ s) ≡ drop n s
drop-cons_suc n m c s e = rw e

-- Looking from the end of the part that is done is looking into the rest.
find-append :
    (orig done rest result : List ℕ) (j : ℕ)
    → result ≡ done ++ rest
    → j ≡ length done
    → find result orig j ≡ find_in orig rest (length done)
unfolding find
find-append orig done rest result j e ej =
    rw (e, ej) (ground (arith, length-append done rest, drop-append done rest (length done)))

module _ (orig dest : List ℕ) where
  replaced-skip : (n : ℕ) (s : List ℕ) → replaced orig dest n s ≡ replaced orig dest 0 (drop n s)
  unfolding replaced
  replaced-skip zero s = refl
  replaced-skip (suc n) [] = refl
  replaced-skip (suc n) (c ∷ s) = replaced-skip n s

  -- What the first match cuts the text into: `k` bytes that are kept, the match, and the rest.
  record Cut (s : List ℕ) (k : ℕ) : Type 0 where
    within : k < length s
    text :
        replaced orig dest 0 s
        ≡ take k s ++ (dest ++ replaced orig dest 0 (drop (k + length orig) s))

  find_in_lem :
      (s : List ℕ) (i : ℕ)
      → 0 < length orig
      → ((find_in orig s i ≡ none) × (replaced orig dest 0 s ≡ s))
        ⊎ ((k : ℕ) × (find_in orig s i ≡ some (i + k)) × Cut s k)
  unfolding find_in replaced
  find_in_lem [] i h = inl (ground (arith, stands_at-nil orig h), refl)
  find_in_lem (c ∷ s) i h = elim (Bool-cases (stands_at orig (c ∷ s))) [
    | inl hit ↦ inr (
      0,
      ground arith,
      record {
        within = omega arith;
        text = ground (arith, replaced-skip (length orig - 1) s, drop-cons (length orig) c s h);
      },
    )
    | inr miss ↦ elim (find_in_lem s (i + 1) h) [
      | inl (e, same) ↦ inl (ground (arith, e), ground (arith, same))
      | inr (k, e, cut) ↦ inr (
        suc k,
        ground (arith, e),
        record {
          within = omega (arith, cut.within);
          text =
              ground (arith, cut.text, drop-cons_suc (k + length orig) (suc k + length orig) c s);
        },
      )
    ]
  ]

  -- One round of the loop.
  round_none :
      (fuel : ℕ) (result : List ℕ) (j : ℕ)
      → find result orig j ≡ none
      → replace_loop (suc fuel) result orig dest j ≡ some result
  unfolding replace_loop
  round_none fuel result j e = rw (e, replace_loop)

  round_some :
      (fuel : ℕ) (result : List ℕ) (j k : ℕ)
      → find result orig j ≡ some k
      → replace_loop (suc fuel) result orig dest j
        ≡ replace_loop fuel
            (take k result ++ dest ++ drop (k + length orig) result)
            orig
            dest
            (k + length dest)
  unfolding replace_loop
  round_some fuel result j k e = rw (e, replace_loop)

  -- The text after a round: the part that is done has grown by what is kept and by `dest`.
  grown :
      (done rest : List ℕ) (k n : ℕ)
      → k ≤ length rest
      → (take (length done + k) (done ++ rest) ++ dest ++ drop (length done + k + n) (done ++ rest)
          ≡ (done ++ (take k rest ++ dest)) ++ drop (k + n) rest)
        × (length done + k + length dest ≡ length (done ++ (take k rest ++ dest)))
  grown done rest k n h = (
    eq_of_get_elem? _ _ (λ i. simp (at_index, lengths) (ground arith)),
    simp lengths (omega arith),
  )

  replace_loop_lem :
      (fuel : ℕ) (done rest result : List ℕ) (j : ℕ)
      → 0 < length orig
      → length rest < fuel
      → result ≡ done ++ rest
      → j ≡ length done
      → replace_loop fuel result orig dest j ≡ some (done ++ replaced orig dest 0 rest)
  replace_loop_lem zero done rest result j h hf e ej = absurd (omega arith)
  replace_loop_lem (suc fuel) done rest result j h hf e ej =
      let here : find result orig j ≡ find_in orig rest (length done) =
        find-append orig done rest result j e ej in
      elim (find_in_lem rest (length done) h) [
        | inl (stop, same) ↦
            round_none fuel result j (here ∙ stop) ∙ ap some (e ∙ ap (λ t. done ++ t) (sym same))
        | inr (k, found, cut) ↦
            let g = grown done rest k (length orig) (omega (arith, cut.within)) in
            round_some fuel result j (length done + k) (here ∙ found)
            ∙ replace_loop_lem fuel (done ++ (take k rest ++ dest)) (drop (k + length orig) rest) _
                _ h (omega (arith, length-drop (k + length orig) rest, cut.within)) (rw e g.0) g.1
            ∙ ap some (
                append_assoc done (take k rest ++ dest) _
                ∙ ap (λ t. done ++ t) (append_assoc (take k rest) dest _ ∙ sym cut.text))
      ]

-- With something to replace, the loop ends within a round for every byte and one more, and the
-- result is the source read once from left to right, with each match replaced and then passed over.
pub replace_all-eq-replaced :
    (src orig dest : List ℕ)
    → 0 < length orig
    → replace_all src orig dest ≡ some (replaced orig dest 0 src)
unfolding replace_all
replace_all-eq-replaced src orig dest h =
    replace_loop_lem orig dest (suc (length src)) [] src src 0 h (omega arith) refl refl

find_empty : (result : List ℕ) (j : ℕ) → j ≤ length result → find result [] j ≡ some j
unfolding find
find_empty result j h = ground (arith, find_in_empty (drop j result) j)
  where
    find_in_empty : (s : List ℕ) (i : ℕ) → find_in [] s i ≡ some i
    find_in_empty [] i = refl
    find_in_empty (c ∷ s) i = refl

-- With nothing to look for the loop never ends: from any place in any text no fuel is enough.
pub replace_loop_empty :
    (fuel : ℕ) (result dest : List ℕ) (j : ℕ)
    → j ≤ length result
    → replace_loop fuel result [] dest j ≡ none
replace_loop_empty zero result dest j h = unfold replace_loop in refl
replace_loop_empty (suc fuel) result dest j h =
    round_some [] dest fuel result j j (find_empty result j h)
    ∙ replace_loop_empty fuel (take j result ++ dest ++ drop (j + 0) result) dest (j + length dest)
        (rw (length-append, length-append, length-take) (omega arith))
