-- ===== src/CircularBuffer/Window.antt =====
-- The window of `n` elements of an array from an index on, round its end, and what pasting elements
-- just behind the window does to it.
use mlnotes.Base.Arrays.{paste}
use mlnotes.Base.{
  ℕ, ◌+◌, ◌-◌, ◌≤◌, ◌<◌, ◌≡◌, ◌⊎◌, List, ◌++◌, arith, length, take, drop, at_index, lengths,
  eq_of_get_elem?, get_elem?-eq-none,
}

module _ {A : Type 0} (buf : List A) where
  abbrev pub window : ℕ → ℕ → List A
  window start n = take n (drop start buf ++ buf)

module _ {A : Type 0} (buf : List A) (start n end : ℕ) (xs : List A) (count : ℕ) where
  -- The window and the pasted elements lie side by side, with no wrap in between.
  pub window-paste :
      start < length buf
      → end < length buf
      → length xs ≡ count
      → n + count < length buf
      → (start + n ≡ end) ⊎ (start + n ≡ end + length buf)
      → (end < start) ⊎ (count ≤ length buf - end)
      → window (paste buf end xs) start (n + count) ≡ window buf start n ++ xs
  window-paste hs he hx hn link room =
      eq_of_get_elem? _ _
        (λ i. simp (at_index, lengths, hx) (ground (arith, get_elem?-eq-none xs (i - n))))

module _ {A : Type 0} (buf : List A) (start n : ℕ) where
  -- Pasting in two pieces, to the end of the array and then from its beginning.
  pub window-paste_wrapped :
      (end cap : ℕ) (pt : List A) (count : ℕ)
      → length buf ≡ cap
      → start < cap
      → end < cap
      → n + count < cap
      → start + n ≡ end
      → cap - end < count
      → count ≤ length pt
      → let r = cap - end in
        window
          (paste (paste buf end (take r pt)) 0 (take (count - r) (drop r pt)))
          start
          (n + count)
        ≡ window buf start n ++ take count pt
  window-paste_wrapped end cap pt count e hs he hn link over hp =
      eq_of_get_elem? _ _
        (λ i. simp (at_index, lengths) (ground (arith, get_elem?-eq-none pt (i - n))))

  -- A window that begins `k` elements later, round the end, is the first one without `k` elements.
  pub window-drop :
      (k start' : ℕ)
      → start < length buf
      → k ≤ n
      → n < length buf
      → (start + k ≡ start') ⊎ (start + k ≡ start' + length buf)
      → start' < length buf
      → window buf start' (n - k) ≡ drop k (window buf start n)
  window-drop k start' hs hk hn e hs' =
      eq_of_get_elem? _ _ (λ i. simp (at_index, lengths) (ground arith))

  -- The first `k` elements lie side by side.
  pub take-window :
      (k : ℕ)
      → start < length buf
      → k ≤ n
      → start + k ≤ length buf
      → take k (drop start buf) ≡ take k (window buf start n)
  take-window k hs hk room = eq_of_get_elem? _ _ (λ i. simp (at_index, lengths) (ground arith))

  -- The first `k` elements go round the end of the array.
  pub take-window_wrapped :
      (k : ℕ)
      → start < length buf
      → k ≤ n
      → n < length buf
      → length buf < start + k
      → let r = length buf - start in
        take r (drop start buf) ++ take (k - r) buf ≡ take k (window buf start n)
  take-window_wrapped k hs hk hn over =
      eq_of_get_elem? _ _ (λ i. simp (at_index, lengths) (ground arith))
