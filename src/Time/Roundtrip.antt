-- ===== src/Time/Roundtrip.antt =====
-- Scanning what was printed with the same format of code/Time.cpp, and the times of the format OFFSET.
pub mod Offset
pub mod Dates
pub mod Calendar
use mlnotes.Base.{
  ℕ, zero, suc, ◌+◌, ◌-◌, ◌*◌, ◌^◌, ◌≤◌, ◌<◌, ◌≡◌, ◌≢◌, ◌⊎◌, inl, inr, refl, Bool, true, false,
  Option, none, some, List, [], ◌∷◌, ◌++◌, arith, length, ltb, leb, ◌==◌, if◌then◌else◌, All,
  replicate, ap, sym, ◌∙◌, length-append, replicate,
}
use mlnotes.Base.Int.{ℤ, pos, negsuc}
use mlnotes.Time.Text.{
  Piece, lit, num, long, text, word, chr, Arg, int, bytes, print_int, print, isspace, skip_spaces,
  scan_int, scan_word, scan_lit, scan,
}
use mlnotes.Time.Digits.{Front, skip_spaces-Front, print_int-Front, scan_int-print_int}

-- Arguments that fit a format of literals, numbers and texts of a width: a number has no more
-- digits than its width, and a text is as long as its width and has no spaces. What follows a
-- space does not start with one.
pub data Fits : List Piece → List Arg → Type 0 where
  done : Fits [] []
  literal :
      {c : ℕ} {ps : List Piece} {args : List Arg} → c ≢ b' ' → Fits ps args → Fits (lit c ∷ ps) args
  space :
      {ps : List Piece} {args : List Arg}
      → skip_spaces (print ps args) ≡ print ps args
      → Fits ps args
      → Fits (lit b' ' ∷ ps) args
  number :
      {w n : ℕ} {ps : List Piece} {args : List Arg}
      → w < 20
      → n < 10 ^ suc w
      → Fits ps args
      → Fits (num (suc w) ∷ ps) (int (pos n) ∷ args)
  name :
      {w : ℕ} {s : List ℕ} {ps : List Piece} {args : List Arg}
      → length s ≡ suc w
      → All (λ c. isspace c ≡ false) s
      → Fits ps args
      → Fits (text (suc w) ∷ ps) (bytes s ∷ args)

scan_num :
    (w n : ℕ) (ps : List Piece) (rest : List ℕ)
    → w < 20
    → n < 10 ^ suc w
    → scan (num (suc w) ∷ ps) (print_int (suc w) (pos n) ++ rest) ≡ int (pos n) ∷ scan ps rest
unfolding scan
scan_num w n ps rest hw hn = rw (read, scan)
  where
    read : scan_int (suc w) (skip_spaces (print_int (suc w) (pos n) ++ rest)) ≡ some (pos n, rest)
    read =
        ap (scan_int (suc w)) (skip_spaces-Front _ (print_int-Front w n rest))
        ∙ scan_int-print_int w n rest hw hn

scan_literal :
    (c : ℕ) (ps : List Piece) (rest : List ℕ)
    → c ≢ b' '
    → scan (lit c ∷ ps) (c ∷ rest) ≡ scan ps rest
unfolding scan
scan_literal c ps rest h = rw (here, scan)
  where
    here : scan_lit c (c ∷ rest) ≡ some rest
    here = unfold scan_lit in ground arith

scan_space :
    (ps : List Piece) (rest : List ℕ)
    → skip_spaces rest ≡ rest
    → scan (lit b' ' ∷ ps) (b' ' ∷ rest) ≡ scan ps rest
unfolding scan
scan_space ps rest h = rw (here, scan)
  where
    here : scan_lit b' ' (b' ' ∷ rest) ≡ some rest
    here = unfold scan_lit skip_spaces in ap some h

scan_word-append :
    (w : ℕ) (s rest : List ℕ)
    → length s ≡ w
    → All (λ c. isspace c ≡ false) s
    → scan_word w (s ++ rest) ≡ (s, rest)
unfolding scan_word
scan_word-append zero [] rest e h = refl
scan_word-append zero (c ∷ s) rest e h = absurd (omega arith)
scan_word-append (suc w) [] rest e h = absurd (omega arith)
scan_word-append (suc w) (c ∷ s) rest e h =
    rw (h.0, scan_word-append w s rest (omega arith) h.1) refl

skip_spaces-text :
    (w : ℕ) (s rest : List ℕ)
    → length s ≡ suc w
    → All (λ c. isspace c ≡ false) s
    → skip_spaces (s ++ rest) ≡ s ++ rest
unfolding skip_spaces
skip_spaces-text w [] rest e h = absurd (omega arith)
skip_spaces-text w (c ∷ s) rest e h = rw h.0 refl

scan_name :
    (w : ℕ) (s : List ℕ) (ps : List Piece) (rest : List ℕ)
    → length s ≡ suc w
    → All (λ c. isspace c ≡ false) s
    → scan (text (suc w) ∷ ps) (s ++ rest) ≡ bytes s ∷ scan ps rest
unfolding scan
scan_name w s ps rest e h = rw (read, scan) (ground arith)
  where
    read : scan_word (suc w) (skip_spaces (s ++ rest)) ≡ (s, rest)
    read =
        ap (scan_word (suc w)) (skip_spaces-text w s rest e h) ∙ scan_word-append (suc w) s rest e h

-- Scanning a text that was printed gives back the arguments, where they fit the format.
pub scan-print : {ps : List Piece} {args : List Arg} → Fits ps args → scan ps (print ps args) ≡ args
unfolding print
scan-print done = unfold scan in refl
scan-print (literal {c} {ps} {args} h f) = scan_literal c ps (print ps args) h ∙ scan-print f
scan-print (space {ps} {args} h f) = scan_space ps (print ps args) h ∙ scan-print f
scan-print (number {w} {n} {ps} {args} hw hn f) =
    scan_num w n ps (print ps args) hw hn ∙ ap (λ t. int (pos n) ∷ t) (scan-print f)
scan-print (name {w} {s} {ps} {args} e h f) =
    ap (λ k. scan (text (suc w) ∷ ps) (replicate k b' ' ++ s ++ print ps args)) none_missing
    ∙ scan_name w s ps (print ps args) e h
    ∙ ap (λ t. bytes s ∷ t) (scan-print f)
  where
    none_missing : suc w - length s ≡ 0
    none_missing = omega arith
