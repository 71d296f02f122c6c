-- ===== src/Atomic32/Interleaving.antt =====
-- The additions of threads to a shared number (code/atomic32.cpp), in any order.
use mlnotes.Base.{
  ℕ, zero, suc, ◌+◌, ◌-◌, ◌%◌, ◌^◌, ◌≤◌, ◌<◌, ◌≡◌, ◌≢◌, refl, some, List, [], ◌∷◌, All, arith,
  replicate, get_elem?, ap, ◌∙◌, sym, add32,
}
use mlnotes.Base.Int.{ℤ, pos, negsuc}
use mlnotes.Atomic32.{
  to_uint32, inc, dec, add, sub, step, run, Call, plus_assign, minus_assign, pre_increment,
  post_increment, pre_decrement, post_decrement, assign, exchange, compare_exchange,
  compare_and_swap, value,
}

-- The calls of two threads in an order that keeps the order of each.
pub data Interleaving : List Call → List Call → List Call → Type 0 where
  neither : Interleaving [] [] []
  left :
      {xs ys zs : List Call} (c : Call) → Interleaving xs ys zs → Interleaving (c ∷ xs) ys (c ∷ zs)
  right :
      {xs ys zs : List Call} (c : Call) → Interleaving xs ys zs → Interleaving xs (c ∷ ys) (c ∷ zs)

-- The calls that add or take off, and what they add, where taking off is adding the complement.
abbrev pub IsAddition : Call → Type 0
IsAddition (assign val) = ⊥
IsAddition (exchange val) = ⊥
IsAddition (compare_exchange cmp val) = ⊥
IsAddition (compare_and_swap upper cmp val) = ⊥
IsAddition _ = Unit

abbrev pub addend : Call → ℕ
addend (plus_assign val) = to_uint32 val
addend (minus_assign val) = 2 ^ 32 - to_uint32 val
addend pre_decrement = 2 ^ 32 - 1
addend post_decrement = 2 ^ 32 - 1
addend _ = 1

abbrev pub total : List Call → ℕ
total [] = 0
total (c ∷ cs) = addend c + total cs

to_uint32_small : (z : ℤ) → to_uint32 z < 2 ^ 32
to_uint32_small (pos n) = omega arith
to_uint32_small (negsuc n) = omega arith

step-adds : (c : Call) (m_val : ℕ) → IsAddition c → (step c m_val).1 ≡ (m_val + addend c) % 2 ^ 32
unfolding step inc dec add sub
step-adds (assign val) m_val h = absurd h
step-adds (plus_assign val) m_val h = refl
step-adds (minus_assign val) m_val h = let small = to_uint32_small val in omega arith
step-adds pre_increment m_val h = refl
step-adds post_increment m_val h = refl
step-adds pre_decrement m_val h = omega arith
step-adds post_decrement m_val h = omega arith
step-adds (exchange val) m_val h = absurd h
step-adds (compare_exchange cmp val) m_val h = absurd h
step-adds (compare_and_swap upper cmp val) m_val h = absurd h

run-adds :
    (cs : List Call) (m_val : ℕ)
    → All IsAddition cs
    → m_val < 2 ^ 32
    → (run cs m_val).1 ≡ (m_val + total cs) % 2 ^ 32
unfolding run
run-adds [] m_val h small = omega arith
run-adds (c ∷ cs) m_val h small =
    let first = step-adds c m_val h.0 in
    let rest = run-adds cs ((m_val + addend c) % 2 ^ 32) h.1 (omega arith) in
    rw (first, rest) (omega arith)

-- What holds of an interleaving of additions.
record Sum (xs ys zs : List Call) : Type 0 where
  additions : All IsAddition zs
  sum : total zs ≡ total xs + total ys

Interleaving-Sum :
    {xs ys zs : List Call}
    → Interleaving xs ys zs
    → All IsAddition xs
    → All IsAddition ys
    → Sum xs ys zs
Interleaving-Sum neither h k = record { additions = tt; sum = refl }
Interleaving-Sum (left c i) h k =
    let rest = Interleaving-Sum i h.1 k in
    record { additions = (h.0, rest.additions); sum = omega (arith, rest.sum) }
Interleaving-Sum (right c i) h k =
    let rest = Interleaving-Sum i h k.1 in
    record { additions = (k.0, rest.additions); sum = omega (arith, rest.sum) }

-- No addition is lost: in whatever order the additions and subtractions of two threads come, the value
-- ends as if one thread had made its calls after the other, and as the first value with all that they
-- add, modulo 2 ^ 32.
pub run-Interleaving :
    {xs ys zs : List Call} (m_val : ℕ)
    → Interleaving xs ys zs
    → All IsAddition xs
    → All IsAddition ys
    → m_val < 2 ^ 32
    → ((run zs m_val).1 ≡ (run ys (run xs m_val).1).1)
      × ((run zs m_val).1 ≡ (m_val + total xs + total ys) % 2 ^ 32)
run-Interleaving {xs = xs} {ys = ys} {zs = zs} m_val i h k small =
    let facts = Interleaving-Sum i h k in
    let whole = run-adds zs m_val facts.additions small in
    let first = run-adds xs m_val h small in
    let second = run-adds ys ((m_val + total xs) % 2 ^ 32) k (omega arith) in
    rw (whole, first, second) (omega (arith, facts.sum), omega (arith, facts.sum))

-- The tickets that threads draw with the postfix increment.
ticket_lem :
    (n m_val i : ℕ)
    → i < n
    → m_val < 2 ^ 32
    → get_elem? (run (replicate n post_increment) m_val).0 i ≡ some (value ((m_val + i) % 2 ^ 32))
unfolding run step add
ticket_lem zero m_val i below small = absurd (omega arith)
ticket_lem (suc n) m_val zero below small = ap (λ k. some (value k)) (omega arith)
ticket_lem (suc n) m_val (suc i) below small =
    ticket_lem n (add32 m_val 1) i (omega arith) (omega arith)
    ∙ ap (λ k. some (value k)) (omega arith)

-- Of at most 2 ^ 32 postfix increments, of whatever threads, no two return the same number.
pub tickets_distinct :
    (n m_val i j : ℕ) (a b : ℕ)
    → n ≤ 2 ^ 32
    → m_val < 2 ^ 32
    → i < j
    → j < n
    → let replies = (run (replicate n post_increment) m_val).0 in
      get_elem? replies i ≡ some (value a) → get_elem? replies j ≡ some (value b) → a ≢ b
tickets_distinct n m_val i j a b few small before inside first second same =
    let one : (m_val + i) % 2 ^ 32 ≡ a =
      let e : some (value ((m_val + i) % 2 ^ 32)) ≡ some (value a) =
        sym (ticket_lem n m_val i (omega arith) small) ∙ first in
      cc in
    let two : (m_val + j) % 2 ^ 32 ≡ b =
      let e : some (value ((m_val + j) % 2 ^ 32)) ≡ some (value b) =
        sym (ticket_lem n m_val j inside small) ∙ second in
      cc in
    omega arith
