-- ===== src/CircularBuffer/Queue.antt =====
-- The abstract view of code/CircularBuffer.hpp: a queue of at most `max` elements, oldest first, and
-- a client's calls in order. The buffer answers every such sequence of calls as the queue does.
use Prim.Native.Nat.{min}
use mlnotes.Base.{
  ℕ, ◌+◌, ◌^◌, ◌≤◌, ◌<◌, ◌≡◌, refl, Option, some, List, [], ◌∷◌, ◌++◌, arith, length, take, drop,
  ltb, if◌then◌else◌, ◌>>=◌, take_all,
}
use native.Mathlib.Decide.{dec_lt}
use mlnotes.Base.Int.{ℤ, pos}
use mlnotes.CircularBuffer.{CircularBuffer, write, skip, peek, read, e_nospace, e_nodata}
use mlnotes.CircularBuffer.Inv.{IsValid, contents, length-contents}
use mlnotes.CircularBuffer.Write.{write_lem, write-nospace}
use mlnotes.CircularBuffer.Read.{skip_lem, peek_lem, peek-nodata, read_lem, read-nodata}

-- A call, with the array that it is given, and what it returns: the result and that array.
pub data Op (A : Type 0) : Type 0 where
  put : List A → Op A
  discard : ℕ → Op A
  look : List A → ℕ → Op A
  get : List A → ℕ → Op A

abbrev pub Reply : Type 0 → Type 0
Reply A = ℤ × List A

module _ {A : Type 0} where
  -- The source of a write is below half the range of uint32, and the destination of a read has room.
  abbrev pub Fits : Op A → Type 0
  Fits (put xs) = length xs < 2 ^ 31
  Fits (discard n) = Unit
  Fits (look pt n) = n ≤ length pt
  Fits (get pt n) = n ≤ length pt

  abbrev pub AllFit : List (Op A) → Type 0
  AllFit [] = Unit
  AllFit (o ∷ os) = Fits o × AllFit os

  module _ (max : ℕ) where
    -- One call on the queue: the reply, and the queue after it.
    abbrev pub queue_step : List A → Op A → Reply A × List A
    queue_step q (put xs) =
        if ltb max (length q + length xs)
        then ((e_nospace, xs), q)
        else ((pos (length xs), xs), q ++ xs)
    queue_step q (discard n) = ((pos (min n (length q)), []), drop n q)
    queue_step q (look pt n) =
        if ltb (length q) n then ((e_nodata, pt), q) else ((pos n, take n q ++ drop n pt), q)
    queue_step q (get pt n) =
        if ltb (length q) n then ((e_nodata, pt), q) else ((pos n, take n q ++ drop n pt), drop n q)

    abbrev pub queue_run : List A → List (Op A) → List (Reply A)
    queue_run q [] = []
    queue_run q (o ∷ os) = let (r, q') = queue_step q o in r ∷ queue_run q' os

  pub step : CircularBuffer A → Op A → Option (Reply A × CircularBuffer A)
  step b (put xs) = do (n, b') ← write b xs (length xs); some ((n, xs), b')
  step b (discard n) = let (k, b') = skip b n in some ((k, []), b')
  step b (look pt n) = do (k, out) ← peek b pt n; some ((k, out), b)
  step b (get pt n) = do (k, out, b') ← read b pt n; some ((k, out), b')

  pub run : CircularBuffer A → List (Op A) → Option (List (Reply A))
  run b [] = some []
  run b (o ∷ os) = do (r, b') ← step b o; rs ← run b' os; some (r ∷ rs)

  -- One call on a valid buffer does what the queue of its elements does.
  pub record Steps (b : CircularBuffer A) (o : Op A) : Type 0 where
    pub after : CircularBuffer A
    pub valid : IsValid after
    pub same_max : after.max_size ≡ b.max_size
    pub done : step b o ≡ some ((queue_step b.max_size (contents b) o).0, after)
    pub held : contents after ≡ (queue_step b.max_size (contents b) o).1

  step_refines : (b : CircularBuffer A) (o : Op A) → IsValid b → Fits o → Steps b o
  unfolding step
  step_refines b (put xs) v h = elim (dec_lt b.max_size (b.size + length xs)) [
    | yes over ↦ record {
      after = b;
      valid = v;
      same_max = refl;
      done = ground (arith, length-contents v, write-nospace b xs (length xs));
      held = ground (arith, length-contents v);
    }
    | no fits ↦
        let w = write_lem b xs (length xs) v (omega arith) (omega arith) in
        record {
          after = w.0;
          valid = w.2.valid;
          same_max = w.2.same_max;
          done = ground (arith, length-contents v, w.1);
          held = ground (arith, length-contents v, w.2.appended, take_all (length xs) xs);
        }
  ]
  step_refines b (discard n) v h = record {
    after = (skip b n).1;
    valid = (skip_lem b n v).1.valid;
    same_max = (skip_lem b n v).1.same_max;
    done = ground (arith, skip_lem b n v, length-contents v);
    held = (skip_lem b n v).1.rest;
  }
  step_refines b (look pt n) v h = record {
    after = b;
    valid = v;
    same_max = refl;
    done = ground (arith, length-contents v, peek_lem b pt n v, peek-nodata b pt n);
    held = ground arith;
  }
  step_refines b (get pt n) v h = elim (dec_lt b.size n) [
    | yes over ↦ record {
      after = b;
      valid = v;
      same_max = refl;
      done = ground (arith, length-contents v, read-nodata b pt n);
      held = ground (arith, length-contents v);
    }
    | no fits ↦
        let r = read_lem b pt n v (omega arith) h in
        record {
          after = r.0;
          valid = r.2.valid;
          same_max = r.2.same_max;
          done = ground (arith, length-contents v, r.1);
          held = ground (arith, length-contents v, r.2.rest);
        }
  ]

  -- From a valid buffer, every sequence of calls, each with fewer than 2 ^ 31 elements to write or
  -- with room for what it asks, gives the replies of the bounded queue of the elements held, and
  -- none of the calls reads or writes outside an array.
  pub run_refines :
      (ops : List (Op A)) (b : CircularBuffer A)
      → IsValid b
      → AllFit ops
      → run b ops ≡ some (queue_run b.max_size (contents b) ops)
  unfolding run
  run_refines [] b v h = refl
  run_refines (o ∷ os) b v h =
      let s = step_refines b o v h.0 in
      rw (s.done, run_refines os s.after s.valid h.1, s.held, s.same_max)
