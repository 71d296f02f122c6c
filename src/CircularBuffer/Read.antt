-- ===== src/CircularBuffer/Read.antt =====
-- `peek`, `skip` and `read` of code/CircularBuffer.hpp as reads of the front of the queue.
use mlnotes.Base.Arrays.{paste, length-paste, paste_front, paste_behind, std_copy_within}
use mlnotes.Base.{
  ℕ, ◌+◌, ◌-◌, ◌%◌, ◌≤◌, ◌<◌, ◌≡◌, inl, refl, some, List, ◌++◌, arith, length, take, drop,
  length-take, length-drop, sym, ap, mod_below_twice, drop-eq-nil,
}
use Prim.Native.Nat.{min}
use native.Mathlib.Decide.{dec_lt}
use mlnotes.Base.Int.{pos}
use mlnotes.CircularBuffer.{CircularBuffer, skip, peek, read, e_nodata}
use mlnotes.CircularBuffer.Window.{window-drop, take-window, take-window_wrapped}
use mlnotes.CircularBuffer.Inv.{IsValid, contents, length-contents}

module _ {A : Type 0} where
  skip_some :
      (b : CircularBuffer A) (count : ℕ)
      → IsValid b
      → count < b.size
      → skip b count
        ≡ (pos count, record b { begin = (b.begin + count) % b.capacity; size = b.size - count })
  unfolding skip
  skip_some b count v h = ground arith

  skip_all :
      (b : CircularBuffer A) (count : ℕ)
      → IsValid b
      → b.size ≤ count
      → skip b count ≡ (pos b.size, record b { begin = 0; end = 0; size = 0 })
  unfolding skip
  skip_all b count v h = ground arith

  -- What `skip` leaves behind, after `k` elements of `b` are dropped.
  pub record Skipped (b : CircularBuffer A) (k : ℕ) (b' : CircularBuffer A) : Type 0 where
    pub valid : IsValid b'
    pub rest : contents b' ≡ drop k (contents b)
    pub same_max : b'.max_size ≡ b.max_size

  -- On a valid buffer, `skip` drops the first `count` elements, or all if there are no more, and returns their number.
  pub skip_lem :
      (b : CircularBuffer A) (count : ℕ)
      → IsValid b
      → ((skip b count).0 ≡ pos (min count b.size)) × Skipped b count (skip b count).1
  skip_lem b count v = elim (dec_lt count b.size) [
    | yes h ↦ rw (skip_some b count v h) (
      ap pos (omega arith),
      record {
        valid = record {
          slots = v.slots;
          small = v.small;
          array = v.array;
          begin_in = omega arith;
          end_in = v.end_in;
          fits = omega arith;
          linked = ground (arith, mod_below_twice (b.begin + count) b.capacity);
        };
        rest =
            window-drop b.buffer b.begin b.size count _ (omega arith) (omega arith) (omega arith)
              (ground (arith, mod_below_twice (b.begin + count) b.capacity)) (omega arith);
        same_max = refl;
      },
    )
    | no h ↦ rw (skip_all b count v (omega arith)) (
      ap pos (omega arith),
      record {
        valid = record {
          slots = v.slots;
          small = v.small;
          array = v.array;
          begin_in = omega arith;
          end_in = omega arith;
          fits = omega arith;
          linked = inl refl;
        };
        rest = sym (drop-eq-nil count (contents b) (omega (arith, length-contents v)));
        same_max = refl;
      },
    )
  ]

  -- On a valid buffer, `peek` of no more than is held, into an array with room for it, copies the first `count` elements to the front of the caller's
  -- array, and leaves the rest of that array as it was.
  pub peek_lem :
      (b : CircularBuffer A) (pt : List A) (count : ℕ)
      → IsValid b
      → count ≤ b.size
      → count ≤ length pt
      → peek b pt count ≡ some (pos count, take count (contents b) ++ drop count pt)
  unfolding peek
  peek_lem b pt count v hs hp =
      let r = b.capacity - b.begin in
      elim (dec_lt (b.capacity - b.begin) count) [
        | yes o ↦ ground (
          arith,
          length-take r (drop b.begin b.buffer),
          length-drop b.begin b.buffer,
          length-take (count - r) b.buffer,
          std_copy_within b.buffer b.begin b.capacity pt 0 r,
          length-paste pt 0 (take r (drop b.begin b.buffer)),
          std_copy_within b.buffer 0 (count - r) (paste pt 0 (take r (drop b.begin b.buffer))) r
              (count - r),
          paste_behind pt (take r (drop b.begin b.buffer)) (take (count - r) b.buffer) r count,
          take-window_wrapped b.buffer b.begin b.size count,
        )
        | no o ↦ ground (
          arith,
          length-take count (drop b.begin b.buffer),
          length-drop b.begin b.buffer,
          std_copy_within b.buffer b.begin (b.begin + count) pt 0 count,
          paste_front pt (take count (drop b.begin b.buffer)) count,
          take-window b.buffer b.begin b.size count,
        )
      ]

  -- `peek` of more than is held reports so, and writes nothing.
  pub peek-nodata :
      (b : CircularBuffer A) (pt : List A) (count : ℕ)
      → b.size < count
      → peek b pt count ≡ some (e_nodata, pt)
  unfolding peek
  peek-nodata b pt count h = ground arith

  -- On a valid buffer, `read` of no more than is held, into an array with room for it, copies as
  -- `peek` does and drops what was read.
  pub read_lem :
      (b : CircularBuffer A) (pt : List A) (count : ℕ)
      → IsValid b
      → count ≤ b.size
      → count ≤ length pt
      → (b' : CircularBuffer A) × (read b pt count
          ≡ some (pos count, take count (contents b) ++ drop count pt, b'))
        × Skipped b count b'
  unfolding read
  read_lem b pt count v hs hp = (
    (skip b count).1,
    ground (arith, peek_lem b pt count v hs hp, skip_lem b count v),
    (skip_lem b count v).1,
  )

  -- `read` of more than is held reports so, and changes neither the buffer nor the caller's array.
  pub read-nodata :
      (b : CircularBuffer A) (pt : List A) (count : ℕ)
      → b.size < count
      → read b pt count ≡ some (e_nodata, pt, b)
  unfolding read
  read-nodata b pt count h = ground (arith, peek-nodata b pt count h)
