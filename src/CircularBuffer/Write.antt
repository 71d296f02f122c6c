-- ===== src/CircularBuffer/Write.antt =====
-- `write` of code/CircularBuffer.hpp as an append to the queue of the elements that are held.
use mlnotes.Base.Arrays.{paste, length-paste, std_copy_within, std_copy_outside}
use mlnotes.Base.{
  ℕ, ◌+◌, ◌-◌, ◌%◌, ◌^◌, ◌≤◌, ◌<◌, ◌≡◌, ◌⊎◌, inl, inr, refl, none, some, List, ◌++◌, arith, length,
  take, drop, length-take, lengths, ◌∙◌, mod_below_twice,
}
use native.Mathlib.Decide.{dec_lt}
use mlnotes.Base.Int.{pos}
use mlnotes.CircularBuffer.{CircularBuffer, write, e_nospace}
use mlnotes.CircularBuffer.Window.{window-paste, window-paste_wrapped}
use mlnotes.CircularBuffer.Inv.{IsValid, contents}

module _ {A : Type 0} where
  write_side :
      (b : CircularBuffer A) (pt : List A) (count : ℕ)
      → IsValid b
      → count ≤ length pt
      → b.size + count ≤ b.max_size
      → (b.end < b.begin) ⊎ (count ≤ b.capacity - b.end)
      → write b pt count
        ≡ some (
          pos count,
          record b {
            end = (b.end + count) % b.capacity;
            size = b.size + count;
            buffer = paste b.buffer b.end (take count pt);
          },
        )
  unfolding write
  write_side b pt count v hp hc room =
      ground (arith, std_copy_within pt 0 count b.buffer b.end count)

  write_wrapped :
      (b : CircularBuffer A) (pt : List A) (count : ℕ)
      → IsValid b
      → count ≤ length pt
      → b.size + count ≤ b.max_size
      → b.begin ≤ b.end
      → b.capacity - b.end < count
      → let r = b.capacity - b.end in
        write b pt count
        ≡ some (
          pos count,
          record b {
            end = count - r;
            size = b.size + count;
            buffer = paste (paste b.buffer b.end (take r pt)) 0 (take (count - r) (drop r pt));
          },
        )
  unfolding write
  write_wrapped b pt count v hp hc ord over =
      let r = b.capacity - b.end in
      ground (
        arith,
        std_copy_within pt 0 r b.buffer b.end r,
        length-take r pt,
        length-paste b.buffer b.end (take r pt),
        std_copy_within pt r count (paste b.buffer b.end (take r pt)) 0 (count - r),
      )

  -- What a successful write leaves behind, from the buffer `b`.
  pub record Wrote (b : CircularBuffer A) (xs : List A) (b' : CircularBuffer A) : Type 0 where
    pub valid : IsValid b'
    pub appended : contents b' ≡ contents b ++ xs
    pub same_max : b'.max_size ≡ b.max_size

  side_Wrote :
      (b : CircularBuffer A) (pt : List A) (count : ℕ)
      → IsValid b
      → count ≤ length pt
      → b.size + count ≤ b.max_size
      → (b.end < b.begin) ⊎ (count ≤ b.capacity - b.end)
      → Wrote b (take count pt) (record b {
        end = (b.end + count) % b.capacity;
        size = b.size + count;
        buffer = paste b.buffer b.end (take count pt);
      })
  side_Wrote b pt count v hp hc room = record {
    valid = record {
      slots = v.slots;
      small = v.small;
      array =
          length-paste b.buffer b.end (take count pt) (omega (arith, length-take count pt))
          ∙ v.array;
      begin_in = v.begin_in;
      end_in = omega arith;
      fits = hc;
      linked = ground (arith, mod_below_twice (b.end + count) b.capacity);
    };
    appended =
        window-paste b.buffer b.begin b.size b.end (take count pt) count (omega arith) (omega arith)
          (omega (arith, length-take count pt)) (omega arith) (omega arith) (omega arith);
    same_max = refl;
  }

  wrapped_Wrote :
      (b : CircularBuffer A) (pt : List A) (count : ℕ)
      → IsValid b
      → count ≤ length pt
      → b.size + count ≤ b.max_size
      → b.begin ≤ b.end
      → b.capacity - b.end < count
      → let r = b.capacity - b.end in
        Wrote b (take count pt) (record b {
          end = count - r;
          size = b.size + count;
          buffer = paste (paste b.buffer b.end (take r pt)) 0 (take (count - r) (drop r pt));
        })
  wrapped_Wrote b pt count v hp hc ord over =
      let r = b.capacity - b.end in
      record {
        valid = record {
          slots = v.slots;
          small = v.small;
          array =
              length-paste _ 0 (take (count - r) (drop r pt)) (simp lengths (omega arith))
              ∙ length-paste b.buffer b.end (take r pt) (simp lengths (omega arith))
              ∙ v.array;
          begin_in = v.begin_in;
          end_in = omega arith;
          fits = hc;
          linked = omega arith;
        };
        appended =
            window-paste_wrapped b.buffer b.begin b.size b.end b.capacity pt count v.array
              (omega arith) (omega arith) (omega arith) (omega arith) over hp;
        same_max = refl;
      }

  -- On a valid buffer, a write of `count` elements that the source has and the buffer has room for
  -- is done, and appends the first `count` elements of the source to those held.
  pub write_lem :
      (b : CircularBuffer A) (pt : List A) (count : ℕ)
      → IsValid b
      → count ≤ length pt
      → b.size + count ≤ b.max_size
      → (b' : CircularBuffer A) × (write b pt count ≡ some (pos count, b'))
        × Wrote b (take count pt) b'
  write_lem b pt count v hp hc = elim (dec_lt b.end b.begin) [
    | yes e ↦ (_, write_side b pt count v hp hc (inl e), side_Wrote b pt count v hp hc (inl e))
    | no e ↦ elim (dec_lt (b.capacity - b.end) count) [
      | yes o ↦ (
        _,
        write_wrapped b pt count v hp hc (omega arith) o,
        wrapped_Wrote b pt count v hp hc (omega arith) o,
      )
      | no o ↦ (
        _,
        write_side b pt count v hp hc (inr (omega arith)),
        side_Wrote b pt count v hp hc (inr (omega arith)),
      )
    ]
  ]

  -- A write that does not fit, of a count that does not wrap the sum with the size in uint32, is
  -- refused and changes nothing.
  pub write-nospace :
      (b : CircularBuffer A) (pt : List A) (count : ℕ)
      → b.size + count < 2 ^ 32
      → b.max_size < b.size + count
      → write b pt count ≡ some (e_nospace, b)
  unfolding write
  write-nospace b pt count small over = ground arith

  -- On a valid buffer of a capacity of at most 2 ^ 30, a write of a uint32 count, which the source
  -- has, that makes the sum with the size wrap passes the test for space, and the copy runs out of
  -- the array.
  pub write-eq-none_of_wrap :
      (b : CircularBuffer A) (pt : List A) (count : ℕ)
      → IsValid b
      → b.capacity ≤ 2 ^ 30
      → count < 2 ^ 32
      → count ≤ length pt
      → 2 ^ 32 ≤ b.size + count
      → write b pt count ≡ none
  unfolding write
  write-eq-none_of_wrap b pt count v hcap hc hp wrap =
      let r = b.capacity - b.end in
      ground (
        arith,
        std_copy_outside pt 0 count b.buffer b.end,
        length-take r pt,
        std_copy_within pt 0 r b.buffer b.end r,
        length-paste b.buffer b.end (take r pt),
        std_copy_outside pt r count (paste b.buffer b.end (take r pt)) 0,
      )
