-- ===== src/StringBuilder/Append.antt =====
-- `append` of code/StringBuilder.cpp: what it leaves, and by how much the buffer grows.
use Prim.Native.Nat.{max}
use mlnotes.Base.{
  ℕ, ◌+◌, ◌-◌, ◌*◌, ◌^◌, ◌≤◌, ◌<◌, ◌≡◌, ◌⊎◌, refl, Option, some, List, ◌++◌, arith, length, take,
  replicate, length-replicate, length-take, lengths, at_index, eq_of_get_elem?, get_elem?-eq-none,
  ◌∙◌, ap, ltb, if◌then◌else◌, add32,
}
use mlnotes.Base.Arrays.{paste, std_copy_within, length-paste}
use native.Mathlib.Decide.{dec_lt}
use mlnotes.StringBuilder.{StringBuilder, expand, append, str}
use mlnotes.StringBuilder.Invariant.{IsValid}

-- The text is kept and the buffer becomes larger than `need`.
record Widened (sb : StringBuilder) (need bound : ℕ) (sb' : StringBuilder) : Type 0 where
  valid : IsValid sb'
  larger : need < sb'.buffer_size
  bounded : sb'.buffer_size ≤ bound
  same_pos : sb'.insertion_pos ≡ sb.insertion_pos
  same_text : take sb'.insertion_pos sb'.buffer ≡ take sb.insertion_pos sb.buffer

-- What an append of `xs` leaves behind.
pub record Appended (sb : StringBuilder) (xs : List ℕ) (sb' : StringBuilder) : Type 0 where
  pub valid : IsValid sb'
  pub text : str sb' ≡ str sb ++ xs
  pub moved : sb'.insertion_pos ≡ sb.insertion_pos + length xs
  pub bounded : sb'.buffer_size ≤ max sb.buffer_size (2 * (sb.insertion_pos + length xs + 1))

module _ (fill : ℕ) where
  take-paste : (dst xs : List ℕ) (n : ℕ) → length xs ≡ n → take n (paste dst 0 xs) ≡ xs
  take-paste dst xs n h =
      eq_of_get_elem? _ _ (λ i. simp (at_index, h) (ground (arith, get_elem?-eq-none xs i)))

  -- The builder over a new array of `m` bytes.
  abbrev widen : StringBuilder → ℕ → StringBuilder
  widen sb m = record {
    buffer_size = m;
    buffer = paste (replicate m fill) 0 (take sb.insertion_pos sb.buffer);
    insertion_pos = sb.insertion_pos;
  }

  widen-Widened :
      (sb : StringBuilder) (m need bound : ℕ)
      → IsValid sb
      → sb.insertion_pos ≤ need
      → need < m
      → m ≤ bound
      → m < 2 ^ 32
      → Widened sb need bound (widen sb m)
  widen-Widened sb m need bound v hp hn hb hw = record {
    valid = record {
      array =
          length-paste (replicate m fill) 0 (take sb.insertion_pos sb.buffer)
            (simp lengths (omega arith))
          ∙ length-replicate m fill;
      room = omega arith;
      word = hw;
    };
    larger = hn;
    bounded = hb;
    same_pos = refl;
    same_text =
        take-paste (replicate m fill) (take sb.insertion_pos sb.buffer) sb.insertion_pos
          (simp lengths (omega arith));
  }

  expand_widens :
      (sb : StringBuilder) (by m : ℕ)
      → IsValid sb
      → ((sb.buffer_size < by) × (m ≡ sb.buffer_size + by))
        ⊎ ((by ≤ sb.buffer_size) × (m ≡ sb.buffer_size * 2))
      → m < 2 ^ 32
      → expand fill sb by ≡ some (widen sb m)
  unfolding expand
  expand_widens sb by m v h hm = ground (
    arith,
    length-replicate m fill,
    std_copy_within sb.buffer 0 sb.insertion_pos (replicate m fill) 0 sb.insertion_pos,
  )

  -- The buffer is made larger by `expand`, or it was large enough.
  ensure : StringBuilder → ℕ → Option StringBuilder
  ensure sb len =
      if ltb sb.buffer_size (add32 (add32 sb.insertion_pos len) 1)
      then expand fill sb (add32 len 1)
      else some sb

  ensure_lem :
      (sb : StringBuilder) (len : ℕ)
      → IsValid sb
      → sb.buffer_size + len + 1 < 2 ^ 31
      → (sb' : StringBuilder) × (ensure sb len ≡ some sb')
        × Widened sb
            (sb.insertion_pos + len)
            (max sb.buffer_size (2 * (sb.insertion_pos + len + 1)))
            sb'
  unfolding ensure
  ensure_lem sb len v h = elim (dec_lt sb.buffer_size (sb.insertion_pos + len + 1)) [
    | no wide ↦ (
      sb,
      ground arith,
      record {
        valid = v;
        larger = omega arith;
        bounded = omega arith;
        same_pos = refl;
        same_text = refl;
      },
    )
    | yes over ↦ elim (dec_lt sb.buffer_size (len + 1)) [
      | yes more ↦
          let m = sb.buffer_size + (len + 1) in
          (
            widen sb m,
            ground (arith, expand_widens sb (len + 1) m v),
            widen-Widened sb m _ _ v (omega arith) (omega arith) (omega arith) (omega arith),
          )
      | no less ↦
          let m = sb.buffer_size * 2 in
          (
            widen sb m,
            ground (arith, expand_widens sb (len + 1) m v),
            widen-Widened sb m _ _ v (omega arith) (omega arith) (omega arith) (omega arith),
          )
    ]
  ]

  take-paste_behind :
      (dst xs : List ℕ) (pos n : ℕ)
      → length xs ≡ n
      → pos + n ≤ length dst
      → take (pos + n) (paste dst pos xs) ≡ take pos dst ++ xs
  take-paste_behind dst xs pos n h room =
      eq_of_get_elem? _ _
        (λ i. simp (at_index, lengths, h) (ground (arith, get_elem?-eq-none xs (i - pos))))

  -- The bytes copied into a builder with room for them.
  abbrev filled : StringBuilder → List ℕ → ℕ → StringBuilder
  filled sb source len = record sb {
    buffer = paste sb.buffer sb.insertion_pos (take len source);
    insertion_pos = sb.insertion_pos + len;
  }

  append-eq-filled :
      (sb wide : StringBuilder) (source : List ℕ) (len : ℕ)
      → ensure sb len ≡ some wide
      → IsValid wide
      → len ≤ length source
      → wide.insertion_pos + len < wide.buffer_size
      → append fill sb source len ≡ some (filled wide source len)
  unfolding append ensure
  append-eq-filled sb wide source len made v hl room =
      rw made (ground (arith, std_copy_within source 0 len wide.buffer wide.insertion_pos len))

  filled-IsValid :
      (sb : StringBuilder) (source : List ℕ) (len : ℕ)
      → IsValid sb
      → len ≤ length source
      → sb.insertion_pos + len < sb.buffer_size
      → IsValid (filled sb source len)
  filled-IsValid sb source len v hl room = record {
    array =
        length-paste sb.buffer sb.insertion_pos (take len source)
          (omega (arith, length-take len source))
        ∙ v.array;
    room = room;
    word = v.word;
  }

  -- On a valid builder, an append of `len` bytes that the source has succeeds while the buffer's
  -- size and `len` together stay below half the range of uint32: the text is extended by those bytes, the invariant is kept, and a buffer that grows
  -- grows to at most twice what the text and its terminating zero take.
  pub append_lem :
      (sb : StringBuilder) (source : List ℕ) (len : ℕ)
      → IsValid sb
      → len ≤ length source
      → sb.buffer_size + len + 1 < 2 ^ 31
      → (sb' : StringBuilder) × (append fill sb source len ≡ some sb')
        × Appended sb (take len source) sb'
  unfolding str
  append_lem sb source len v hl h =
      let (wide, made, w) = ensure_lem sb len v h in
      let full : length (take len source) ≡ len = omega (arith, length-take len source) in
      let room : wide.insertion_pos + len < wide.buffer_size =
        omega (arith, w.larger, w.same_pos) in
      let larger : wide.insertion_pos + len ≤ length wide.buffer = omega (arith, w.valid.array) in
      (
        filled wide source len,
        append-eq-filled sb wide source len made w.valid hl room,
        record {
          valid = filled-IsValid wide source len w.valid hl room;
          text =
              take-paste_behind wide.buffer (take len source) wide.insertion_pos len full larger
              ∙ ap (λ t. t ++ take len source) w.same_text;
          moved = omega (arith, w.same_pos, full);
          bounded = omega (arith, w.bounded, full);
        },
      )
