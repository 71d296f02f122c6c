-- ===== src/Logger/Frames.antt =====
-- The frames of code/Logger.cpp: a message in the buffer is the bytes of its header, then its text.
use mlnotes.Base.{
  ℕ, zero, ◌+◌, ◌-◌, ◌%◌, ◌^◌, ◌≤◌, ◌<◌, ◌≡◌, Bool, true, false, Option, none, some, List, ◌++◌,
  arith, leb, if◌then◌else◌, length, take, replicate, length-append, length-take, length-replicate,
  lengths, take_all, drop-eq-nil, append-nil, append_assoc, ap, ap₂, sym, subst, ◌∙◌, ◌>>=◌,
}
use native.Mathlib.Decide.{dec_lt}
use mlnotes.Base.Int.{ℤ, pos}
use mlnotes.CircularBuffer.{CircularBuffer, write, e_nospace}
use mlnotes.CircularBuffer.Inv.{IsValid, contents, length-contents}
use mlnotes.CircularBuffer.Write.{Wrote, write_lem, write-nospace}
use mlnotes.CircularBuffer.Read.{Skipped, read_lem, read-nodata}
use mlnotes.Logger.{MessageHeader, Layout, logmsg_size, write_format, write_message, take_bytes}

-- The values that the fields of a header can have: two's complement of 64 bits for the time, and
-- the unsigned words.
pub record IsHeader (h : MessageHeader) : Type 0 where
  pub small_size : h.size < 2 ^ 32
  pub small_tid : h.tid < 2 ^ 64
  pub small_pid : h.thread_pid < 2 ^ 32
  pub small_settings : h.settings < 2 ^ 64

-- A header is read back from its bytes, which are always as many.
pub record IsLayout (layout : Layout) : Type 0 where
  pub some_bytes : 0 < layout.header_size
  pub few_bytes : layout.header_size < 2 ^ 16
  pub sized : (h : MessageHeader) → length (layout.encode h) ≡ layout.header_size
  pub same : (h : MessageHeader) → IsHeader h → layout.decode (layout.encode h) ≡ h

pub record Message : Type 0 where
  pub header : MessageHeader
  pub body : List ℕ

pub record IsMessage (m : Message) : Type 0 where
  pub good : IsHeader m.header
  pub size_of : m.header.size ≡ length m.body

abbrev pub message : MessageHeader → List ℕ → Message
message h text = record { header = record h { size = length text }; body = text }

abbrev pub frame : Layout → Message → List ℕ
frame layout m = layout.encode m.header ++ m.body

-- A frame fits in what is free of the buffer.
abbrev pub has_room : Layout → CircularBuffer ℕ → Message → Bool
has_room layout b m = leb (b.size + (layout.header_size + length m.body)) b.max_size

-- What a write of a message does: the frame is appended, and `result` is given, or the buffer is
-- as it was and has no room.
pub record Framed (layout : Layout) (b : CircularBuffer ℕ) (m : Message) (result : ℕ)
    (got : Option (ℤ × CircularBuffer ℕ)) : Type 0 where
  pub after : CircularBuffer ℕ
  pub done : got ≡ some (if has_room layout b m then (pos result, after) else (e_nospace, b))
  pub wrote : has_room layout b m ≡ true → Wrote b (frame layout m) after

-- How many elements are held after a write.
size_of_Wrote :
    (b : CircularBuffer ℕ) (xs : List ℕ) (b' : CircularBuffer ℕ)
    → IsValid b
    → Wrote b xs b'
    → b'.size ≡ b.size + length xs
size_of_Wrote b xs b' v w =
    sym (length-contents w.valid)
    ∙ ap length w.appended
    ∙ length-append (contents b) xs
    ∙ ap (λ n. n + length xs) (length-contents v)

module _ (layout : Layout) (l : IsLayout layout) where
  two_writes :
      (b : CircularBuffer ℕ) (m : Message)
      → IsValid b
      → b.size + (layout.header_size + length m.body) ≤ b.max_size
      → (b' : CircularBuffer ℕ) × ((write b (layout.encode m.header) layout.header_size
            >>= (λ first. write first.1 m.body (length m.body)))
          ≡ some (pos (length m.body), b'))
        × Wrote b (frame layout m) b'
  two_writes b m v room =
      let head = layout.encode m.header in
      let sized = l.sized m.header in
      let one = write_lem b head layout.header_size v (omega arith) (omega arith) in
      let whole = take_all layout.header_size head (omega arith) in
      let held = size_of_Wrote b _ one.0 v one.2 in
      let two =
        write_lem one.0 m.body (length m.body) one.2.valid (omega arith)
          (omega (arith, held, one.2.same_max, length-take layout.header_size head)) in
      (
        two.0,
        rw one.1 two.1,
        record {
          valid = two.2.valid;
          appended =
              two.2.appended
              ∙ ap₂ (λ xs ys. xs ++ ys) one.2.appended
                  (take_all (length m.body) m.body (omega arith))
              ∙ append_assoc (contents b) (take layout.header_size head) m.body
              ∙ ap (λ xs. contents b ++ (xs ++ m.body)) whole;
          same_max = two.2.same_max ∙ one.2.same_max;
        },
      )

  pub write_message_lem :
      (b : CircularBuffer ℕ) (h : MessageHeader) (text : List ℕ)
      → IsValid b
      → length text < 2 ^ 31 - 2 ^ 16
      → Framed layout b (message h text) (length text) (write_message layout b h text)
  unfolding write_message
  write_message_lem b h text v small =
      elim (dec_lt b.max_size (b.size + (layout.header_size + length text))) [
        | yes over ↦ record { after = b; done = ground arith; wrote = λ room. ground arith }
        | no fits ↦
            let w = two_writes b (message h text) v (omega arith) in
            record { after = w.0; done = ground (arith, w.1); wrote = λ room. w.2 }
      ]

  length-frame : (m : Message) → length (frame layout m) ≡ layout.header_size + length m.body
  length-frame m =
      length-append (layout.encode m.header) m.body ∙ ap (λ n. n + length m.body) (l.sized m.header)

  one_write :
      (b : CircularBuffer ℕ) (m : Message)
      → IsValid b
      → let count = layout.header_size + length m.body in
        b.size + count ≤ b.max_size
        → (b' : CircularBuffer ℕ) × (write b (frame layout m) count ≡ some (pos count, b'))
          × Wrote b (frame layout m) b'
  one_write b m v room =
      let count = layout.header_size + length m.body in
      let w = write_lem b (frame layout m) count v (omega (arith, length-frame m)) room in
      (
        w.0,
        w.1,
        subst (λ xs. Wrote b xs w.0)
            (take_all count (frame layout m) (omega (arith, length-frame m))) w.2,
      )

  write-frame :
      (b : CircularBuffer ℕ) (m : Message)
      → IsValid b
      → length m.body < logmsg_size
      → let count = layout.header_size + length m.body in
        Framed layout b m count (write b (frame layout m) count)
  write-frame b m v short =
      let count = layout.header_size + length m.body in
      elim (dec_lt b.max_size (b.size + count)) [
        | yes over ↦ record {
          after = b;
          done = ground (arith, write-nospace b (frame layout m) count (omega arith) over);
          wrote = λ room. ground arith;
        }
        | no fits ↦
            let w = one_write b m v (omega arith) in
            record { after = w.0; done = ground (arith, w.1); wrote = λ room. w.2 }
      ]

  -- A text that is not cut: the write of a frame.
  write_format-write :
      (b : CircularBuffer ℕ) (h : MessageHeader) (text : List ℕ)
      → length text < logmsg_size
      → let m = message h text in
        write_format layout b h text ≡ write b (frame layout m) (layout.header_size + length m.body)
  unfolding write_format
  write_format-write b h text short =
      let whole : length text % 2 ^ 32 ≡ length text = omega arith in
      let kept : leb logmsg_size (length text) ≡ false = ground arith in
      rw (whole, kept, take_all (length text) text (omega arith))
        (ap (write b (frame layout (message h text))) (omega (arith, l.few_bytes)))

  pub write_format_lem :
      (b : CircularBuffer ℕ) (h : MessageHeader) (text : List ℕ)
      → IsValid b
      → length text < logmsg_size
      → let m = message h text in
        Framed layout b m (layout.header_size + length m.body) (write_format layout b h text)
  write_format_lem b h text v short =
      rw (write_format-write b h text short) (write-frame b (message h text) v short)

module _ (b : CircularBuffer ℕ) (n : ℕ) where
  pub take_bytes_lem :
      IsValid b
      → n ≤ b.size
      → (b' : CircularBuffer ℕ) × (take_bytes b n ≡ some (some (take n (contents b)), b'))
        × Skipped b n b'
  unfolding take_bytes
  take_bytes_lem v h =
      let r = read_lem b (replicate n 0) n v h (simp lengths (omega arith)) in
      (
        r.0,
        ground (
          arith,
          r.1,
          drop-eq-nil n (replicate n zero),
          length-replicate n zero,
          append-nil (take n (contents b)),
        ),
        r.2,
      )

  pub take_bytes-nodata : b.size < n → take_bytes b n ≡ some (none, b)
  unfolding take_bytes
  take_bytes-nodata h = ground (arith, read-nodata b (replicate n 0) n)
