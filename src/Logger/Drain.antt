-- ===== src/Logger/Drain.antt =====
-- `Logger::flush` of code/Logger.cpp: the rounds of the loop until the buffer is empty.
use mlnotes.Base.{
  ℕ, zero, suc, ◌≤◌, ◌<◌, ◌≡◌, refl, Option, some, List, [], ◌∷◌, ◌++◌, arith, map, flatten, length,
  length-append, append_assoc, ap, sym, ◌∙◌, get_elem?,
}
use mlnotes.CircularBuffer.{CircularBuffer}
use mlnotes.CircularBuffer.Inv.{IsValid, contents, length-contents}
use mlnotes.Logger.{
  LogSettings, Layout, Line, ends, Files, Surroundings, MessageHeader, take_bytes, read_message,
  flush_round, flush_loop, flush,
}
use mlnotes.Logger.Frames.{IsLayout, Message, IsMessage, frame, take_bytes-nodata}
use mlnotes.Logger.Flush.{OnStdout, line_of, take_front, Printed, read_body}

-- The messages of a buffer, each written with settings that the logger keeps.
pub record IsLogged (settings : List LogSettings) (m : Message) : Type 0 where
  pub good : IsMessage m
  pub ps : LogSettings
  pub found : get_elem? settings m.header.settings ≡ some ps

abbrev pub AllLogged : List LogSettings → List Message → Type 0
AllLogged settings [] = Unit
AllLogged settings (m ∷ ms) = IsLogged settings m × AllLogged settings ms

abbrev pub frames : Layout → List Message → List ℕ
frames layout ms = flatten (map (frame layout) ms)

-- What `flush` leaves of a buffer that holds the messages `ms`.
pub record Flushed (b : CircularBuffer ℕ) (lines : List Line)
    (got : Option (List Line × Files × CircularBuffer ℕ)) : Type 0 where
  pub files_after : Files
  pub after : CircularBuffer ℕ
  pub done : got ≡ some (lines, files_after, after)
  pub on_stdout : OnStdout files_after
  pub valid : IsValid after
  pub empty : contents after ≡ []
  pub same_max : after.max_size ≡ b.max_size

module _ (layout : Layout) (l : IsLayout layout) where
  -- There are no more messages than bytes.
  frames_many : (ms : List Message) → length ms ≤ length (frames layout ms)
  unfolding flatten
  frames_many [] = omega arith
  frames_many (m ∷ ms) =
      simp (length-append, l.sized m.header) (omega (arith, frames_many ms, l.some_bytes))

  module _ (around : Surroundings) (settings : List LogSettings) where
    round_read :
        (files : Files) (b : CircularBuffer ℕ) (h : MessageHeader) (b' : CircularBuffer ℕ)
        → take_bytes b (length (layout.encode h)) ≡ some (some (layout.encode h), b')
        → layout.decode (layout.encode h) ≡ h
        → flush_round around settings layout files b ≡ read_message around settings h files b'
    unfolding flush_round
    round_read files b h b' took same = rw (sym (l.sized h), took, same) refl

    pub round_lem :
        (files : Files) (b : CircularBuffer ℕ) (m : Message) (rest : List ℕ)
        → OnStdout files
        → IsValid b
        → IsLogged settings m
        → contents b ≡ frame layout m ++ rest
        → Printed files b (line_of m) rest (flush_round around settings layout files b)
    round_lem files b m rest on v k h =
        let t =
          take_front b (layout.encode m.header) (m.body ++ rest) v
            (h ∙ append_assoc (layout.encode m.header) m.body rest) in
        let u =
          read_body around settings files on m k.good k.ps k.found t.after rest t.valid t.left in
        record {
          files_after = u.files_after;
          after = u.after;
          done = round_read files b m.header t.after t.done (l.same m.header k.good.good) ∙ u.done;
          on_stdout = u.on_stdout;
          valid = u.valid;
          left = u.left;
          same_max = u.same_max ∙ t.same_max;
        }

    pub round-ends :
        (files : Files) (b : CircularBuffer ℕ)
        → IsValid b
        → contents b ≡ []
        → flush_round around settings layout files b ≡ some (ends, files, b)
    unfolding flush_round
    round-ends files b v h =
        rw
          (take_bytes-nodata b layout.header_size
            (omega (arith, l.some_bytes, length-contents v, ap length h)))
          refl

    flush_loop_lem :
        (ms : List Message) (fuel : ℕ) (files : Files) (b : CircularBuffer ℕ)
        → OnStdout files
        → IsValid b
        → AllLogged settings ms
        → contents b ≡ frames layout ms
        → length ms < fuel
        → Flushed b (map line_of ms) (flush_loop around settings layout fuel files b)
    unfolding flush_loop flatten
    flush_loop_lem ms zero files b on v k h few = ground arith
    flush_loop_lem [] (suc fuel) files b on v k h few = record {
      files_after = files;
      after = b;
      done = rw (round-ends files b v h) refl;
      on_stdout = on;
      valid = v;
      empty = h;
      same_max = refl;
    }
    flush_loop_lem (m ∷ ms) (suc fuel) files b on v k h few =
        let p = round_lem files b m (frames layout ms) on v k.0 h in
        let f =
          flush_loop_lem ms fuel p.files_after p.after p.on_stdout p.valid k.1 p.left
            (omega arith) in
        record {
          files_after = f.files_after;
          after = f.after;
          done = rw (p.done, f.done) refl;
          on_stdout = f.on_stdout;
          valid = f.valid;
          empty = f.empty;
          same_max = f.same_max ∙ p.same_max;
        }

    -- If a valid buffer holds the frames of messages whose headers give their sizes and name
    -- settings of the logger, and the groups opened so far are on the standard output, `flush` ends:
    -- it prints each message once, oldest first, to the standard output, however long the messages
    -- are, and leaves the buffer valid and empty.
    pub flush_lem :
        (ms : List Message) (files : Files) (b : CircularBuffer ℕ)
        → OnStdout files
        → IsValid b
        → AllLogged settings ms
        → contents b ≡ frames layout ms
        → Flushed b (map line_of ms) (flush around settings layout files b)
    unfolding flush
    flush_lem ms files b on v k h =
        flush_loop_lem ms (suc b.size) files b on v k h
          (omega (arith, frames_many ms, length-contents v, ap length h))
