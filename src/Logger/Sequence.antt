-- ===== src/Logger/Sequence.antt =====
-- The writes and flushes of code/Logger.cpp in any order, against a queue of pending messages: this
-- is what the logger promises to the program that logs.
use mlnotes.Base.{
  ℕ, ◌+◌, ◌-◌, ◌^◌, ◌<◌, ◌≡◌, refl, inl, inr, Bool-cases, Option, some, List, [], ◌∷◌, ◌++◌, arith,
  map, flatten, length, append_assoc, append-nil, ap, sym, ◌∙◌, ◌>>=◌, get_elem?, leb,
  if◌then◌else◌,
}
use mlnotes.Base.Int.{ℤ, pos}
use mlnotes.CircularBuffer.{CircularBuffer, e_nospace}
use mlnotes.CircularBuffer.Inv.{IsValid, contents, length-contents}
use mlnotes.Logger.{
  MessageHeader, LogSettings, Layout, Line, Files, Surroundings, Round, ends, passes, prints,
  logmsg_size, flush_round, write_format, write_message, flush,
}
use mlnotes.Logger.Frames.{
  IsLayout, IsHeader, Message, message, frame, has_room, Framed, write_message_lem,
  write_format_lem,
}
use mlnotes.Logger.Flush.{OnStdout, line_of}
use mlnotes.Logger.Drain.{AllLogged, IsLogged, frames, flush_lem, round_lem, round-ends}

-- A step of some thread: a formatted write, a plain write, a whole flush, or one round of a flush
-- between whose rounds other threads write. What comes of it: the result of the write to the buffer,
-- or the lines printed.
pub data Event : Type 0 where
  tell : MessageHeader → List ℕ → Event
  say : MessageHeader → List ℕ → Event
  drain : Event
  drain_one : Event

pub data Reply : Type 0 where
  wrote : ℤ → Reply
  printed : List Line → Reply

abbrev round_lines : Round → List Line
round_lines ends = []
round_lines passes = []
round_lines (prints line) = line ∷ []

-- The header's words are in range, its settings are kept by the logger, and the text is shorter
-- than the range of int32 less a header.
pub record IsCall (settings : List LogSettings) (h : MessageHeader) (text : List ℕ) : Type 0 where
  pub in_range : IsHeader h
  pub short : length text < 2 ^ 31 - 2 ^ 16
  pub ps : LogSettings
  pub found : get_elem? settings h.settings ≡ some ps

-- A formatted text is shorter than the limit of a message.
abbrev pub Fits : List LogSettings → Event → Type 0
Fits settings (tell h text) = IsCall settings h text × (length text < logmsg_size)
Fits settings (say h text) = IsCall settings h text
Fits settings drain = Unit
Fits settings drain_one = Unit

abbrev pub AllFit : List LogSettings → List Event → Type 0
AllFit settings [] = Unit
AllFit settings (e ∷ es) = Fits settings e × AllFit settings es

pub message-IsLogged :
    (settings : List LogSettings) (h : MessageHeader) (text : List ℕ)
    → IsCall settings h text
    → IsLogged settings (message h text)
message-IsLogged settings h text c = record {
  good = record {
    good = record {
      small_size = omega (arith, c.short);
      small_tid = c.in_range.small_tid;
      small_pid = c.in_range.small_pid;
      small_settings = c.in_range.small_settings;
    };
    size_of = refl;
  };
  ps = c.ps;
  found = c.found;
}

AllLogged-append :
    (settings : List LogSettings) (ms : List Message) (m : Message)
    → AllLogged settings ms
    → IsLogged settings m
    → AllLogged settings (ms ++ (m ∷ []))
AllLogged-append settings [] m k g = (g, tt)
AllLogged-append settings (n ∷ ms) m k g = (k.0, AllLogged-append settings ms m k.1 g)

module _ (layout : Layout) where
  -- A message that fits is taken to the end of the queue.
  abbrev pub queue_put : ℕ → List Message → Message → ℕ → Reply × List Message
  queue_put max pending m result =
      if leb (length (frames layout pending) + (layout.header_size + length m.body)) max
      then (wrote (pos result), pending ++ (m ∷ []))
      else (wrote e_nospace, pending)

  abbrev pub queue_step : ℕ → List Message → Event → Reply × List Message
  queue_step max pending (tell h text) =
      let m = message h text in queue_put max pending m (layout.header_size + length m.body)
  queue_step max pending (say h text) = queue_put max pending (message h text) (length text)
  queue_step max pending drain = (printed (map line_of pending), [])
  queue_step max [] drain_one = (printed [], [])
  queue_step max (m ∷ pending) drain_one = (printed (line_of m ∷ []), pending)

  abbrev pub queue_run : ℕ → List Message → List Event → List Reply
  queue_run max pending [] = []
  queue_run max pending (e ∷ es) = let r = queue_step max pending e in r.0 ∷ queue_run max r.1 es

  module _ (around : Surroundings) (settings : List LogSettings) where
    pub step : Files → CircularBuffer ℕ → Event → Option (Reply × Files × CircularBuffer ℕ)
    step files b (tell h text) =
        write_format layout b h text >>= (λ r. some (wrote (r.0), files, r.1))
    step files b (say h text) =
        write_message layout b h text >>= (λ r. some (wrote (r.0), files, r.1))
    step files b drain =
        flush around settings layout files b >>= (λ r. some (printed (r.0), r.1, r.2))
    step files b drain_one =
        flush_round around settings layout files b
        >>= (λ r. some (printed (round_lines r.0), r.1, r.2))

    pub run : Files → CircularBuffer ℕ → List Event → Option (List Reply)
    run files b [] = some []
    run files b (e ∷ es) = step files b e >>= (λ r. run (r.1) (r.2) es >>= (λ rs. some (r.0 ∷ rs)))

    -- The buffer holds the pending messages, all of them logged to the standard output.
    pub record Holds (files : Files) (b : CircularBuffer ℕ) (pending : List Message) : Type 0 where
      pub on_stdout : OnStdout files
      pub valid : IsValid b
      pub logged : AllLogged settings pending
      pub held : contents b ≡ frames layout pending

    -- A call does on the buffer what it does on the queue.
    record Steps (files : Files) (b : CircularBuffer ℕ) (e : Event)
        (expected : Reply × List Message) : Type 0 where
      files_after : Files
      after : CircularBuffer ℕ
      done : step files b e ≡ some (expected.0, files_after, after)
      holds : Holds files_after after expected.1
      same_max : after.max_size ≡ b.max_size

    frames-append :
        (ms : List Message) (m : Message)
        → frames layout (ms ++ (m ∷ [])) ≡ frames layout ms ++ frame layout m
    unfolding flatten
    frames-append [] m = append-nil (frame layout m)
    frames-append (n ∷ ms) m =
        ap (λ xs. frame layout n ++ xs) (frames-append ms m)
        ∙ sym (append_assoc (frame layout n) (frames layout ms) (frame layout m))

    -- A write that appends a frame, or is refused, is a put to the queue.
    put_Steps :
        (files : Files) (b : CircularBuffer ℕ) (pending : List Message) (e : Event) (m : Message)
        (result : ℕ) (got : Option (ℤ × CircularBuffer ℕ))
        → Holds files b pending
        → IsLogged settings m
        → Framed layout b m result got
        → step files b e ≡ (got >>= (λ r. some (wrote (r.0), files, r.1)))
        → Steps files b e (queue_put b.max_size pending m result)
    put_Steps files b pending e m result got h k w is_write =
        let size : b.size ≡ length (frames layout pending) =
          sym (length-contents h.valid) ∙ ap length h.held in
        rw (sym size) (elim (Bool-cases (has_room layout b m)) [
          | inl room ↦
              let t = w.wrote room in
              rw room (record {
                files_after = files;
                after = w.after;
                done = is_write ∙ rw (w.done, room) refl;
                holds = record {
                  on_stdout = h.on_stdout;
                  valid = t.valid;
                  logged = AllLogged-append settings pending m h.logged k;
                  held =
                      t.appended
                      ∙ ap (λ xs. xs ++ frame layout m) h.held
                      ∙ sym (frames-append pending m);
                };
                same_max = t.same_max;
              })
          | inr full ↦ rw full (record {
            files_after = files;
            after = b;
            done = is_write ∙ rw (w.done, full) refl;
            holds = h;
            same_max = refl;
          })
        ])

    module _ (l : IsLayout layout) where
      step_refines :
          (files : Files) (b : CircularBuffer ℕ) (pending : List Message) (e : Event)
          → Holds files b pending
          → Fits settings e
          → Steps files b e (queue_step b.max_size pending e)
      unfolding step flatten
      step_refines files b pending (tell h text) holds f =
          let m = message h text in
          put_Steps files b pending (tell h text) m (layout.header_size + length m.body) _ holds
            (message-IsLogged settings h text f.0)
            (write_format_lem layout l b h text holds.valid f.1) refl
      step_refines files b pending (say h text) holds f =
          put_Steps files b pending (say h text) (message h text) (length text) _ holds
            (message-IsLogged settings h text f)
            (write_message_lem layout l b h text holds.valid f.short) refl
      step_refines files b pending drain holds f =
          let k =
            flush_lem layout l around settings pending files b holds.on_stdout holds.valid
              holds.logged holds.held in
          record {
            files_after = k.files_after;
            after = k.after;
            done = rw k.done refl;
            holds = record {
              on_stdout = k.on_stdout;
              valid = k.valid;
              logged = tt;
              held = k.empty;
            };
            same_max = k.same_max;
          }
      step_refines files b [] drain_one holds f = record {
        files_after = files;
        after = b;
        done = rw (round-ends layout l around settings files b holds.valid holds.held) refl;
        holds = holds;
        same_max = refl;
      }
      step_refines files b (m ∷ ms) drain_one holds f =
          let k =
            round_lem layout l around settings files b m (frames layout ms) holds.on_stdout
              holds.valid holds.logged.0 holds.held in
          record {
            files_after = k.files_after;
            after = k.after;
            done = rw k.done refl;
            holds = record {
              on_stdout = k.on_stdout;
              valid = k.valid;
              logged = holds.logged.1;
              held = k.left;
            };
            same_max = k.same_max;
          }

      -- From a valid buffer that holds the frames of logged messages, with the groups opened so far on
      -- the standard output, every sequence of formatted writes of texts shorter than 8192 bytes,
      -- plain writes of texts shorter than 2 ^ 31 - 2 ^ 16, whole flushes and single rounds of a flush,
      -- of headers in range that name settings of the logger, gives the replies of a queue of messages:
      -- a write whose frame fits in what is free gives its result, one that does not gives E_NOSPACE
      -- and leaves no trace, a flush prints all that is pending once, oldest first, and a round the
      -- oldest message. The two reads of a message of more than 8192 bytes are one step.
      pub log_refines :
          (es : List Event) (files : Files) (b : CircularBuffer ℕ) (pending : List Message)
          → Holds files b pending
          → AllFit settings es
          → run files b es ≡ some (queue_run b.max_size pending es)
      unfolding run
      log_refines [] files b pending holds h = refl
      log_refines (e ∷ es) files b pending holds h =
          let s = step_refines files b pending e holds h.0 in
          rw (s.done, log_refines es s.files_after s.after _ s.holds h.1, s.same_max) refl
