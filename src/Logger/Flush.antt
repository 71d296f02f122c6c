-- ===== src/Logger/Flush.antt =====
-- The rounds of `Logger::flush` of code/Logger.cpp on a buffer that holds whole frames.
use mlnotes.Base.{
  inl, inr, Bool-cases, ℕ, ◌+◌, ◌-◌, ◌≤◌, ◌<◌, ◌≡◌, refl, true, false, Option, some, List, [], ◌∷◌,
  ◌++◌, arith, leb, if◌then◌else◌, length, take, drop, length-append, length-take, length-drop,
  take-append-drop, drop-append, append_assoc, ap, sym, ◌∙◌, codes, c_text, get_elem?,
}
use native.Mathlib.Decide.{dec_lt}
use mlnotes.Base.Int.{ℤ}
use mlnotes.CircularBuffer.{CircularBuffer}
use mlnotes.CircularBuffer.Inv.{IsValid, contents, length-contents}
use mlnotes.Format.{same_bytes}
use mlnotes.Logger.{
  LogSettings, Line, Round, prints, Files, FileInfo, ft_stdout, find_file, set_file,
  get_group_location, Surroundings, open_log, logmsg_size, take_bytes, print_rest, print_message,
  read_message,
}
use mlnotes.Logger.Frames.{Message, IsMessage, take_bytes_lem}

abbrev pub stdout_file : FileInfo
stdout_file = record { file_type = ft_stdout; is_open = true; name = codes "<stdout>" }

-- Every group that was logged is logged to the standard output.
abbrev pub OnStdout : Files → Type 0
OnStdout [] = Unit
OnStdout (f ∷ files) = (f.1 ≡ stdout_file) × OnStdout files

set_file-OnStdout :
    (group : List ℕ) (files : Files) → OnStdout files → OnStdout (set_file group stdout_file files)
unfolding set_file
set_file-OnStdout group [] h = (refl, h)
set_file-OnStdout group (f ∷ files) h = elim (Bool-cases (same_bytes (f.0) group)) [
  | inl e ↦ rw e (refl, h.1)
  | inr e ↦ rw e (h.0, set_file-OnStdout group files (h.1))
]

module _ (around : Surroundings) (group : List ℕ) (now : ℤ) where
  open_log-stdout :
      (files : Files)
      → OnStdout files
      → open_log around group now (find_file group files) ≡ stdout_file
  unfolding open_log find_file get_group_location same_bytes
  open_log-stdout [] h = refl
  open_log-stdout (f ∷ files) h = elim (Bool-cases (same_bytes (f.0) group)) [
    | inl e ↦ rw (e, h.0) refl
    | inr e ↦ rw e (open_log-stdout files (h.1))
  ]

-- What is printed of a text: the bytes before the first zero, of each of its two parts when it is
-- longer than the array that `flush` has for it.
abbrev pub shown : List ℕ → List ℕ
shown xs =
    if leb (length xs) logmsg_size
    then c_text xs
    else c_text (take logmsg_size xs) ++ c_text (drop logmsg_size xs)

abbrev pub line_of : Message → Line
line_of m = record { file = codes "<stdout>"; header = m.header; text = shown m.body }

-- The buffer after its first elements are read, and `rest` is left.
pub record Took (b : CircularBuffer ℕ) (xs rest : List ℕ) : Type 0 where
  pub after : CircularBuffer ℕ
  pub done : take_bytes b (length xs) ≡ some (some xs, after)
  pub valid : IsValid after
  pub left : contents after ≡ rest
  pub same_max : after.max_size ≡ b.max_size

take-append : (xs rest : List ℕ) → take (length xs) (xs ++ rest) ≡ xs
take-append [] rest = refl
take-append (x ∷ xs) rest = ap (λ ys. x ∷ ys) (take-append xs rest)

pub take_front :
    (b : CircularBuffer ℕ) (xs rest : List ℕ) → IsValid b → contents b ≡ xs ++ rest → Took b xs rest
take_front b xs rest v h =
    let all : b.size ≡ length xs + length rest =
      sym (length-contents v) ∙ ap length h ∙ length-append xs rest in
    let t = take_bytes_lem b (length xs) v (omega arith) in
    let whole : take (length xs) (contents b) ≡ xs =
      ap (take (length xs)) h ∙ take-append xs rest in
    record {
      after = t.0;
      done = t.1 ∙ ap (λ ys. some (some ys, t.0)) whole;
      valid = t.2.valid;
      left = t.2.rest ∙ ap (drop (length xs)) h ∙ drop-append xs rest (length xs) refl;
      same_max = t.2.same_max;
    }

short_test : (n : ℕ) → n ≤ logmsg_size → leb n logmsg_size ≡ true
short_test n h = ground arith

long_test : (n : ℕ) → logmsg_size < n → leb n logmsg_size ≡ false
long_test n h = ground arith

-- What a round does that prints one message and leaves the bytes `rest`.
pub record Printed (files : Files) (b : CircularBuffer ℕ) (line : Line) (rest : List ℕ)
    (got : Option (Round × Files × CircularBuffer ℕ)) : Type 0 where
  pub files_after : Files
  pub after : CircularBuffer ℕ
  pub done : got ≡ some (prints line, files_after, after)
  pub on_stdout : OnStdout files_after
  pub valid : IsValid after
  pub left : contents after ≡ rest
  pub same_max : after.max_size ≡ b.max_size

print_rest_lem :
    (line : Line) (more : List ℕ) (files : Files) (b b' : CircularBuffer ℕ)
    → take_bytes b (length more) ≡ some (some more, b')
    → print_rest line (length more) files b
      ≡ some (prints (record line { text = line.text ++ c_text more }), files, b')
unfolding print_rest
print_rest_lem line more files b b' h = rw h refl

module _ (around : Surroundings) (settings : List LogSettings) (files : Files)
    (on : OnStdout files) where
  module _ (m : Message) (good : IsMessage m) (ps : LogSettings)
      (found : get_elem? settings m.header.settings ≡ some ps) where
    print_short :
        (b : CircularBuffer ℕ)
        → length m.body ≤ logmsg_size
        → print_message around settings m.header m.body files b
          ≡ some (prints (line_of m), set_file ps.group stdout_file files, b)
    unfolding print_message
    print_short b short =
        rw
          (
            found,
            open_log-stdout around ps.group m.header.now files on,
            good.size_of,
            short_test (length m.body) short,
          )
          refl

    print_long :
        (b : CircularBuffer ℕ)
        → logmsg_size < length m.body
        → print_message around settings m.header (take logmsg_size m.body) files b
          ≡ print_rest
              (record {
                file = codes "<stdout>";
                header = m.header;
                text = c_text (take logmsg_size m.body);
              })
              (length m.body - logmsg_size)
              (set_file ps.group stdout_file files)
              b
    unfolding print_message
    print_long b long =
        rw
          (
            found,
            open_log-stdout around ps.group m.header.now files on,
            good.size_of,
            long_test (length m.body) long,
          )
          refl

    count_short :
        length m.body ≤ logmsg_size
        → (if leb m.header.size logmsg_size then m.header.size else logmsg_size) ≡ length m.body
    count_short short = rw (good.size_of, short_test (length m.body) short) refl

    count_long :
        logmsg_size < length m.body
        → (if leb m.header.size logmsg_size then m.header.size else logmsg_size)
          ≡ length (take logmsg_size m.body)
    count_long long =
        rw (good.size_of, long_test (length m.body) long)
          (omega (arith, length-take logmsg_size m.body))

    rest_lem :
        (b : CircularBuffer ℕ) (rest : List ℕ)
        → logmsg_size < length m.body
        → IsValid b
        → contents b ≡ drop logmsg_size m.body ++ rest
        → Printed files b
            (line_of m)
            rest
            (print_message around settings m.header (take logmsg_size m.body) files b)
    rest_lem b rest long v h =
        let line : Line = record {
          file = codes "<stdout>";
          header = m.header;
          text = c_text (take logmsg_size m.body);
        } in
        let files' = set_file ps.group stdout_file files in
        let u = take_front b (drop logmsg_size m.body) rest v h in
        let long_line : some (
          prints (record line { text = line.text ++ c_text (drop logmsg_size m.body) }),
          files',
          u.after,
        )
            ≡ some (prints (line_of m), files', u.after) =
          rw (long_test (length m.body) long) refl in
        record {
          files_after = set_file ps.group stdout_file files;
          after = u.after;
          done =
              print_long b long
              ∙ rw (sym (length-drop logmsg_size m.body)) (
                  print_rest_lem line (drop logmsg_size m.body) files' b u.after u.done
                  ∙ long_line);
          on_stdout = set_file-OnStdout ps.group files on;
          valid = u.valid;
          left = u.left;
          same_max = u.same_max;
        }

    -- The message, after its header is read.
    pub read_body :
        (b : CircularBuffer ℕ) (rest : List ℕ)
        → IsValid b
        → contents b ≡ m.body ++ rest
        → Printed files b (line_of m) rest (read_message around settings m.header files b)
    unfolding read_message
    read_body b rest v h = elim (dec_lt logmsg_size (length m.body)) [
      | no short ↦
          let t = take_front b m.body rest v h in
          record {
            files_after = set_file ps.group stdout_file files;
            after = t.after;
            done = rw (count_short (omega arith), t.done) (print_short t.after (omega arith));
            on_stdout = set_file-OnStdout ps.group files on;
            valid = t.valid;
            left = t.left;
            same_max = t.same_max;
          }
      | yes long ↦
          let first = take logmsg_size m.body in
          let second = drop logmsg_size m.body in
          let t = take_front b first (second ++ rest) v (
            h
            ∙ ap (λ xs. xs ++ rest) (sym (take-append-drop logmsg_size m.body))
            ∙ append_assoc first second rest) in
          let u = rest_lem t.after rest long t.valid t.left in
          record {
            files_after = u.files_after;
            after = u.after;
            done = rw (count_long long, t.done) u.done;
            on_stdout = u.on_stdout;
            valid = u.valid;
            left = u.left;
            same_max = u.same_max ∙ t.same_max;
          }
    ]
