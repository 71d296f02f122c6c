-- ===== src/Logger.antt =====
-- code/Logger.cpp: messages are framed into a circular buffer of bytes, and a thread of the logger
-- reads them back and prints them. How a header lies in memory is a parameter, and so are the file
-- system and the text of a time. What is printed is a list of lines.
pub mod Levels
mod Names
pub mod Frames
pub mod Groups
pub mod Flush
pub mod Drain
pub mod Sequence
mod Tests
use mlnotes.Base.{
  ℕ, zero, suc, ◌+◌, ◌-◌, ◌*◌, ◌%◌, ◌^◌, ◌≤◌, ◌<◌, ◌≡◌, Bool, true, false, not, ◌&&◌, ◌||◌, Option,
  none, some, List, [], ◌∷◌, ◌++◌, ltb, leb, ◌==◌, if◌then◌else◌, ◌>>=◌, length, take, replicate,
  get_elem?, add32, codes, c_text,
}
use mlnotes.Base.Int.{ℤ}
use mlnotes.Format.{same_bytes}
use mlnotes.CircularBuffer.{CircularBuffer, write, read, init, e_nospace, is_nodata}
use mlnotes.Logger.Levels.{
  Level, rank, ll_default, ll_crit, level_strings, level_to_string, string_to_level,
}

abbrev pub logmsg_size : ℕ
logmsg_size = 8192

abbrev pub max_buffer_size : ℕ
max_buffer_size = 16 * 1024 * 1024

-- `settings` is the place of the settings in the deque that keeps them.
pub record MessageHeader : Type 0 where
  pub now : ℤ
  pub size : ℕ
  pub tid : ℕ
  pub thread_pid : ℕ
  pub settings : ℕ

pub record LogSettings : Type 0 where
  pub group : List ℕ
  pub header : List ℕ
  pub local_level : Level

-- The bytes of a header in memory.
pub record Layout : Type 0 where
  pub header_size : ℕ
  pub encode : MessageHeader → List ℕ
  pub decode : List ℕ → MessageHeader

module _ (layout : Layout) where
  -- `write(settings, format, ...)`, after the formatting: `text` is what vsnprintf prints in full. From
  -- 8192 bytes on the second vsnprintf is given the arguments that the first one has used up, which is
  -- undefined: `none`.
  unfoldable pub write_format :
      CircularBuffer ℕ → MessageHeader → List ℕ → Option (ℤ × CircularBuffer ℕ)
  write_format b mh text =
      let printed = length text % 2 ^ 32 in
      if leb logmsg_size printed
      then none
      else write b (layout.encode (record mh { size = printed }) ++ take printed text)
          ((layout.header_size + printed) % 2 ^ 32)

  -- `write(settings, message)`: the sum of the size and the length is one of uint32.
  unfoldable pub write_message :
      CircularBuffer ℕ → MessageHeader → List ℕ → Option (ℤ × CircularBuffer ℕ)
  write_message b mh message =
      let size = length message % 2 ^ 32 in
      if ltb b.max_size (add32 b.size size + layout.header_size)
      then some (e_nospace, b)
      else write b (layout.encode (record mh { size = size })) layout.header_size
        >>= (λ first. write first.1 message size)

pub data FileType : Type 0 where
  ft_stdout : FileType
  ft_stderr : FileType
  ft_file : FileType

abbrev pub is_ft_file : FileType → Bool
is_ft_file ft_file = true
is_ft_file t = false

pub record FileInfo : Type 0 where
  pub file_type : FileType
  pub is_open : Bool
  pub name : List ℕ

-- `m_files[group]`: a missing entry is made, of a file that is not open.
unfoldable pub find_file : List ℕ → List (List ℕ × FileInfo) → FileInfo
find_file group [] = record { file_type = ft_file; is_open = false; name = [] }
find_file group ((g, info) ∷ files) =
    let later = find_file group files in if same_bytes g group then info else later

unfoldable pub set_file : List ℕ → FileInfo → List (List ℕ × FileInfo) → List (List ℕ × FileInfo)
set_file group info [] = (group, info) ∷ []
set_file group info ((g, old) ∷ files) =
    let later = set_file group info files in
    if same_bytes g group then (g, info) ∷ files else (g, old) ∷ later

-- What `fprintf` is given for a message: the file, the header and the text.
pub record Line : Type 0 where
  pub file : List ℕ
  pub header : MessageHeader
  pub text : List ℕ

-- What a round of the loop of `flush` does: it ends the loop, passes a message over, or prints it.
pub data Round : Type 0 where
  ends : Round
  passes : Round
  prints : Line → Round

-- What the logger asks of its surroundings: its name, whether a file can be opened, whether it has
-- gone or grown too large, and the text of a time for a file's name.
pub record Surroundings : Type 0 where
  pub program_name : List ℕ
  pub fopen : List ℕ → Bool
  pub rolls : List ℕ → Bool
  pub stamp : ℤ → List ℕ

-- `getGroupLocation`, which is `getDefaultLocation`.
unfoldable pub get_group_location : List ℕ → List ℕ
get_group_location group = codes "<stdout>"

abbrev pub Files : Type 0
Files = List (List ℕ × FileInfo)

-- `m_buffer.read` into an array of `n` bytes; `none` within is E_NODATA.
unfoldable pub take_bytes : CircularBuffer ℕ → ℕ → Option (Option (List ℕ) × CircularBuffer ℕ)
take_bytes b n =
    read b (replicate n 0) n >>= (λ r. some (if is_nodata r.0 then none else some r.1, r.2))

-- The second part of a message that is longer than the array on the stack.
unfoldable pub print_rest :
    Line → ℕ → Files → CircularBuffer ℕ → Option (Round × Files × CircularBuffer ℕ)
print_rest line left files b = take_bytes b left >>= (λ r. elim (r.0) [
  | none ↦ some (ends, files, r.1)
  | some more ↦ some (prints (record line { text = line.text ++ c_text more }), files, r.1)
])

module _ (around : Surroundings) where
  -- The file of a group, opened if it is not open or is to be rolled.
  unfoldable pub open_log : List ℕ → ℤ → FileInfo → FileInfo
  open_log group now info =
      let filepath = get_group_location group in
      let name =
        filepath
        ++ (codes "/"
            ++ (around.program_name
                ++ ((if length group == 0 then [] else codes ".")
                    ++ (group ++ (codes "." ++ around.stamp now))))) in
      if info.is_open && not (is_ft_file info.file_type && around.rolls info.name)
      then info
      else if same_bytes filepath (codes "<stdout>")
      then record { file_type = ft_stdout; is_open = true; name = filepath }
      else if same_bytes filepath (codes "<stderr>")
      then record { file_type = ft_stderr; is_open = true; name = filepath }
      else record { file_type = ft_file; is_open = around.fopen name; name = name }

  module _ (settings : List LogSettings) where
    -- What follows the first part of a message: its file, then the line.
    unfoldable pub print_message :
        MessageHeader
        → List ℕ
        → Files
        → CircularBuffer ℕ
        → Option (Round × Files × CircularBuffer ℕ)
    print_message mh logbuf files b = get_elem? settings mh.settings >>= (λ ps.
        let info = open_log ps.group mh.now (find_file ps.group files) in
        let files' = set_file ps.group info files in
        let line : Line = record { file = info.name; header = mh; text = c_text logbuf } in
        if not info.is_open
        then some (passes, files', b)
        else if leb mh.size logmsg_size
        then some (prints line, files', b)
        else print_rest line (mh.size - logmsg_size) files' b)

    -- What follows the header: the message, or its first part.
    unfoldable pub read_message :
        MessageHeader → Files → CircularBuffer ℕ → Option (Round × Files × CircularBuffer ℕ)
    read_message mh files b =
        take_bytes b (if leb mh.size logmsg_size then mh.size else logmsg_size) >>= (λ r.
          elim (r.0) [
            | none ↦ some (ends, files, r.1)
            | some logbuf ↦ print_message mh logbuf files (r.1)
          ])

    module _ (layout : Layout) where
      -- One round of the loop.
      unfoldable pub flush_round :
          Files → CircularBuffer ℕ → Option (Round × Files × CircularBuffer ℕ)
      flush_round files b = take_bytes b layout.header_size >>= (λ r. elim (r.0) [
        | none ↦ some (ends, files, r.1)
        | some bytes ↦ read_message (layout.decode bytes) files (r.1)
      ])

      -- The loop; `none` is a fault, or the end of the fuel.
      unfoldable pub flush_loop :
          ℕ → Files → CircularBuffer ℕ → Option (List Line × Files × CircularBuffer ℕ)
      flush_loop zero files b = none
      flush_loop (suc fuel) files b = flush_round files b >>= (λ r. elim (r.0) [
        | ends ↦ some ([], r.1, r.2)
        | passes ↦ flush_loop fuel (r.1) (r.2)
        | prints line ↦ flush_loop fuel (r.1) (r.2) >>= (λ s. some (line ∷ s.0, s.1, s.2))
      ])

      -- A message has at least a byte of header, so there are no more rounds than bytes.
      unfoldable pub flush :
          Files → CircularBuffer ℕ → Option (List Line × Files × CircularBuffer ℕ)
      flush files b = flush_loop (suc b.size) files b
