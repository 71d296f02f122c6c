-- ===== src/Logger/Tests.antt =====
-- Concrete runs of code/Logger.cpp, and the theorems about it at concrete inputs.
use mlnotes.Base.{
  ℕ, zero, suc, ◌+◌, ◌≤◌, ◌≡◌, ◌↔◌, refl, inl, true, none, some, List, [], ◌∷◌, ◌++◌, arith, codes,
  length, replicate, flatten,
}
use mlnotes.Base.Int.{ℤ, pos, negsuc}
use mlnotes.CircularBuffer.{CircularBuffer, init}
use mlnotes.CircularBuffer.Inv.{IsValid, init-IsValid}
use mlnotes.StringTools.Edit.{to_lower_case}
use mlnotes.Logger.{MessageHeader, LogSettings, Layout, Surroundings, flush}
use mlnotes.Logger.Levels.{ll_crit, ll_info, ll_warn, ll_dbug, level_to_string, string_to_level}
use mlnotes.Logger.Names.{string_to_level_iff}
use mlnotes.Logger.Frames.{IsLayout, message}
use mlnotes.Logger.Flush.{line_of}
use mlnotes.Logger.Drain.{Flushed, flush_lem}
use mlnotes.Logger.Sequence.{
  message-IsLogged, Event, tell, say, drain, drain_one, IsCall, queue_run, run, log_refines,
}
use mlnotes.Logger.Groups.{Groups}
use mlnotes.Logger.Groups.Calls.{Call, create, set, test, calls, IsLinked, Keeps, calls-IsLinked}

abbrev encode_now : ℤ → List ℕ
encode_now (pos n) = 0 ∷ n ∷ []
encode_now (negsuc n) = 1 ∷ n ∷ []

abbrev decode_now : ℕ → ℕ → ℤ
decode_now zero n = pos n
decode_now (suc k) n = negsuc n

abbrev no_header : MessageHeader
no_header = record { now = pos 0; size = 0; tid = 0; thread_pid = 0; settings = 0 }

abbrev decode_words : List ℕ → MessageHeader
decode_words [] = no_header
decode_words (k ∷ []) = no_header
decode_words (k ∷ n ∷ []) = no_header
decode_words (k ∷ n ∷ a ∷ []) = no_header
decode_words (k ∷ n ∷ a ∷ b ∷ []) = no_header
decode_words (k ∷ n ∷ a ∷ b ∷ c ∷ []) = no_header
decode_words (k ∷ n ∷ a ∷ b ∷ c ∷ d ∷ rest) = record {
  now = decode_now k n;
  size = a;
  tid = b;
  thread_pid = c;
  settings = d;
}

-- A header as six words.
abbrev words_layout : Layout
words_layout = record {
  header_size = 6;
  encode = λ h. encode_now h.now ++ (h.size ∷ h.tid ∷ h.thread_pid ∷ h.settings ∷ []);
  decode = decode_words;
}

length-encode : (now : ℤ) (xs : List ℕ) → length (encode_now now ++ xs) ≡ 2 + length xs
length-encode (pos n) xs = omega arith
length-encode (negsuc n) xs = omega arith

decode_same :
    (now : ℤ) (a b c d : ℕ)
    → decode_words (encode_now now ++ (a ∷ b ∷ c ∷ d ∷ []))
      ≡ record { now = now; size = a; tid = b; thread_pid = c; settings = d }
decode_same (pos n) a b c d = refl
decode_same (negsuc n) a b c d = refl

words_layout-IsLayout : IsLayout words_layout
words_layout-IsLayout = record {
  some_bytes = omega arith;
  few_bytes = omega arith;
  sized = λ h. length-encode h.now _;
  same = λ h g. decode_same h.now h.size h.tid h.thread_pid h.settings;
}

abbrev here : Surroundings
here = record {
  program_name = codes "hello";
  fopen = λ name. true;
  rolls = λ name. true;
  stamp = λ now. codes "20260101";
}

abbrev logged_with : List LogSettings
logged_with = record { group = codes "net"; header = codes "INFO"; local_level = ll_info } ∷ []

abbrev from_thread : ℕ → MessageHeader
from_thread tid = record { now = negsuc 4; size = 0; tid = tid; thread_pid = 7; settings = 0 }

from_thread-IsCall : (tid : ℕ) → tid ≤ 9 → IsCall logged_with (from_thread tid) (codes "up")
from_thread-IsCall tid small = record {
  in_range = record {
    small_size = omega arith;
    small_tid = omega arith;
    small_pid = omega arith;
    small_settings = omega arith;
  };
  short = omega arith;
  ps = record { group = codes "net"; header = codes "INFO"; local_level = ll_info };
  found = refl;
}

abbrev small_buffer : CircularBuffer ℕ
small_buffer = init 0 20

abbrev three_writes : List Event
three_writes =
    tell (from_thread 1) (codes "up")
    ∷ say (from_thread 2) (codes "up")
    ∷ say (from_thread 3) (codes "up")
    ∷ drain_one
    ∷ say (from_thread 4) (codes "up")
    ∷ drain
    ∷ []

-- The third write finds no room, and the fourth does after a round of a flush.
log_refines_example :
    run words_layout here logged_with [] small_buffer three_writes
    ≡ some (queue_run words_layout small_buffer.max_size [] three_writes)
unfolding flatten
log_refines_example =
    log_refines words_layout here logged_with words_layout-IsLayout three_writes [] small_buffer []
      (record {
        on_stdout = tt;
        valid = (init-IsValid 0 20 (omega arith)).0;
        logged = tt;
        held = (init-IsValid 0 20 (omega arith)).1;
      })
      (
        (from_thread-IsCall 1 (omega arith), omega arith),
        (
          from_thread-IsCall 2 (omega arith),
          (
            from_thread-IsCall 3 (omega arith),
            (tt, (from_thread-IsCall 4 (omega arith), (tt, tt))),
          ),
        ),
      )

-- A buffer that holds one message.
abbrev one_frame : CircularBuffer ℕ
one_frame = record {
  max_size = 20;
  capacity = 21;
  begin = 0;
  end = 8;
  size = 8;
  buffer =
      words_layout.encode (message (from_thread 1) (codes "up")).header
      ++ (codes "up" ++ replicate 13 0);
}

one_frame-IsValid : IsValid one_frame
one_frame-IsValid = record {
  slots = omega arith;
  small = omega arith;
  array = refl;
  begin_in = omega arith;
  end_in = omega arith;
  fits = omega arith;
  linked = inl refl;
}

flush_lem_example :
    Flushed one_frame
      (line_of (message (from_thread 1) (codes "up")) ∷ [])
      (flush here logged_with words_layout [] one_frame)
unfolding flatten
flush_lem_example =
    flush_lem words_layout words_layout-IsLayout here logged_with
      (message (from_thread 1) (codes "up") ∷ []) [] one_frame tt one_frame-IsValid
      (
        message-IsLogged logged_with (from_thread 1) (codes "up")
            (from_thread-IsCall 1 (omega arith)),
        tt,
      )
      refl

abbrev log_calls : List Call
log_calls =
    create ll_info (some (codes "net")) (some (codes "a.cpp")) (some (codes "f"))
    ∷ set ll_warn (codes "net")
    ∷ create ll_crit (some (codes "net")) none (some (codes "g"))
    ∷ test ll_dbug (codes "disk")
    ∷ []

abbrev no_groups : Groups
no_groups = record { settings = []; levels = [] }

calls-IsLinked_example :
    IsLinked (calls no_groups log_calls) × Keeps no_groups (calls no_groups log_calls)
calls-IsLinked_example = calls-IsLinked log_calls no_groups (λ i ps q. ground arith)

string_to_level_iff_example :
    (level_to_string ll_warn ≡ some (codes "WARN"))
    × ((string_to_level (some (codes "Warn")) ≡ some ll_warn)
        ↔ (to_lower_case (codes "Warn") ≡ to_lower_case (codes "WARN")))
string_to_level_iff_example = string_to_level_iff (codes "Warn") ll_warn
