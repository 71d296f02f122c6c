-- ===== src/Thread.antt =====
-- code/Thread.cpp: the thread that owns a Thread object, in start, stop and join, and the thread that
-- is started, in run, step by step. The state word is atomic, and a step is one access to it or one
-- call; one thread owns the object.
pub mod Alone
pub mod Stop
mod Tests
use mlnotes.Base.{◌≡◌, ◌≢◌, ◌⊎◌}

pub data ThreadState : Type 0 where
  ts_ready : ThreadState
  ts_starting : ThreadState
  ts_running : ThreadState
  ts_stopping : ThreadState
  ts_stopped : ThreadState

-- Where the owner stands: in no call; in `start`, after the test and after the store; in `stop`, after
-- the test; in `join`, before `pthread_join` returns and after it.
pub data Owner : Type 0 where
  idle : Owner
  starting : Owner
  creating : Owner
  stopping : Owner
  joining : Owner
  joined : Owner

-- Where the started thread stands in `run`: not created, or joined; in `onThreadStart`; before the
-- exchange; before the test of the loop; in `onProcess`; before the store behind the loop; in
-- `onThreadStop`; before the last store; returned.
pub data Runner : Type 0 where
  absent : Runner
  on_start : Runner
  swapping : Runner
  testing : Runner
  processing : Runner
  leaving : Runner
  on_stop : Runner
  last : Runner
  finished : Runner

pub record Situation : Type 0 where
  pub word : ThreadState
  pub owner : Owner
  pub runner : Runner

-- The moves. There is one place for a started thread, so that one is only created when it is free. A call whose test fails changes nothing and has none; an exception of `onProcess` ends
-- the loop as STOP does, and one of `onThreadStart` or `onThreadStop` leads to the last store.
pub data Move : Situation → Situation → Type 0 where
  call_start :
      {r : Runner}
      → Move
          (record { word = ts_ready; owner = idle; runner = r })
          (record { word = ts_ready; owner = starting; runner = r })
  set_starting :
      {w : ThreadState} {r : Runner}
      → Move
          (record { word = w; owner = starting; runner = r })
          (record { word = ts_starting; owner = creating; runner = r })
  create :
      {w : ThreadState}
      → Move
          (record { word = w; owner = creating; runner = absent })
          (record { word = w; owner = idle; runner = on_start })
  create_fails :
      {w : ThreadState} {r : Runner}
      → Move
          (record { word = w; owner = creating; runner = r })
          (record { word = ts_ready; owner = idle; runner = r })
  call_stop :
      {w : ThreadState} {r : Runner}
      → (w ≡ ts_starting) ⊎ (w ≡ ts_running)
      → Move
          (record { word = w; owner = idle; runner = r })
          (record { word = w; owner = stopping; runner = r })
  set_stopping :
      {w : ThreadState} {r : Runner}
      → Move
          (record { word = w; owner = stopping; runner = r })
          (record { word = ts_stopping; owner = idle; runner = r })
  call_join :
      {w : ThreadState} {r : Runner}
      → w ≢ ts_ready
      → Move
          (record { word = w; owner = idle; runner = r })
          (record { word = w; owner = joining; runner = r })
  join_ends :
      {w : ThreadState}
      → Move
          (record { word = w; owner = joining; runner = finished })
          (record { word = w; owner = joined; runner = absent })
  join_fails :
      {w : ThreadState} {r : Runner}
      → Move
          (record { word = w; owner = joining; runner = r })
          (record { word = w; owner = idle; runner = r })
  set_ready :
      {w : ThreadState} {r : Runner}
      → Move
          (record { word = w; owner = joined; runner = r })
          (record { word = ts_ready; owner = idle; runner = r })
  start_returns :
      {w : ThreadState} {o : Owner}
      → Move
          (record { word = w; owner = o; runner = on_start })
          (record { word = w; owner = o; runner = swapping })
  start_throws :
      {w : ThreadState} {o : Owner}
      → Move
          (record { word = w; owner = o; runner = on_start })
          (record { word = w; owner = o; runner = last })
  swap :
      {o : Owner}
      → Move
          (record { word = ts_starting; owner = o; runner = swapping })
          (record { word = ts_running; owner = o; runner = testing })
  swap_fails :
      {w : ThreadState} {o : Owner}
      → w ≢ ts_starting
      → Move
          (record { word = w; owner = o; runner = swapping })
          (record { word = w; owner = o; runner = testing })
  enter :
      {w : ThreadState} {o : Owner}
      → w ≢ ts_stopping
      → Move
          (record { word = w; owner = o; runner = testing })
          (record { word = w; owner = o; runner = processing })
  stop_seen :
      {o : Owner}
      → Move
          (record { word = ts_stopping; owner = o; runner = testing })
          (record { word = ts_stopping; owner = o; runner = leaving })
  continues :
      {w : ThreadState} {o : Owner}
      → Move
          (record { word = w; owner = o; runner = processing })
          (record { word = w; owner = o; runner = testing })
  ends :
      {w : ThreadState} {o : Owner}
      → Move
          (record { word = w; owner = o; runner = processing })
          (record { word = w; owner = o; runner = leaving })
  leave :
      {w : ThreadState} {o : Owner}
      → Move
          (record { word = w; owner = o; runner = leaving })
          (record { word = ts_stopping; owner = o; runner = on_stop })
  stop_returns :
      {w : ThreadState} {o : Owner}
      → Move
          (record { word = w; owner = o; runner = on_stop })
          (record { word = w; owner = o; runner = last })
  set_stopped :
      {w : ThreadState} {o : Owner}
      → Move
          (record { word = w; owner = o; runner = last })
          (record { word = ts_stopped; owner = o; runner = finished })

-- The constructor.
abbrev pub ready : Situation
ready = record { word = ts_ready; owner = idle; runner = absent }

pub data Run : Situation → Situation → Type 0 where
  halt : {s : Situation} → Run s s
  next : {a b c : Situation} → Move a b → Run b c → Run a c
