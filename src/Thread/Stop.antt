-- ===== src/Thread/Stop.antt =====
-- What `stop` of code/Thread.cpp brings about, over the runs of the owner and the thread.
use mlnotes.Base.{◌≡◌, ◌≢◌, ◌⊎◌, inl, refl, arith, ℕ, ◌+◌}
use mlnotes.Thread.{
  ts_stopping, ts_stopped, starting, creating, absent, finished, Situation, Move, ready, Run, halt,
  next, call_start, set_starting, create, create_fails, call_stop, set_stopping, call_join,
  join_ends, join_fails, set_ready, start_returns, start_throws, swap, swap_fails, enter, stop_seen,
  continues, ends, leave, stop_returns, set_stopped,
}
use mlnotes.Thread.Alone.{Run-IsAlone, ready-IsAlone}

-- How often `onProcess` is called in a run, and how often a join makes the object ready again.
abbrev enters : {a b : Situation} → Move a b → ℕ
enters (enter e) = 1
enters _ = 0

abbrev readies : {a b : Situation} → Move a b → ℕ
readies set_ready = 1
readies _ = 0

abbrev pub entries : {a b : Situation} → Run a b → ℕ
entries halt = 0
entries (next m r) = enters m + entries r

abbrev pub restarts : {a b : Situation} → Run a b → ℕ
restarts halt = 0
restarts (next m r) = readies m + restarts r

-- The object is told to stop, or has stopped, and nobody starts it.
record Stopping (s : Situation) : Type 0 where
  not_starting : (s.owner ≢ starting) × (s.owner ≢ creating)
  told :
      (s.word ≡ ts_stopping)
      ⊎ ((s.word ≡ ts_stopped) × ((s.runner ≡ finished) ⊎ (s.runner ≡ absent)))

Move-Stopping : {a b : Situation} (m : Move a b) → Stopping a → readies m ≡ 0 → Stopping b
Move-Stopping call_start h k = record {
  not_starting = ground (arith, h.not_starting, h.told);
  told = ground (arith, h.not_starting, h.told);
}
Move-Stopping set_starting h k = record {
  not_starting = ground (arith, h.not_starting, h.told);
  told = ground (arith, h.not_starting, h.told);
}
Move-Stopping create h k = record {
  not_starting = ground (arith, h.not_starting, h.told);
  told = ground (arith, h.not_starting, h.told);
}
Move-Stopping create_fails h k = record {
  not_starting = ground (arith, h.not_starting, h.told);
  told = ground (arith, h.not_starting, h.told);
}
Move-Stopping (call_stop e) h k = record {
  not_starting = ground (arith, h.not_starting, h.told);
  told = ground (arith, h.not_starting, h.told);
}
Move-Stopping set_stopping h k = record {
  not_starting = ground (arith, h.not_starting, h.told);
  told = ground (arith, h.not_starting, h.told);
}
Move-Stopping (call_join e) h k = record {
  not_starting = ground (arith, h.not_starting, h.told);
  told = ground (arith, h.not_starting, h.told);
}
Move-Stopping join_ends h k = record {
  not_starting = ground (arith, h.not_starting, h.told);
  told = ground (arith, h.not_starting, h.told);
}
Move-Stopping join_fails h k = record {
  not_starting = ground (arith, h.not_starting, h.told);
  told = ground (arith, h.not_starting, h.told);
}
Move-Stopping set_ready h e = absurd (omega arith)
Move-Stopping start_returns h k = record {
  not_starting = ground (arith, h.not_starting, h.told);
  told = ground (arith, h.not_starting, h.told);
}
Move-Stopping start_throws h k = record {
  not_starting = ground (arith, h.not_starting, h.told);
  told = ground (arith, h.not_starting, h.told);
}
Move-Stopping swap h k = record {
  not_starting = ground (arith, h.not_starting, h.told);
  told = ground (arith, h.not_starting, h.told);
}
Move-Stopping (swap_fails e) h k = record {
  not_starting = ground (arith, h.not_starting, h.told);
  told = ground (arith, h.not_starting, h.told);
}
Move-Stopping (enter e) h k = record {
  not_starting = ground (arith, h.not_starting, h.told);
  told = ground (arith, h.not_starting, h.told);
}
Move-Stopping stop_seen h k = record {
  not_starting = ground (arith, h.not_starting, h.told);
  told = ground (arith, h.not_starting, h.told);
}
Move-Stopping continues h k = record {
  not_starting = ground (arith, h.not_starting, h.told);
  told = ground (arith, h.not_starting, h.told);
}
Move-Stopping ends h k = record {
  not_starting = ground (arith, h.not_starting, h.told);
  told = ground (arith, h.not_starting, h.told);
}
Move-Stopping leave h k = record {
  not_starting = ground (arith, h.not_starting, h.told);
  told = ground (arith, h.not_starting, h.told);
}
Move-Stopping stop_returns h k = record {
  not_starting = ground (arith, h.not_starting, h.told);
  told = ground (arith, h.not_starting, h.told);
}
Move-Stopping set_stopped h k = record {
  not_starting = ground (arith, h.not_starting, h.told);
  told = ground (arith, h.not_starting, h.told);
}

Move-enters : {a b : Situation} (m : Move a b) → Stopping a → enters m ≡ 0
Move-enters call_start h = refl
Move-enters set_starting h = refl
Move-enters create h = refl
Move-enters create_fails h = refl
Move-enters (call_stop e) h = refl
Move-enters set_stopping h = refl
Move-enters (call_join e) h = refl
Move-enters join_ends h = refl
Move-enters join_fails h = refl
Move-enters set_ready h = refl
Move-enters start_returns h = refl
Move-enters start_throws h = refl
Move-enters swap h = refl
Move-enters (swap_fails e) h = refl
Move-enters (enter e) h = absurd (ground (arith, h.told))
Move-enters stop_seen h = refl
Move-enters continues h = refl
Move-enters ends h = refl
Move-enters leave h = refl
Move-enters stop_returns h = refl
Move-enters set_stopped h = refl

Run-entries : {a b : Situation} (r : Run a b) → Stopping a → restarts r ≡ 0 → entries r ≡ 0
Run-entries halt h k = refl
Run-entries (next m r) h k =
    let here = Move-enters m h in
    let rest = Run-entries r (Move-Stopping m h (omega arith)) (omega arith) in omega arith

-- A stop is heard: from a state that is reached from a new object and in which the state word tells the
-- thread to stop, `onProcess` is not called any more, whatever the owner and the thread do, until a
-- join has made the object ready again.
pub stop-heard :
    (s b : Situation) (before : Run ready s) (after : Run s b)
    → s.word ≡ ts_stopping
    → restarts after ≡ 0
    → entries after ≡ 0
stop-heard s b before after told k =
    let h = Run-IsAlone before ready-IsAlone in
    Run-entries after
      (record { not_starting = ground (arith, h.test_holds, h.created); told = inl told }) k
