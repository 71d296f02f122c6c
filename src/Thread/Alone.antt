-- ===== src/Thread/Alone.antt =====
-- What holds in every state that the threads of code/Thread.cpp reach.
use mlnotes.Base.{◌≡◌, ◌≢◌, ◌⊎◌, inl, refl, arith}
use mlnotes.Thread.{
  ts_ready, ts_starting, starting, creating, joined, absent, Situation, Move, ready, Run, halt,
  next, call_start, set_starting, create, create_fails, call_stop, set_stopping, call_join,
  join_ends, join_fails, set_ready, start_returns, start_throws, swap, swap_fails, enter, stop_seen,
  continues, ends, leave, stop_returns, set_stopped,
}

-- The owner goes on in `start` only from the ready state; a thread that has not been joined keeps the
-- word from being ready and the owner from creating another.
pub record IsAlone (s : Situation) : Type 0 where
  pub test_holds : s.owner ≡ starting → s.word ≡ ts_ready
  pub created : s.owner ≡ creating → s.word ≡ ts_starting
  pub single :
      (s.runner ≡ absent) ⊎ ((s.word ≢ ts_ready) × (s.owner ≢ creating) × (s.owner ≢ joined))

Move-IsAlone : {a b : Situation} → Move a b → IsAlone a → IsAlone b
Move-IsAlone call_start h = record {
  test_holds = ground (arith, h.test_holds, h.single);
  created = ground (arith, h.test_holds, h.created, h.single);
  single = ground (arith, h.test_holds, h.created, h.single);
}
Move-IsAlone set_starting h = record {
  test_holds = ground (arith, h.test_holds, h.single);
  created = ground (arith, h.test_holds, h.created, h.single);
  single = ground (arith, h.test_holds, h.created, h.single);
}
Move-IsAlone create h = record {
  test_holds = ground (arith, h.test_holds, h.single);
  created = ground (arith, h.test_holds, h.created, h.single);
  single = ground (arith, h.test_holds, h.created, h.single);
}
Move-IsAlone create_fails h = record {
  test_holds = ground (arith, h.test_holds, h.single);
  created = ground (arith, h.test_holds, h.created, h.single);
  single = ground (arith, h.test_holds, h.created, h.single);
}
Move-IsAlone (call_stop e) h = record {
  test_holds = ground (arith, h.test_holds, h.single);
  created = ground (arith, h.test_holds, h.created, h.single);
  single = ground (arith, h.test_holds, h.created, h.single);
}
Move-IsAlone set_stopping h = record {
  test_holds = ground (arith, h.test_holds, h.single);
  created = ground (arith, h.test_holds, h.created, h.single);
  single = ground (arith, h.test_holds, h.created, h.single);
}
Move-IsAlone (call_join e) h = record {
  test_holds = ground (arith, h.test_holds, h.single);
  created = ground (arith, h.test_holds, h.created, h.single);
  single = ground (arith, h.test_holds, h.created, h.single);
}
Move-IsAlone join_ends h = record {
  test_holds = ground (arith, h.test_holds, h.single);
  created = ground (arith, h.test_holds, h.created, h.single);
  single = ground (arith, h.test_holds, h.created, h.single);
}
Move-IsAlone join_fails h = record {
  test_holds = ground (arith, h.test_holds, h.single);
  created = ground (arith, h.test_holds, h.created, h.single);
  single = ground (arith, h.test_holds, h.created, h.single);
}
Move-IsAlone set_ready h = record {
  test_holds = ground (arith, h.test_holds, h.single);
  created = ground (arith, h.test_holds, h.created, h.single);
  single = ground (arith, h.test_holds, h.created, h.single);
}
Move-IsAlone start_returns h = record {
  test_holds = ground (arith, h.test_holds, h.single);
  created = ground (arith, h.test_holds, h.created, h.single);
  single = ground (arith, h.test_holds, h.created, h.single);
}
Move-IsAlone start_throws h = record {
  test_holds = ground (arith, h.test_holds, h.single);
  created = ground (arith, h.test_holds, h.created, h.single);
  single = ground (arith, h.test_holds, h.created, h.single);
}
Move-IsAlone swap h = record {
  test_holds = ground (arith, h.test_holds, h.single);
  created = ground (arith, h.test_holds, h.created, h.single);
  single = ground (arith, h.test_holds, h.created, h.single);
}
Move-IsAlone (swap_fails e) h = record {
  test_holds = ground (arith, h.test_holds, h.single);
  created = ground (arith, h.test_holds, h.created, h.single);
  single = ground (arith, h.test_holds, h.created, h.single);
}
Move-IsAlone (enter e) h = record {
  test_holds = ground (arith, h.test_holds, h.single);
  created = ground (arith, h.test_holds, h.created, h.single);
  single = ground (arith, h.test_holds, h.created, h.single);
}
Move-IsAlone stop_seen h = record {
  test_holds = ground (arith, h.test_holds, h.single);
  created = ground (arith, h.test_holds, h.created, h.single);
  single = ground (arith, h.test_holds, h.created, h.single);
}
Move-IsAlone continues h = record {
  test_holds = ground (arith, h.test_holds, h.single);
  created = ground (arith, h.test_holds, h.created, h.single);
  single = ground (arith, h.test_holds, h.created, h.single);
}
Move-IsAlone ends h = record {
  test_holds = ground (arith, h.test_holds, h.single);
  created = ground (arith, h.test_holds, h.created, h.single);
  single = ground (arith, h.test_holds, h.created, h.single);
}
Move-IsAlone leave h = record {
  test_holds = ground (arith, h.test_holds, h.single);
  created = ground (arith, h.test_holds, h.created, h.single);
  single = ground (arith, h.test_holds, h.created, h.single);
}
Move-IsAlone stop_returns h = record {
  test_holds = ground (arith, h.test_holds, h.single);
  created = ground (arith, h.test_holds, h.created, h.single);
  single = ground (arith, h.test_holds, h.created, h.single);
}
Move-IsAlone set_stopped h = record {
  test_holds = ground (arith, h.test_holds, h.single);
  created = ground (arith, h.test_holds, h.created, h.single);
  single = ground (arith, h.test_holds, h.created, h.single);
}

pub Run-IsAlone : {a b : Situation} → Run a b → IsAlone a → IsAlone b
Run-IsAlone halt h = h
Run-IsAlone (next s r) h = Run-IsAlone r (Move-IsAlone s h)

pub ready-IsAlone : IsAlone ready
ready-IsAlone = record { test_holds = λ e. refl; created = λ e. ground arith; single = inl refl }

-- In every state that is reached from a new object, no started thread is left, running or not yet
-- joined, when the state word is ready or the owner is in `start`, so that `start` never has two
-- threads run.
pub start-alone :
    (s : Situation)
    → Run ready s
    → (s.word ≡ ts_ready → s.runner ≡ absent)
      × (s.owner ≡ starting → s.runner ≡ absent)
      × (s.owner ≡ creating → s.runner ≡ absent)
start-alone s r =
    let h = Run-IsAlone r ready-IsAlone in
    (ground (arith, h.single), ground (arith, h.single, h.test_holds), ground (arith, h.single))
