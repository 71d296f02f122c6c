-- ===== src/Latch.antt =====
-- code/Latch.cpp: a thread in `attempt` and a thread in `open`, step by step. The latch is read and
-- written outside the mutex. The condition variable is that of POSIX: a wait gives the mutex up and
-- sleeps in one step, ends after a notification, after its timeout or for no reason, and takes the
-- mutex again; a notification wakes those who sleep and nobody else.
pub mod Wakeup
mod Tests
use mlnotes.Base.{Bool, true, false, List, [], ◌∷◌, ◌≡◌, ◌≢◌}

pub data Timeout : Type 0 where
  no_wait : Timeout
  may_wait : Timeout

-- Where a thread in `attempt` stands: before the test of the latch, before the mutex, in the wait
-- without the mutex, woken but without the mutex, and returned.
pub data Waiter : Type 0 where
  before_test : Timeout → Waiter
  before_mutex : Waiter
  asleep : Waiter
  woken : Waiter
  returned : Bool → Waiter

-- Where a thread in `open` stands: before the store, before the mutex, in the block of the mutex,
-- returned.
pub data Opener : Type 0 where
  before_store : Opener
  before_notify : Opener
  notifying : Opener
  opened : Opener

pub record State : Type 0 where
  pub unlatched : Bool
  pub waiter : Waiter
  pub opener : Opener

-- `notifyAll`
abbrev pub notify_all : Waiter → Waiter
notify_all asleep = woken
notify_all w = w

pub data Label : Type 0 where
  by_attempt : Label
  by_open : Label
  -- A wait that ends at its timeout or for no reason.
  spontaneous : Label

-- The steps. The waiter takes the mutex only while the opener is not in its block.
pub data Step : Label → State → State → Type 0 where
  test_open :
      {tm : Timeout} {o : Opener}
      → Step by_attempt
          (record { unlatched = true; waiter = before_test tm; opener = o })
          (record { unlatched = true; waiter = returned true; opener = o })
  test_no_wait :
      {o : Opener}
      → Step by_attempt
          (record { unlatched = false; waiter = before_test no_wait; opener = o })
          (record { unlatched = false; waiter = returned false; opener = o })
  test_closed :
      {o : Opener}
      → Step by_attempt
          (record { unlatched = false; waiter = before_test may_wait; opener = o })
          (record { unlatched = false; waiter = before_mutex; opener = o })
  wait :
      {l : Bool} {o : Opener}
      → o ≢ notifying
      → Step by_attempt
          (record { unlatched = l; waiter = before_mutex; opener = o })
          (record { unlatched = l; waiter = asleep; opener = o })
  wake :
      {l : Bool} {o : Opener}
      → Step spontaneous
          (record { unlatched = l; waiter = asleep; opener = o })
          (record { unlatched = l; waiter = woken; opener = o })
  test_again :
      {l : Bool} {o : Opener}
      → o ≢ notifying
      → Step by_attempt
          (record { unlatched = l; waiter = woken; opener = o })
          (record { unlatched = l; waiter = returned l; opener = o })
  set_latch :
      {l : Bool} {w : Waiter}
      → Step by_open
          (record { unlatched = l; waiter = w; opener = before_store })
          (record { unlatched = true; waiter = w; opener = before_notify })
  lock :
      {l : Bool} {w : Waiter}
      → Step by_open
          (record { unlatched = l; waiter = w; opener = before_notify })
          (record { unlatched = l; waiter = w; opener = notifying })
  notify :
      {l : Bool} {w : Waiter}
      → Step by_open
          (record { unlatched = l; waiter = w; opener = notifying })
          (record { unlatched = l; waiter = notify_all w; opener = opened })

-- A closed latch that one thread attempts, ready to wait, and another opens.
abbrev pub start : State
start = record { unlatched = false; waiter = before_test may_wait; opener = before_store }

pub data Run : State → List Label → State → Type 0 where
  halt : {s : State} → Run s [] s
  next : {a b c : State} {l : Label} {ls : List Label} → Step l a b → Run b ls c → Run a (l ∷ ls) c
