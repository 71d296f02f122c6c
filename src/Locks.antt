-- ===== src/Locks.antt =====
-- The waits of code/Details.hpp, code/Semaphore.cpp, code/Condition.cpp, code/Mutex.cpp and
-- code/ReadWriteMutex.cpp. What the
-- calls of POSIX return, one after the other, is a list; `stuck` is a call that has not returned.
pub mod Retry
pub mod Setup
mod Tests
use mlnotes.Base.{
  ℕ, zero, suc, ◌+◌, ◌*◌, ◌/◌, ◌%◌, ◌≡◌, Bool, true, false, List, [], ◌∷◌, ltb, if◌then◌else◌,
}

-- What a call returns: 0, or an error.
pub data Result : Type 0 where
  ok : Result
  e_timedout : Result
  e_deadlk : Result
  e_perm : Result
  e_intr : Result
  e_again : Result
  e_other : Result

pub data LockError : Type 0 where
  deadlock_detected : LockError
  lock_failed : LockError
  not_acquired : LockError
  unlock_failed : LockError
  decrement_failed : LockError
  wait_failed : LockError

-- What the caller of a wait sees.
pub data WaitOutcome : Type 0 where
  returned : WaitOutcome
  refused : WaitOutcome
  thrown : LockError → WaitOutcome
  stuck : WaitOutcome

pub data Warning : Type 0 where
  warns : ℕ → Warning
  criticals : ℕ → Warning

abbrev pub lock_timeout : ℕ
lock_timeout = 60

-- The loop of the timed lock, with the number of timeouts so far; the seconds are logged.
unfoldable pub lock_loop : ℕ → List Result → WaitOutcome × List Warning
lock_loop counter [] = (stuck, [])
lock_loop counter (ok ∷ rs) = (returned, [])
lock_loop counter (e_timedout ∷ rs) =
    let later = lock_loop (counter + 1) rs in
    let seconds = lock_timeout * (counter + 1) in
    (later.0, (if ltb 5 (counter + 1) then criticals seconds else warns seconds) ∷ later.1)
lock_loop counter (e_deadlk ∷ rs) = (thrown deadlock_detected, [])
lock_loop counter (e_perm ∷ rs) = (thrown lock_failed, [])
lock_loop counter (e_intr ∷ rs) = (thrown lock_failed, [])
lock_loop counter (e_again ∷ rs) = (thrown lock_failed, [])
lock_loop counter (e_other ∷ rs) = (thrown lock_failed, [])

-- The lock without a time.
unfoldable pub lock_once : List Result → WaitOutcome
lock_once [] = stuck
lock_once (ok ∷ rs) = returned
lock_once (r ∷ rs) = thrown lock_failed

-- `Mutex::lock`: the unchecked mutex has no timeout.
unfoldable pub lock : Bool → List Result → WaitOutcome × List Warning
lock unchecked rs = if unchecked then (lock_once rs, []) else lock_loop 0 rs

-- `lock_read` and `lock_write` of `ReadWriteMutex`, which has the timed lock.
unfoldable pub lock_read : List Result → WaitOutcome × List Warning
lock_read rs = lock_loop 0 rs

unfoldable pub lock_write : List Result → WaitOutcome × List Warning
lock_write rs = lock_loop 0 rs

unfoldable pub unlock : Result → WaitOutcome
unlock ok = returned
unlock e_perm = thrown not_acquired
unlock r = thrown unlock_failed

-- `Semaphore::wait`: an interrupted wait begins again.
unfoldable pub sem_wait : List Result → WaitOutcome
sem_wait [] = stuck
sem_wait (ok ∷ rs) = returned
sem_wait (e_intr ∷ rs) = sem_wait rs
sem_wait (e_timedout ∷ rs) = thrown decrement_failed
sem_wait (e_deadlk ∷ rs) = thrown decrement_failed
sem_wait (e_perm ∷ rs) = thrown decrement_failed
sem_wait (e_again ∷ rs) = thrown decrement_failed
sem_wait (e_other ∷ rs) = thrown decrement_failed

-- `Semaphore::tryWait`; `refused` is false.
unfoldable pub sem_try_wait : List Result → WaitOutcome
sem_try_wait [] = stuck
sem_try_wait (ok ∷ rs) = returned
sem_try_wait (e_again ∷ rs) = refused
sem_try_wait (e_intr ∷ rs) = sem_try_wait rs
sem_try_wait (e_timedout ∷ rs) = thrown decrement_failed
sem_try_wait (e_deadlk ∷ rs) = thrown decrement_failed
sem_try_wait (e_perm ∷ rs) = thrown decrement_failed
sem_try_wait (e_other ∷ rs) = thrown decrement_failed

-- The `timespec` of `Condition::wait(mtx, millis)`: seconds and nanoseconds.
unfoldable pub timespec_of : ℕ → ℕ × ℕ
timespec_of millis = (millis / 1000, millis % 1000 * 1000000)

-- Its result; `refused` is false.
unfoldable pub timed_wait : Result → WaitOutcome
timed_wait ok = returned
timed_wait e_timedout = refused
timed_wait r = thrown wait_failed
