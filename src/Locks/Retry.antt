-- ===== src/Locks/Retry.antt =====
-- When the loops of code/Details.hpp and code/Semaphore.cpp end.
use mlnotes.Base.{
  ℕ, zero, suc, ◌+◌, ◌*◌, ◌≡◌, ◌≢◌, refl, List, [], ◌∷◌, ◌++◌, replicate, ltb, if◌then◌else◌,
}
use mlnotes.Locks.{
  Result, ok, e_timedout, e_deadlk, e_perm, e_intr, e_again, e_other, WaitOutcome, returned,
  refused, thrown, Warning, warns, criticals, lock_failed, deadlock_detected, decrement_failed,
  lock_timeout, lock_loop, sem_wait, sem_try_wait,
}

-- What is logged for `n` timeouts after the first `counter`.
abbrev pub logged : ℕ → ℕ → List Warning
logged counter zero = []
logged counter (suc n) =
    let seconds = lock_timeout * (counter + 1) in
    (if ltb 5 (counter + 1) then criticals seconds else warns seconds) ∷ logged (counter + 1) n

-- The end of a wait for a lock by the result of a call that is no timeout.
abbrev pub lock_end : Result → WaitOutcome
lock_end ok = returned
lock_end e_deadlk = thrown deadlock_detected
lock_end r = thrown lock_failed

lock_loop-end :
    (counter : ℕ) (r : Result) (rs : List Result)
    → (r ≢ e_timedout)
    → lock_loop counter (r ∷ rs) ≡ (lock_end r, [])
unfolding lock_loop
lock_loop-end counter ok rs h = refl
lock_loop-end counter e_timedout rs h = elim (h refl) [ ]
lock_loop-end counter e_deadlk rs h = refl
lock_loop-end counter e_perm rs h = refl
lock_loop-end counter e_intr rs h = refl
lock_loop-end counter e_again rs h = refl
lock_loop-end counter e_other rs h = refl

-- A timed lock goes on over any number of timeouts, one line logged for each with the seconds so far,
-- critical from the sixth on, and ends at the first other result: it returns on 0 and throws on an
-- error, a deadlock by its own message.
pub lock_loop_lem :
    (n counter : ℕ) (r : Result) (rs : List Result)
    → r ≢ e_timedout
    → lock_loop counter (replicate n e_timedout ++ (r ∷ rs)) ≡ (lock_end r, logged counter n)
unfolding lock_loop
lock_loop_lem zero counter r rs h = lock_loop-end counter r rs h
lock_loop_lem (suc n) counter r rs h = rw (lock_loop_lem n (counter + 1) r rs h) refl

-- The end of a semaphore's wait, and of its trial, by a result that is no interruption.
abbrev pub wait_end : Result → WaitOutcome
wait_end ok = returned
wait_end r = thrown decrement_failed

abbrev pub try_end : Result → WaitOutcome
try_end ok = returned
try_end e_again = refused
try_end r = thrown decrement_failed

sem_end :
    (r : Result) (rs : List Result)
    → r ≢ e_intr
    → (sem_wait (r ∷ rs) ≡ wait_end r) × (sem_try_wait (r ∷ rs) ≡ try_end r)
unfolding sem_wait sem_try_wait
sem_end ok rs h = (refl, refl)
sem_end e_timedout rs h = (refl, refl)
sem_end e_deadlk rs h = (refl, refl)
sem_end e_perm rs h = (refl, refl)
sem_end e_intr rs h = elim (h refl) [ ]
sem_end e_again rs h = (refl, refl)
sem_end e_other rs h = (refl, refl)

-- Both waits on a semaphore begin again after any number of interruptions and end at the first other
-- result: they return on success, the trial answers false where it would block, and every other
-- error is thrown.
pub sem_retry_lem :
    (n : ℕ) (r : Result) (rs : List Result)
    → r ≢ e_intr
    → (sem_wait (replicate n e_intr ++ (r ∷ rs)) ≡ wait_end r)
      × (sem_try_wait (replicate n e_intr ++ (r ∷ rs)) ≡ try_end r)
unfolding sem_wait sem_try_wait
sem_retry_lem zero r rs h = sem_end r rs h
sem_retry_lem (suc n) r rs h = sem_retry_lem n r rs h
