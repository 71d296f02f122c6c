-- ===== src/Locks/Tests.antt =====
-- The waits of code/Details.hpp and code/Semaphore.cpp at concrete results.
use mlnotes.Base.{true, false, ◌≡◌, [], ◌∷◌, arith}
use mlnotes.Locks.{
  ok, e_timedout, e_intr, e_again, returned, refused, thrown, decrement_failed, warns, lock_loop,
  sem_wait, sem_try_wait,
}
use mlnotes.Locks.Setup.{Tidy, new_mutex, new_read_write_mutex, new_condition, setup-Tidy}
use mlnotes.Locks.Retry.{lock_loop_lem, sem_retry_lem}

lock_loop_lem_example :
    lock_loop 0 (e_timedout ∷ e_timedout ∷ ok ∷ []) ≡ (returned, warns 60 ∷ warns 120 ∷ [])
lock_loop_lem_example = lock_loop_lem 2 0 ok [] (λ e. ground arith)

sem_retry_lem_example :
    (sem_wait (e_intr ∷ e_again ∷ []) ≡ thrown decrement_failed)
    × (sem_try_wait (e_intr ∷ e_again ∷ []) ≡ refused)
sem_retry_lem_example = sem_retry_lem 1 e_again [] (λ e. ground arith)

setup-Tidy_example :
    Tidy (new_mutex true true false true) false
    × Tidy (new_read_write_mutex true false true) false
    × Tidy (new_condition true false true) false
setup-Tidy_example = setup-Tidy true true false true
