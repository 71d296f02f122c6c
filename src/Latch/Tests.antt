-- ===== src/Latch/Tests.antt =====
-- A run of the latch of code/Latch.cpp in which the waiter sleeps before the latch is opened.
use mlnotes.Base.{true, List, [], ◌∷◌, ◌≡◌, refl, arith}
use mlnotes.Latch.{
  State, returned, opened, Label, by_attempt, by_open, test_closed, wait, set_latch, lock, notify,
  test_again, start, Run, halt, next,
}
use mlnotes.Latch.Wakeup.{NoneSpontaneous, attempt-returns}

abbrev answered : State
answered = record { unlatched = true; waiter = returned true; opener = opened }

abbrev order : List Label
order = by_attempt ∷ by_attempt ∷ by_open ∷ by_open ∷ by_open ∷ by_attempt ∷ []

answered-Run : Run start order answered
answered-Run = next test_closed (
    next (wait (λ e. ground arith))
      (next set_latch (next lock (next notify (next (test_again (λ e. ground arith)) halt)))))

order-NoneSpontaneous : NoneSpontaneous order
order-NoneSpontaneous = (
  λ e. ground arith,
  (
    λ e. ground arith,
    (λ e. ground arith, (λ e. ground arith, (λ e. ground arith, (λ e. ground arith, _)))),
  ),
)

attempt-returns_example : (true ≡ true) × (answered.unlatched ≡ true)
attempt-returns_example =
    attempt-returns order answered true answered-Run order-NoneSpontaneous refl
