-- ===== src/Latch/Wakeup.antt =====
-- What a thread that attempts the latch of code/Latch.cpp while another opens it can rely on.
use mlnotes.Base.{Bool, true, false, List, [], ◌∷◌, ◌≡◌, ◌≢◌, refl, All, subst, arith}
use mlnotes.Latch.{
  no_wait, may_wait, Waiter, before_test, before_mutex, asleep, woken, returned, Opener,
  before_store, before_notify, notifying, opened, State, notify_all, Label, by_attempt, by_open,
  spontaneous, Step, test_open, test_no_wait, test_closed, wait, wake, test_again, set_latch, lock,
  notify, start, Run, halt, next,
}

-- The waiter sleeps, and the opener has returned.
abbrev pub missed : State
missed = record { unlatched = true; waiter = asleep; opener = opened }

abbrev pub NoneSpontaneous : List Label → Type 0
NoneSpontaneous ls = All (λ k. k ≢ spontaneous) ls

stays_asleep : {ls : List Label} {s : State} → Run missed ls s → NoneSpontaneous ls → s ≡ missed
stays_asleep halt h = refl
stays_asleep (next wake r) h = absurd (h.0 refl)

by_open-quiet : by_open ≢ spontaneous
by_open-quiet e = ground arith

by_attempt-quiet : by_attempt ≢ spontaneous
by_attempt-quiet e = ground arith

-- The latch is tested before the mutex is taken, so a run of both threads leads to a state in which
-- the latch is open, the opener has returned and the waiter sleeps; and from there no run moves
-- unless the wait ends for no reason: the notification is lost.
pub notification_lost :
    (ls : List Label) × Run start ls missed
    × NoneSpontaneous ls
    × ((rest : List Label) (s : State) → Run missed rest s → NoneSpontaneous rest → s ≡ missed)
notification_lost = (
  by_attempt ∷ by_open ∷ by_open ∷ by_open ∷ by_attempt ∷ [],
  next test_closed
      (next set_latch (next lock (next notify (next (wait (λ e. ground arith)) halt)))),
  (by_attempt-quiet, (by_open-quiet, (by_open-quiet, (by_open-quiet, (by_attempt-quiet, _))))),
  λ rest s. stays_asleep,
)

-- What holds of the waiter while no wait has ended by itself.
abbrev WaiterSound : Bool → Waiter → Type 0
WaiterSound l (before_test no_wait) = true ≡ false
WaiterSound l (before_test may_wait) = true ≡ true
WaiterSound l before_mutex = true ≡ true
WaiterSound l asleep = true ≡ true
WaiterSound l woken = l ≡ true
WaiterSound l (returned b) = (b ≡ true) × (l ≡ true)

abbrev OpenerSound : Bool → Opener → Type 0
OpenerSound l before_store = true ≡ true
OpenerSound l before_notify = l ≡ true
OpenerSound l notifying = l ≡ true
OpenerSound l opened = l ≡ true

record Sound (s : State) : Type 0 where
  waiter_sound : WaiterSound s.unlatched s.waiter
  opener_sound : OpenerSound s.unlatched s.opener

notify_all-Sound :
    (l : Bool) (w : Waiter) → l ≡ true → WaiterSound l w → WaiterSound l (notify_all w)
notify_all-Sound l (before_test tm) e h = h
notify_all-Sound l before_mutex e h = refl
notify_all-Sound l asleep e h = e
notify_all-Sound l woken e h = e
notify_all-Sound l (returned b) e h = h

open-Sound : (l : Bool) (w : Waiter) → WaiterSound l w → WaiterSound true w
open-Sound l (before_test no_wait) h = h
open-Sound l (before_test may_wait) h = h
open-Sound l before_mutex h = refl
open-Sound l asleep h = refl
open-Sound l woken h = refl
open-Sound l (returned b) h = (h.0, refl)

Step-Sound : {k : Label} {s s' : State} → Step k s s' → k ≢ spontaneous → Sound s → Sound s'
Step-Sound test_open q h = record { waiter_sound = (refl, refl); opener_sound = h.opener_sound }
Step-Sound test_no_wait q h = absurd (let never = h.waiter_sound in ground arith)
Step-Sound test_closed q h = record { waiter_sound = refl; opener_sound = h.opener_sound }
Step-Sound (wait free) q h = record { waiter_sound = refl; opener_sound = h.opener_sound }
Step-Sound wake q h = absurd (q refl)
Step-Sound (test_again free) q h = record {
  waiter_sound = (h.waiter_sound, h.waiter_sound);
  opener_sound = h.opener_sound;
}
Step-Sound (set_latch {l} {w}) q h = record {
  waiter_sound = open-Sound l w h.waiter_sound;
  opener_sound = refl;
}
Step-Sound lock q h = record { waiter_sound = h.waiter_sound; opener_sound = h.opener_sound }
Step-Sound (notify {l} {w}) q h = record {
  waiter_sound = notify_all-Sound l w h.opener_sound h.waiter_sound;
  opener_sound = h.opener_sound;
}

Run-Sound : {ls : List Label} {s s' : State} → Run s ls s' → NoneSpontaneous ls → Sound s → Sound s'
Run-Sound halt q h = h
Run-Sound (next step r) q h = Run-Sound r q.1 (Step-Sound step q.0 h)

-- On every run of both threads from a closed latch in which no wait ends by itself, an attempt that
-- has returned returned true, and the latch is open.
pub attempt-returns :
    (ls : List Label) (s : State) (b : Bool)
    → Run start ls s
    → NoneSpontaneous ls
    → s.waiter ≡ returned b
    → (b ≡ true) × (s.unlatched ≡ true)
attempt-returns ls s b r q e =
    let h = Run-Sound r q (record { waiter_sound = refl; opener_sound = refl }) in
    subst (λ w. WaiterSound s.unlatched w) e h.waiter_sound
