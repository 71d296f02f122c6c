-- ===== src/Locks/Setup.antt =====
-- The constructors of code/Mutex.cpp, code/ReadWriteMutex.cpp and code/Condition.cpp: an object of POSIX
-- is made with an attributes object, which lives as long as the constructor. An argument is whether a
-- call returns 0.
use mlnotes.Base.{
  ℕ, ◌+◌, ◌≡◌, ◌↔◌, refl, Bool, true, false, ◌&&◌, List, [], ◌∷◌, arith, if◌then◌else◌,
}

-- How a constructor ends: it returns, or throws with one of the messages.
pub data SetupOutcome : Type 0 where
  constructed : SetupOutcome
  initialization_failed : SetupOutcome
  type_failed : SetupOutcome
  shared_failed : SetupOutcome

pub data Event : Type 0 where
  attributes_initialised : Event
  attributes_destroyed : Event
  object_initialised : Event

-- The settings of an attributes object that is initialised: the first that fails destroys it. Each
-- comes with the message of its exception.
unfoldable pub set_attributes : List (Bool × SetupOutcome) → SetupOutcome × List Event
set_attributes [] = (constructed, [])
set_attributes ((true, failure) ∷ rs) = set_attributes rs
set_attributes ((false, failure) ∷ rs) = (failure, attributes_destroyed ∷ [])

-- The constructor of the attributes object, the initialisation, and the attributes' destructor.
unfoldable pub with_attributes :
    Bool → List (Bool × SetupOutcome) → Bool → SetupOutcome × List Event
with_attributes false settings object = (initialization_failed, [])
with_attributes true settings object = elim (set_attributes settings).0 [
  | constructed ↦
      if object
      then (constructed, attributes_initialised ∷ object_initialised ∷ attributes_destroyed ∷ [])
      else (initialization_failed, attributes_initialised ∷ attributes_destroyed ∷ [])
  | failure ↦ (failure, attributes_initialised ∷ (set_attributes settings).1)
]

unfoldable pub new_mutex : Bool → Bool → Bool → Bool → SetupOutcome × List Event
new_mutex attributes type shared mutex =
    with_attributes attributes ((type, type_failed) ∷ (shared, shared_failed) ∷ []) mutex

unfoldable pub new_read_write_mutex : Bool → Bool → Bool → SetupOutcome × List Event
new_read_write_mutex attributes shared lock =
    with_attributes attributes ((shared, shared_failed) ∷ []) lock

unfoldable pub new_condition : Bool → Bool → Bool → SetupOutcome × List Event
new_condition attributes shared condition =
    with_attributes attributes ((shared, shared_failed) ∷ []) condition

abbrev initialised : List Event → ℕ
initialised [] = 0
initialised (attributes_initialised ∷ es) = 1 + initialised es
initialised (_ ∷ es) = initialised es

abbrev destroyed : List Event → ℕ
destroyed [] = 0
destroyed (attributes_destroyed ∷ es) = 1 + destroyed es
destroyed (_ ∷ es) = destroyed es

abbrev objects : List Event → ℕ
objects [] = 0
objects (object_initialised ∷ es) = 1 + objects es
objects (_ ∷ es) = objects es

-- The attributes are destroyed as often as they are initialised, the constructor returns exactly when
-- every call succeeds, and then alone there is an object.
abbrev pub Tidy : SetupOutcome × List Event → Bool → Type 0
Tidy r every =
    (destroyed r.1 ≡ initialised r.1)
    × ((r.0 ≡ constructed) ↔ (every ≡ true))
    × (objects r.1 ≡ (if every then 1 else 0))

new_mutex-Tidy :
    (attributes type shared object : Bool)
    → Tidy (new_mutex attributes type shared object) (attributes && (type && (shared && object)))
unfolding new_mutex with_attributes set_attributes
new_mutex-Tidy false type shared object = (refl, (λ e. ground arith, λ e. ground arith), refl)
new_mutex-Tidy true false shared object = (refl, (λ e. ground arith, λ e. ground arith), refl)
new_mutex-Tidy true true false object = (refl, (λ e. ground arith, λ e. ground arith), refl)
new_mutex-Tidy true true true false = (refl, (λ e. ground arith, λ e. ground arith), refl)
new_mutex-Tidy true true true true = (refl, (λ e. refl, λ e. refl), refl)

new_shared-Tidy :
    (attributes shared object : Bool)
    → Tidy
        (with_attributes attributes ((shared, shared_failed) ∷ []) object)
        (attributes && (shared && object))
unfolding with_attributes set_attributes
new_shared-Tidy false shared object = (refl, (λ e. ground arith, λ e. ground arith), refl)
new_shared-Tidy true false object = (refl, (λ e. ground arith, λ e. ground arith), refl)
new_shared-Tidy true true false = (refl, (λ e. ground arith, λ e. ground arith), refl)
new_shared-Tidy true true true = (refl, (λ e. refl, λ e. refl), refl)

-- The constructors of mutexes, read-write mutexes and conditions leak nothing, also when they throw:
-- attributes are destroyed as often as they are initialised; a constructor returns exactly when every
-- call succeeds, and only then has it initialised its object.
pub setup-Tidy :
    (attributes type shared object : Bool)
    → Tidy (new_mutex attributes type shared object) (attributes && (type && (shared && object)))
      × Tidy (new_read_write_mutex attributes shared object) (attributes && (shared && object))
      × Tidy (new_condition attributes shared object) (attributes && (shared && object))
unfolding new_read_write_mutex new_condition
setup-Tidy attributes type shared object = (
  new_mutex-Tidy attributes type shared object,
  new_shared-Tidy attributes shared object,
  new_shared-Tidy attributes shared object,
)
