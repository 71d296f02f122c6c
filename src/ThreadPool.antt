-- ===== src/ThreadPool.antt =====
-- code/ThreadPool.cpp and ThreadPool.hpp: the tasks of a pool, its queue of work and its counters.
-- The work queue is a parameter. A task is its name; what it runs is `on_process`.
pub mod Reactor
pub mod Uniform
pub mod Route
pub mod Balance
mod Tests
use mlnotes.Base.{
  ℕ, zero, suc, ◌+◌, ◌%◌, ◌^◌, ◌≡◌, Bool, true, false, Option, none, some, List, [], ◌∷◌, ◌++◌,
  length, codes, to_int32,
}
use mlnotes.Time.Text.{print_int}

-- The queue of work: whether an item is taken; an item, or none when the queue is disabled.
pub record WorkQueue (Item Q : Type 0) : Type 0 where
  pub put : Item → Q → Bool × Q
  pub get : Q → Option Item × Q
  pub clear : Q → Q
  pub disable : Q → Q
  pub enable : Q → Q
  pub count : Q → ℕ
  pub empty : Q

pub record Pool (Q : Type 0) : Type 0 where
  pub queue : Q
  pub tasks : List (List ℕ)
  pub name : List ℕ
  pub input_counter : ℕ
  pub output_counter : ℕ

-- What comes of an item that is run, and of a round of a task.
pub data Outcome : Type 0 where
  returns : Outcome
  throws : Outcome

pub data Next : Type 0 where
  stops : Next
  continues : Next

-- `m_name`, a colon and `int32ToString(capacity)`.
abbrev pub numbered : List ℕ → ℕ → List ℕ
numbered name n = name ++ (codes ":" ++ print_int 0 (to_int32 n))

-- The loop of `increaseCapacity`: the names count down.
unfoldable pub push_tasks : List ℕ → ℕ → List (List ℕ) → List (List ℕ)
push_tasks name zero tasks = tasks
push_tasks name (suc capacity) tasks =
    push_tasks name capacity (tasks ++ (numbered name capacity ∷ []))

module _ {Q : Type 0} where
  unfoldable pub increase_capacity : Pool Q → ℕ → Pool Q
  increase_capacity p capacity = record p { tasks = push_tasks p.name capacity p.tasks }

  unfoldable pub size : Pool Q → ℕ
  size p = length p.tasks % 2 ^ 32

module _ {Item Q : Type 0} (work : WorkQueue Item Q) where
  unfoldable pub new_pool : ℕ → List ℕ → Pool Q
  new_pool capacity name =
      increase_capacity
        (record {
          queue = work.empty;
          tasks = [];
          name = name;
          input_counter = 0;
          output_counter = 0;
        })
        capacity

  -- `m_tasks.clear()` joins the tasks.
  unfoldable pub stop : Pool Q → Pool Q
  stop p = record p { queue = work.disable p.queue; tasks = [] }

  unfoldable pub clear : Pool Q → Pool Q
  clear p = record p { queue = work.clear p.queue }

  unfoldable pub disable : Pool Q → Pool Q
  disable p = record p { queue = work.disable p.queue }

  unfoldable pub enable : Pool Q → Pool Q
  enable p = record p { queue = work.enable p.queue }

  unfoldable pub queue_size : Pool Q → ℕ
  queue_size p = work.count p.queue % 2 ^ 32

  unfoldable pub execute : Item → Pool Q → Bool × Pool Q
  execute f p =
      let r = work.put f p.queue in
      (r.0, record p { queue = r.1; input_counter = (p.input_counter + 1) % 2 ^ 64 })

  -- A round of a task; `run` is what an item does. An exception of an item is logged and dropped.
  unfoldable pub on_process : (Item → Outcome) → Pool Q → Next × Pool Q
  on_process run p =
      let r = work.get p.queue in
      elim (r.0) [
        | none ↦ (stops, record p { queue = r.1 })
        | some item ↦ elim (run item) [
          | returns ↦ (
            continues,
            record p { queue = r.1; output_counter = (p.output_counter + 1) % 2 ^ 64 },
          )
          | throws ↦ (continues, record p { queue = r.1 })
        ]
      ]
