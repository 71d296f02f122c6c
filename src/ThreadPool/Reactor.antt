-- ===== src/ThreadPool/Reactor.antt =====
-- code/ThreadPoolReactor.hpp: a pool of thread pools, each item routed to one of them.
use mlnotes.Base.{
  ℕ, zero, suc, ◌+◌, ◌%◌, ◌^◌, Bool, Option, none, some, List, [], ◌∷◌, ◌++◌, map, length,
  get_elem?, ◌==◌, if◌then◌else◌, ◌>>=◌, add32, to_int32,
}
use mlnotes.Base.Int.{ℤ, pos, negsuc}
use mlnotes.ThreadPool.{WorkQueue, Pool, increase_capacity, size, numbered, new_pool, stop, execute}

pub record Reactor (Q : Type 0) : Type 0 where
  pub thread_pools : List (Pool Q)
  pub name : List ℕ

-- `NonStrictRoundRobin`: the result, and the count after the call.
unfoldable pub round_robin : ℕ → ℕ × ℕ
round_robin count = (count, (count + 1) % 2 ^ 64)

-- The element at an index, changed.
unfoldable pub set_at {ℓ} : {A : Type ℓ} → ℕ → A → List A → List A
set_at i a [] = []
set_at zero a (x ∷ xs) = a ∷ xs
set_at (suc i) a (x ∷ xs) = x ∷ set_at i a xs

module _ {Q : Type 0} where
  unfoldable pub capacity : Reactor Q → ℕ
  capacity r = length r.thread_pools % 2 ^ 32

  unfoldable pub first_size : List (Pool Q) → ℕ
  first_size [] = 0
  first_size (p ∷ ps) = size p

  unfoldable pub per_pool_capacity : Reactor Q → ℕ
  per_pool_capacity r = first_size r.thread_pools

  unfoldable pub increase_per_pool_capacity : Reactor Q → ℕ → Reactor Q
  increase_per_pool_capacity r capacity_per_pool = record r {
    thread_pools = map (λ p. increase_capacity p capacity_per_pool) r.thread_pools;
  }

module _ {Item Q : Type 0} (work : WorkQueue Item Q) where
  -- The loop of `increaseCapacity`: pools of `each` tasks, whose names count down.
  unfoldable pub push_pools : List ℕ → ℕ → ℕ → List (Pool Q) → List (Pool Q)
  push_pools name zero each pools = pools
  push_pools name (suc n) each pools =
      push_pools name n each (pools ++ (new_pool work each (numbered name n) ∷ []))

  unfoldable pub increase_reactor : Reactor Q → ℕ → ℕ → Reactor Q
  increase_reactor r n capacity_per_pool =
      let old = per_pool_capacity r in
      let grown = increase_per_pool_capacity r capacity_per_pool in
      record grown {
        thread_pools = push_pools r.name n (add32 old capacity_per_pool) grown.thread_pools;
      }

  unfoldable pub new_reactor : ℕ → ℕ → List ℕ → Reactor Q
  new_reactor n capacity_per_pool name =
      increase_reactor (record { thread_pools = []; name = name }) n capacity_per_pool

  unfoldable pub stop_all : Reactor Q → Reactor Q
  stop_all r = record r { thread_pools = map (stop work) r.thread_pools }

  -- The element at an index of int: a negative one is outside the deque, `none`.
  unfoldable pub pool_at : List (Pool Q) → ℤ → Option (ℕ × Pool Q)
  pool_at pools (pos i) = get_elem? pools i >>= (λ p. some (i, p))
  pool_at pools (negsuc i) = none

  -- With no pool, the remainder is undefined: `none`.
  unfoldable pub execute_hash : Item → ℕ → Reactor Q → Option (Bool × Reactor Q)
  execute_hash item hash_code r =
      if capacity r == 0
      then none
      else let index = to_int32 (hash_code % capacity r) in
        pool_at r.thread_pools index >>= (λ at.
          let done = execute work item at.1 in
          some (done.0, record r { thread_pools = set_at (at.0) (done.1) r.thread_pools }))

  -- `execute` with the affinity of a round robin, whose count is passed on.
  unfoldable pub execute_next : Item → ℕ → Reactor Q → Option (ℕ × Bool × Reactor Q)
  execute_next item count r =
      let (index, next) = round_robin count in
      execute_hash item index r >>= (λ done. some (next, done.0, done.1))
