-- ===== src/ThreadPool/Tests.antt =====
-- The theorems about code/ThreadPoolReactor.hpp at concrete inputs, over a queue of at most two items.
use mlnotes.Base.{
  ℕ, zero, suc, ◌+◌, ◌%◌, ◌^◌, ◌≡◌, ◌≢◌, refl, true, false, Option, none, some, List, [], ◌∷◌, ◌++◌,
  arith, ap, sym, length, get_elem?, ltb, if◌then◌else◌, codes,
}
use mathlib.Core.Option.{some-injective}
use mlnotes.ThreadPool.{WorkQueue, Pool}
use mlnotes.ThreadPool.Reactor.{Reactor, execute_hash, per_pool_capacity, first_size}
use mlnotes.ThreadPool.Uniform.{
  Call, grow, grow_pools, submit, halt, calls, all_added, Kept, calls-IsUniform,
}
use mlnotes.ThreadPool.Route.{execute_hash-routes}
use mlnotes.ThreadPool.Balance.{execute_all, Balanced, execute_all-Balanced}

abbrev front : List ℕ → Option ℕ × List ℕ
front [] = (none, [])
front (x ∷ xs) = (some x, xs)

abbrev at_most_two : WorkQueue ℕ (List ℕ)
at_most_two = record {
  put = λ x q. if ltb (length q) 2 then (true, q ++ (x ∷ [])) else (false, q);
  get = front;
  clear = λ q. [];
  disable = λ q. [];
  enable = λ q. q;
  count = length;
  empty = [];
}

abbrev idle : Pool (List ℕ)
idle = record {
  queue = [];
  tasks = codes "p:0" ∷ [];
  name = codes "p";
  input_counter = 0;
  output_counter = 0;
}

abbrev two_pools : Reactor (List ℕ)
two_pools = record { thread_pools = idle ∷ idle ∷ []; name = codes "r" }

abbrev some_calls : List (Call ℕ)
some_calls = submit 7 5 ∷ grow 3 4294967295 ∷ grow_pools 2 ∷ submit 8 9 ∷ halt ∷ grow 1 1 ∷ []

calls-IsUniform_example :
    Kept at_most_two two_pools
      (all_added at_most_two some_calls)
      (calls at_most_two two_pools some_calls)
unfolding per_pool_capacity first_size
calls-IsUniform_example =
    calls-IsUniform at_most_two some_calls two_pools (refl, (refl, tt))
      (omega arith, (tt, (tt, (omega arith, (tt, (tt, tt)))))) (omega arith)

execute_hash-routes_example :
    (p : Pool (List ℕ)) × (r' : Reactor (List ℕ)) × (get_elem? two_pools.thread_pools 1 ≡ some p)
    × (execute_hash at_most_two 7 5 two_pools ≡ some ((at_most_two.put 7 p.queue).0, r'))
    × (get_elem? r'.thread_pools 1
        ≡ some (record p {
          queue = (at_most_two.put 7 p.queue).1;
          input_counter = (p.input_counter + 1) % 2 ^ 64;
        }))
    × ((i : ℕ) → i ≢ 1 → get_elem? r'.thread_pools i ≡ get_elem? two_pools.thread_pools i)
    × (length r'.thread_pools ≡ 2)
execute_hash-routes_example =
    execute_hash-routes at_most_two 7 5 two_pools (omega arith) (omega arith)

none_given :
    (k : ℕ) (p : Pool (List ℕ)) → get_elem? two_pools.thread_pools k ≡ some p → p.input_counter ≡ 0
none_given zero p e = ap (λ x. x.input_counter) (sym (some-injective idle p e))
none_given (suc zero) p e = ap (λ x. x.input_counter) (sym (some-injective idle p e))
none_given (suc (suc k)) p e = ground arith

execute_all-Balanced_example :
    Balanced at_most_two 2 5 (execute_all at_most_two (1 ∷ 2 ∷ 3 ∷ 4 ∷ 5 ∷ []) 0 two_pools)
execute_all-Balanced_example =
    execute_all-Balanced at_most_two (1 ∷ 2 ∷ 3 ∷ 4 ∷ 5 ∷ []) two_pools 2 (omega arith)
      (omega arith)
      (record {
        many = refl;
        within = omega arith;
        given = λ k p e inside. let g = none_given k p e in ground (arith, g);
      })
