-- ===== src/ThreadPool/Uniform.antt =====
-- The pools of code/ThreadPoolReactor.hpp under every sequence of calls: how many there are, and how
-- large they are.
use mlnotes.Base.{
  ℕ, zero, suc, ◌+◌, ◌%◌, ◌^◌, ◌≤◌, ◌<◌, ◌≡◌, refl, Option, some, List, [], ◌∷◌, ◌++◌, arith, map,
  length, length-append, get_elem?, ◌>>=◌, add32, All, ap, sym, subst, ◌∙◌,
}
use mathlib.Core.Option.{some-injective}
use native.Mathlib.Nat.{mod-lt}
use mlnotes.ThreadPool.{
  WorkQueue, Pool, push_tasks, increase_capacity, size, numbered, new_pool, stop, execute,
}
use mlnotes.ThreadPool.Reactor.{
  Reactor, set_at, capacity, first_size, per_pool_capacity, increase_per_pool_capacity, push_pools,
  increase_reactor, stop_all, execute_hash,
}
use mlnotes.ThreadPool.Route.{length-set_at, get_elem?-inside, submitted_lem}

length-push_tasks :
    (name : List ℕ) (n : ℕ) (tasks : List (List ℕ))
    → length (push_tasks name n tasks) ≡ length tasks + n
unfolding push_tasks
length-push_tasks name zero tasks = omega arith
length-push_tasks name (suc n) tasks =
    length-push_tasks name n (tasks ++ (numbered name n ∷ []))
    ∙ omega (arith, length-append tasks (numbered name n ∷ []))

module _ {Q : Type 0} where
  size-increase_capacity : (p : Pool Q) (n : ℕ) → size (increase_capacity p n) ≡ add32 (size p) n
  unfolding size increase_capacity
  size-increase_capacity p n = omega (arith, length-push_tasks p.name n p.tasks)

  abbrev AllSize : ℕ → List (Pool Q) → Type 0
  AllSize k pools = All (λ p. size p ≡ k) pools

  -- All pools have as many tasks as the first.
  abbrev pub IsUniform : Reactor Q → Type 0
  IsUniform r = AllSize (per_pool_capacity r) r.thread_pools

  uniform_lem : (k : ℕ) (pools : List (Pool Q)) → AllSize k pools → AllSize (first_size pools) pools
  unfolding first_size
  uniform_lem k [] h = tt
  uniform_lem k (p ∷ ps) h = subst (λ s. AllSize s (p ∷ ps)) (sym h.0) h

  All-set_at :
      (k i : ℕ) (p : Pool Q) (pools : List (Pool Q))
      → size p ≡ k
      → AllSize k pools
      → AllSize k (set_at i p pools)
  unfolding set_at
  All-set_at k zero p [] e h = tt
  All-set_at k (suc i) p [] e h = tt
  All-set_at k zero p (x ∷ xs) e h = (e, h.1)
  All-set_at k (suc i) p (x ∷ xs) e h = (h.0, All-set_at k i p xs e h.1)

  AllSize-get :
      (k i : ℕ) (p : Pool Q) (pools : List (Pool Q))
      → AllSize k pools
      → get_elem? pools i ≡ some p
      → size p ≡ k
  AllSize-get k i p [] h e = ground arith
  AllSize-get k zero p (x ∷ xs) h e = ap size (sym (some-injective x p e)) ∙ h.0
  AllSize-get k (suc i) p (x ∷ xs) h e = AllSize-get k i p xs h.1 e

  AllSize-append :
      (k : ℕ) (pools : List (Pool Q)) (p : Pool Q)
      → AllSize k pools
      → size p ≡ k
      → AllSize k (pools ++ (p ∷ []))
  AllSize-append k [] p h e = (e, tt)
  AllSize-append k (x ∷ xs) p h e = (h.0, AllSize-append k xs p h.1 e)

  length-map : (f : Pool Q → Pool Q) (pools : List (Pool Q)) → length (map f pools) ≡ length pools
  length-map f [] = refl
  length-map f (p ∷ ps) = ap suc (length-map f ps)

  AllSize-grow :
      (k c : ℕ) (pools : List (Pool Q))
      → AllSize k pools
      → AllSize (add32 k c) (map (λ p. increase_capacity p c) pools)
  AllSize-grow k c [] h = tt
  AllSize-grow k c (p ∷ ps) h =
      (size-increase_capacity p c ∙ ap (λ s. add32 s c) h.0, AllSize-grow k c ps h.1)

-- A call of the reactor, with the hash that routes an item.
pub data Call (Item : Type 0) : Type 0 where
  grow : ℕ → ℕ → Call Item
  grow_pools : ℕ → Call Item
  submit : Item → ℕ → Call Item
  halt : Call Item

module _ {Item Q : Type 0} (work : WorkQueue Item Q) where
  size-new_pool : (n : ℕ) (name : List ℕ) → size (new_pool work n name) ≡ n % 2 ^ 32
  unfolding new_pool
  size-new_pool n name = size-increase_capacity _ n ∙ (unfold size in omega arith)

  size-execute : (item : Item) (p : Pool Q) → size (execute work item p).1 ≡ size p
  unfolding size execute
  size-execute item p = refl

  AllSize-stop : (pools : List (Pool Q)) → AllSize 0 (map (stop work) pools)
  unfolding size stop
  AllSize-stop [] = tt
  AllSize-stop (p ∷ ps) = (omega arith, AllSize-stop ps)

  AllSize-push :
      (k : ℕ) (name : List ℕ) (n : ℕ) (pools : List (Pool Q))
      → k < 2 ^ 32
      → AllSize k pools
      → AllSize k (push_pools work name n k pools)
  unfolding push_pools
  AllSize-push k name zero pools small h = h
  AllSize-push k name (suc n) pools small h =
      AllSize-push k name n (pools ++ (new_pool work k (numbered name n) ∷ [])) small (
        AllSize-append k pools (new_pool work k (numbered name n)) h
          (size-new_pool k (numbered name n) ∙ omega arith))

  length-push_pools :
      (each : ℕ) (name : List ℕ) (n : ℕ) (pools : List (Pool Q))
      → length (push_pools work name n each pools) ≡ length pools + n
  unfolding push_pools
  length-push_pools each name zero pools = omega arith
  length-push_pools each name (suc n) pools =
      length-push_pools each name n (pools ++ (new_pool work each (numbered name n) ∷ []))
      ∙ omega (arith, length-append pools (new_pool work each (numbered name n) ∷ []))

  pub call : Reactor Q → Call Item → Option (Reactor Q)
  call r (grow n each) = some (increase_reactor work r n each)
  call r (grow_pools each) = some (increase_per_pool_capacity r each)
  call r (submit item hash_code) = execute_hash work item hash_code r >>= (λ done. some done.1)
  call r halt = some (stop_all work r)

  pub calls : Reactor Q → List (Call Item) → Option (Reactor Q)
  calls r [] = some r
  calls r (c ∷ cs) = call r c >>= (λ r'. calls r' cs)

  -- How many pools a call adds.
  abbrev pub added : Call Item → ℕ
  added (grow n each) = n
  added (grow_pools each) = 0
  added (submit item hash_code) = 0
  added halt = 0

  abbrev pub all_added : List (Call Item) → ℕ
  all_added [] = 0
  all_added (c ∷ cs) = added c + all_added cs

  -- An item is submitted to some pool.
  abbrev Served : ℕ → Call Item → Type 0
  Served n (grow m each) = Unit
  Served n (grow_pools each) = Unit
  Served n (submit item hash_code) = 0 < n
  Served n halt = Unit

  -- From `n` pools on, no item is submitted before there is a pool.
  abbrev pub AllServed : ℕ → List (Call Item) → Type 0
  AllServed n [] = Unit
  AllServed n (c ∷ cs) = Served n c × AllServed (n + added c) cs

  -- The call succeeds, the invariant after it, and the number of pools.
  pub record Kept (r : Reactor Q) (n : ℕ) (got : Option (Reactor Q)) : Type 0 where
    pub after : Reactor Q
    pub done : got ≡ some after
    pub uniform : IsUniform after
    pub many : length after.thread_pools ≡ length r.thread_pools + n

  grow-Kept :
      (r : Reactor Q) (n each : ℕ) → IsUniform r → Kept r n (some (increase_reactor work r n each))
  unfolding increase_reactor increase_per_pool_capacity per_pool_capacity
  grow-Kept r n each h =
      let k = add32 (first_size r.thread_pools) each in
      let grown = map (λ p. increase_capacity p each) r.thread_pools in
      record {
        after = increase_reactor work r n each;
        done = refl;
        uniform = uniform_lem k (push_pools work r.name n k grown) (
            AllSize-push k r.name n grown (omega arith)
              (AllSize-grow (first_size r.thread_pools) each r.thread_pools h));
        many =
            length-push_pools k r.name n grown
            ∙ ap (λ l. l + n) (length-map (λ p. increase_capacity p each) r.thread_pools);
      }

  submit-Kept :
      (r : Reactor Q) (item : Item) (hash_code : ℕ)
      → 0 < length r.thread_pools
      → length r.thread_pools ≤ 2 ^ 31
      → IsUniform r
      → Kept r 0 (execute_hash work item hash_code r >>= (λ done. some done.1))
  unfolding per_pool_capacity
  submit-Kept r item hash_code some_pool few h =
      let n = length r.thread_pools in
      let i = hash_code % n in
      let k = first_size r.thread_pools in
      let (p, found) = get_elem?-inside i r.thread_pools (mod-lt hash_code some_pool) in
      let done = (execute work item p).1 in
      let whole : capacity r ≡ n = unfold capacity in omega arith in
      record {
        after = record r { thread_pools = set_at i done r.thread_pools };
        done = rw (submitted_lem work item hash_code r p n whole some_pool few found) refl;
        uniform = uniform_lem k (set_at i done r.thread_pools) (
            All-set_at k i done r.thread_pools
              (size-execute item p ∙ AllSize-get k i p r.thread_pools h found) h);
        many = length-set_at i done r.thread_pools ∙ omega arith;
      }

  call-Kept :
      (r : Reactor Q) (c : Call Item)
      → Served (length r.thread_pools) c
      → length r.thread_pools ≤ 2 ^ 31
      → IsUniform r
      → Kept r (added c) (call r c)
  unfolding call increase_per_pool_capacity per_pool_capacity stop_all
  call-Kept r (grow n each) served few h = grow-Kept r n each h
  call-Kept r (grow_pools each) served few h = record {
    after = increase_per_pool_capacity r each;
    done = refl;
    uniform = uniform_lem _ _ (AllSize-grow (first_size r.thread_pools) each r.thread_pools h);
    many = length-map (λ p. increase_capacity p each) r.thread_pools ∙ omega arith;
  }
  call-Kept r (submit item hash_code) served few h = submit-Kept r item hash_code served few h
  call-Kept r halt served few h = record {
    after = stop_all work r;
    done = refl;
    uniform = uniform_lem 0 _ (AllSize-stop r.thread_pools);
    many = length-map (stop work) r.thread_pools ∙ omega arith;
  }

  -- From a reactor whose pools all have the same size, every sequence of calls that add pools, add
  -- tasks to the pools, submit items or stop the pools, in which no item is submitted while there is
  -- no pool and which leads to at most 2 ^ 31 pools, succeeds and leads to a reactor whose pools all
  -- have the same size, also where the sizes wrap in uint32, with as many pools more as were added.
  pub calls-IsUniform :
      (cs : List (Call Item)) (r : Reactor Q)
      → IsUniform r
      → AllServed (length r.thread_pools) cs
      → length r.thread_pools + all_added cs ≤ 2 ^ 31
      → Kept r (all_added cs) (calls r cs)
  unfolding calls
  calls-IsUniform [] r h served few = record {
    after = r;
    done = refl;
    uniform = h;
    many = omega arith;
  }
  calls-IsUniform (c ∷ cs) r h served few =
      let first = call-Kept r c served.0 (omega arith) h in
      let rest =
        calls-IsUniform cs first.after first.uniform
          (subst (λ n. AllServed n cs) (sym first.many) served.1) (omega (arith, first.many)) in
      record {
        after = rest.after;
        done = rw first.done rest.done;
        uniform = rest.uniform;
        many = rest.many ∙ omega (arith, first.many);
      }
