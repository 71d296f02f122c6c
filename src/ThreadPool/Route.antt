-- ===== src/ThreadPool/Route.antt =====
-- Where `execute` of code/ThreadPoolReactor.hpp puts an item.
use mlnotes.Base.{
  ℕ, zero, suc, ◌+◌, ◌%◌, ◌^◌, ◌≤◌, ◌<◌, ◌≡◌, ◌≢◌, refl, true, false, some, List, [], ◌∷◌, arith,
  length, get_elem?, ◌==◌, ltb, ap,
}
use native.Mathlib.Nat.{mod-lt}
use mlnotes.ThreadPool.{WorkQueue, Pool, execute}
use mlnotes.ThreadPool.Reactor.{Reactor, set_at, capacity, pool_at, execute_hash}

module _ {Q : Type 0} where
  pub length-set_at :
      (i : ℕ) (p : Pool Q) (pools : List (Pool Q)) → length (set_at i p pools) ≡ length pools
  unfolding set_at
  length-set_at zero p [] = refl
  length-set_at (suc i) p [] = refl
  length-set_at zero p (x ∷ xs) = refl
  length-set_at (suc i) p (x ∷ xs) = ap suc (length-set_at i p xs)

  pub get_elem?-inside :
      (i : ℕ) (pools : List (Pool Q))
      → i < length pools
      → (p : Pool Q) × (get_elem? pools i ≡ some p)
  get_elem?-inside i [] h = ground arith
  get_elem?-inside zero (p ∷ ps) h = (p, refl)
  get_elem?-inside (suc i) (p ∷ ps) h = get_elem?-inside i ps (omega arith)

  get_elem?-set_at_same :
      (i : ℕ) (p : Pool Q) (pools : List (Pool Q))
      → i < length pools
      → get_elem? (set_at i p pools) i ≡ some p
  unfolding set_at
  get_elem?-set_at_same i p [] h = ground arith
  get_elem?-set_at_same zero p (x ∷ xs) h = refl
  get_elem?-set_at_same (suc i) p (x ∷ xs) h = get_elem?-set_at_same i p xs (omega arith)

  get_elem?-set_at_other :
      (i j : ℕ) (p : Pool Q) (pools : List (Pool Q))
      → j ≢ i
      → get_elem? (set_at i p pools) j ≡ get_elem? pools j
  unfolding set_at
  get_elem?-set_at_other zero j p [] h = refl
  get_elem?-set_at_other (suc i) j p [] h = refl
  get_elem?-set_at_other zero zero p (x ∷ xs) h = elim (h refl) [ ]
  get_elem?-set_at_other zero (suc j) p (x ∷ xs) h = refl
  get_elem?-set_at_other (suc i) zero p (x ∷ xs) h = refl
  get_elem?-set_at_other (suc i) (suc j) p (x ∷ xs) h =
      get_elem?-set_at_other i j p xs (λ e. h (ap suc e))

module _ {Item Q : Type 0} (work : WorkQueue Item Q) where
  pub submitted_lem :
      (item : Item) (hash_code : ℕ) (r : Reactor Q) (p : Pool Q) (n : ℕ)
      → capacity r ≡ n
      → 0 < n
      → n ≤ 2 ^ 31
      → get_elem? r.thread_pools (hash_code % n) ≡ some p
      → execute_hash work item hash_code r
        ≡ some (
          (execute work item p).0,
          record r { thread_pools = set_at (hash_code % n) (execute work item p).1 r.thread_pools },
        )
  unfolding execute_hash pool_at
  submitted_lem item hash_code r p n c some_pool few found =
      let positive : (n == 0) ≡ false = ground arith in
      let low : ltb (hash_code % n) (2 ^ 31) ≡ true = ground (arith, mod-lt hash_code some_pool) in
      rw (c, positive, low, found) refl

  -- An item that is submitted to a reactor of 1 to 2 ^ 31 pools goes to the pool that its hash
  -- leaves: the queue of that pool answers, that pool counts it, taken or refused, every other pool
  -- is as it was, and there are as many.
  pub execute_hash-routes :
      (item : Item) (hash_code : ℕ) (r : Reactor Q)
      → let n = length r.thread_pools in
        0 < n
        → n ≤ 2 ^ 31
        → (p : Pool Q) × (r' : Reactor Q) × (get_elem? r.thread_pools (hash_code % n) ≡ some p)
          × (execute_hash work item hash_code r ≡ some ((work.put item p.queue).0, r'))
          × (get_elem? r'.thread_pools (hash_code % n)
              ≡ some (record p {
                queue = (work.put item p.queue).1;
                input_counter = (p.input_counter + 1) % 2 ^ 64;
              }))
          × ((i : ℕ) → i ≢ hash_code % n → get_elem? r'.thread_pools i ≡ get_elem? r.thread_pools i)
          × (length r'.thread_pools ≡ n)
  unfolding execute
  execute_hash-routes item hash_code r some_pool few =
      let pools = r.thread_pools in
      let n = length pools in
      let i = hash_code % n in
      let inside : i < n = mod-lt hash_code some_pool in
      let found = get_elem?-inside i pools inside in
      let p = found.0 in
      let done = (execute work item p).1 in
      let whole : capacity r ≡ n = unfold capacity in omega arith in
      (
        p,
        record r { thread_pools = set_at i done pools },
        found.1,
        submitted_lem item hash_code r p n whole some_pool few found.1,
        unfold execute in get_elem?-set_at_same i done pools inside,
        λ j other. get_elem?-set_at_other i j done pools other,
        length-set_at i done pools,
      )
