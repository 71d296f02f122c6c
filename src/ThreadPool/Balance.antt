-- ===== src/ThreadPool/Balance.antt =====
-- The round robin of code/ThreadPoolReactor.hpp spreads items evenly over the pools.
use mlnotes.Base.{
  ℕ, suc, ◌+◌, ◌*◌, ◌%◌, ◌^◌, ◌≤◌, ◌<◌, ◌≡◌, ◌≢◌, refl, Bool, Option, some, List, [], ◌∷◌, arith,
  length, get_elem?, ltb, if◌then◌else◌, ◌>>=◌, ap, sym, subst, ◌∙◌,
}
use mathlib.Core.Option.{some-injective}
use native.Mathlib.Nat.{mul-add-mod_self_right, mod-eq_of_lt, suc-mul, le-mul_of_pos_right}
use native.Mathlib.Decide.{dec_lt}
use mlnotes.ThreadPool.{WorkQueue, Pool}
use mlnotes.ThreadPool.Reactor.{execute_hash, Reactor, round_robin, execute_next}
use mlnotes.ThreadPool.Route.{execute_hash-routes}

module _ {Item Q : Type 0} (work : WorkQueue Item Q) where
  -- One item after the other, with the count of the round robin.
  pub execute_all : List Item → ℕ → Reactor Q → Option (Reactor Q)
  execute_all [] count r = some r
  execute_all (item ∷ items) count r =
      execute_next work item count r >>= (λ done. execute_all items (done.0) (done.2))

  -- Of `m` pools, the first `s` have been given `q + 1` items and the others `q`.
  pub record IsSpread (r : Reactor Q) (m q s : ℕ) : Type 0 where
    pub many : length r.thread_pools ≡ m
    pub within : s < m
    pub given :
        (k : ℕ) (p : Pool Q)
        → get_elem? r.thread_pools k ≡ some p
        → k < m
        → p.input_counter ≡ q + (if ltb k s then 1 else 0)

  -- The next turn.
  record Turn (r : Reactor Q) (item : Item) (m q s : ℕ) : Type 0 where
    next_q : ℕ
    next_s : ℕ
    total : next_q * m + next_s ≡ q * m + s + 1
    answer : Bool
    after : Reactor Q
    done : execute_next work item (q * m + s) r ≡ some (q * m + s + 1, answer, after)
    spread : IsSpread after m next_q next_s

  -- The counts after item `q * m + s`, which goes to pool `s`.
  module _ (r : Reactor Q) (item : Item) (m q s : ℕ) (few : m ≤ 2 ^ 31)
      (small : q * m + s + 1 < 2 ^ 64) (h : IsSpread r m q s) where
    turn-routes :
        (p : Pool Q) × (r' : Reactor Q) × (get_elem? r.thread_pools s ≡ some p)
        × (execute_hash work item (q * m + s) r ≡ some ((work.put item p.queue).0, r'))
        × (get_elem? r'.thread_pools s
            ≡ some (record p {
              queue = (work.put item p.queue).1;
              input_counter = (p.input_counter + 1) % 2 ^ 64;
            }))
        × ((i : ℕ) → i ≢ s → get_elem? r'.thread_pools i ≡ get_elem? r.thread_pools i)
        × (length r'.thread_pools ≡ length r.thread_pools)
    turn-routes =
        let e : (q * m + s) % length r.thread_pools ≡ s =
          ap (λ n. (q * m + s) % n) h.many ∙ mul-add-mod_self_right q m s ∙ mod-eq_of_lt h.within in
        let some_pool : 0 < length r.thread_pools = omega (arith, h.many, h.within) in
        let few_pools : length r.thread_pools ≤ 2 ^ 31 = omega (arith, h.many) in
        let routed = execute_hash-routes work item (q * m + s) r some_pool few_pools in
        rw e at routed

    turn-counts :
        (k : ℕ) (p : Pool Q)
        → get_elem? (turn-routes.1).thread_pools k ≡ some p
        → k < m
        → p.input_counter ≡ q + (if ltb k (s + 1) then 1 else 0)
    turn-counts k p f inside =
        let t = turn-routes in
        let low : q ≤ q * m = le-mul_of_pos_right q (omega (arith, h.within)) in
        elim (dec_lt k s) [
          | yes before ↦
              let old = h.given k p (sym (t.5 k (λ e. omega arith)) ∙ f) inside in
              ground (arith, old)
          | no at_least ↦ elim (dec_lt s k) [
            | yes behind ↦
                let old = h.given k p (sym (t.5 k (λ e. omega arith)) ∙ f) inside in
                ground (arith, old)
            | no at ↦
                let here : k ≡ s = omega arith in
                let old = h.given s (t.0) (t.2) h.within in
                let new =
                  ap (λ x. x.input_counter)
                    (some-injective _ p
                      (sym (t.4) ∙ ap (get_elem? (t.1).thread_pools) (sym here) ∙ f)) in
                ground (arith, old, new)
          ]
        ]

    turn-done :
        (r' : Reactor Q) (answer : Bool)
        → execute_hash work item (q * m + s) r ≡ some (answer, r')
        → execute_next work item (q * m + s) r ≡ some (q * m + s + 1, answer, r')
    unfolding execute_next round_robin
    turn-done r' answer e =
        let next : (q * m + s + 1) % 2 ^ 64 ≡ q * m + s + 1 = omega arith in rw (e, next) refl

    turn : Turn r item m q s
    turn =
        let t = turn-routes in
        let many : length (t.1).thread_pools ≡ m = t.6 ∙ h.many in
        elim (dec_lt (s + 1) m) [
          | yes more ↦ record {
            next_q = q;
            next_s = s + 1;
            total = omega arith;
            answer = (work.put item (t.0).queue).0;
            after = t.1;
            done = turn-done (t.1) (work.put item (t.0).queue).0 (t.3);
            spread = record { many = many; within = more; given = turn-counts };
          }
          | no last ↦ record {
            next_q = suc q;
            next_s = 0;
            total = omega (arith, suc-mul q m, h.within);
            answer = (work.put item (t.0).queue).0;
            after = t.1;
            done = turn-done (t.1) (work.put item (t.0).queue).0 (t.3);
            spread = record {
              many = many;
              within = omega (arith, h.within);
              given = λ k p f inside. let now = turn-counts k p f inside in ground (arith, now);
            };
          }
        ]

  -- What the items leave, of which `n` are counted with those before.
  pub record Balanced (m n : ℕ) (got : Option (Reactor Q)) : Type 0 where
    pub q : ℕ
    pub s : ℕ
    pub total : q * m + s ≡ n
    pub after : Reactor Q
    pub done : got ≡ some after
    pub spread : IsSpread after m q s

  execute_from :
      (items : List Item) (r : Reactor Q) (m q s : ℕ)
      → m ≤ 2 ^ 31
      → q * m + s + length items < 2 ^ 64
      → IsSpread r m q s
      → Balanced m (q * m + s + length items) (execute_all items (q * m + s) r)
  unfolding execute_all
  execute_from [] r m q s few small h = record {
    q = q;
    s = s;
    total = omega arith;
    after = r;
    done = refl;
    spread = h;
  }
  execute_from (item ∷ items) r m q s few small h =
      let t = turn r item m q s few (omega arith) h in
      let rest =
        execute_from items t.after m t.next_q t.next_s few (omega (arith, t.total)) t.spread in
      record {
        q = rest.q;
        s = rest.s;
        total = rest.total ∙ omega (arith, t.total);
        after = rest.after;
        done = rw (t.done, sym t.total) rest.done;
        spread = rest.spread;
      }

  -- Items, fewer than 2 ^ 64 of them, that are submitted by round robin from its first count to a
  -- reactor of 1 to 2 ^ 31 pools that have counted none, are all passed on, and evenly: for `m`
  -- pools and `q * m + s` items, `s` below `m`, the first `s` pools have counted `q + 1` items and
  -- the others `q`.
  pub execute_all-Balanced :
      (items : List Item) (r : Reactor Q) (m : ℕ)
      → m ≤ 2 ^ 31
      → length items < 2 ^ 64
      → IsSpread r m 0 0
      → Balanced m (length items) (execute_all items 0 r)
  execute_all-Balanced items r m few small h =
      let none_yet : 0 * m + 0 ≡ 0 = omega arith in
      subst (λ n. Balanced m n (execute_all items 0 r)) {x = 0 + length items} (omega arith)
        (subst (λ c. Balanced m (c + length items) (execute_all items c r)) none_yet
          (execute_from items r m 0 0 few (omega (arith, none_yet)) h))
