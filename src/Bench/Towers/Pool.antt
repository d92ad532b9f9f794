-- ===== src/Bench/Towers/Pool.antt =====
-- towers_main.c: the pool of nodes that main links, and the pegs on it.
use rv32i_pipeline_fpga.Common.{
  ℕ, zero, suc, ◌+◌, ◌-◌, ◌<◌, ◌≡◌, refl, sym, ap₂, subst, fun_ext, none, some, List, [], ◌∷◌,
  length, ◌==◌, update, arith, Bool-cases, false, inl, inr,
}
use rv32i_pipeline_fpga.Bench.Towers.{
  Store, free_list, peg_a, peg_b, peg_c, list_init, linked_pool, towers_init, towers_init_loop,
}
use rv32i_pipeline_fpga.Bench.Towers.Chains.{Places, Chain, Holds}

-- The pool of `n + 1` nodes as a chain.
module _ (n : ℕ) (s : Store) where
  abbrev pub pool : Store
  pool = linked_pool (suc n) s

  pool_places : Places
  pool_places = record { place = λ i. 0; depth = λ i. n - i }

  pub pool_values : ℕ → ℕ → List ℕ
  pool_values zero i = []
  pool_values (suc k) i = pool.val i ∷ pool_values k (i + 1)

  pub length-pool_values : (k i : ℕ) → length (pool_values k i) ≡ k
  unfolding pool_values
  length-pool_values zero i = refl
  length-pool_values (suc k) i = omega (arith, length-pool_values k (i + 1))

  pool-Chain :
      (k i : ℕ)
      → i + k ≡ n
      → Chain pool_places pool.val pool.next free_list (some i) (pool_values (suc k) i)
  unfolding pool_values pool_places linked_pool
  pool-Chain zero i e = (i, refl, refl, omega arith, refl, ground arith)
  pool-Chain (suc k) i e =
      let inner : (i == n) ≡ false = ground arith in
      let next : pool.next i ≡ some (i + 1) = ground arith in
      (
        i,
        refl,
        refl,
        omega (arith, length-pool_values (suc k) (i + 1)),
        refl,
        subst (λ t. Chain pool_places pool.val pool.next free_list t (pool_values (suc k) (i + 1)))
            (sym next) (pool-Chain k (i + 1) (omega arith)),
      )

  -- Before the pegs are set up, with no list but the four in the store.
  abbrev pub pool_content : ℕ → List ℕ
  pool_content = update (λ q. []) free_list (pool_values (suc n) 0)

  -- With the pegs emptied, as `towers_init` begins.
  abbrev pub emptied : Store
  emptied = list_init peg_c (list_init peg_b (list_init peg_a pool))

  pub emptied-Holds :
      ((q : ℕ) → 3 < q → s.head q ≡ none)
      → ((q : ℕ) → 3 < q → s.size q ≡ 0)
      → Holds emptied pool_content
  unfolding linked_pool list_init
  emptied-Holds no_head no_size = record {
    places = pool_places;
    chains = λ q. elim (Bool-cases (q == free_list)) [
      | inl is_free ↦
          let e : free_list ≡ q = ground arith in
          let c : Chain pool_places pool.val pool.next q (some 0) (pool_values (suc n) 0) =
            subst (λ r. Chain pool_places pool.val pool.next r (some 0) (pool_values (suc n) 0)) e
              (pool-Chain n 0 (omega arith)) in
          let at : emptied.head q ≡ some 0 = ground arith in
          let all : pool_content q ≡ pool_values (suc n) 0 = ground arith in
          subst (Chain pool_places pool.val pool.next q (emptied.head q)) (sym all) (
            subst (λ t. Chain pool_places pool.val pool.next q t (pool_values (suc n) 0)) (sym at)
              c)
      | inr not_free ↦ rw not_free (ground (arith, no_head q))
    ];
    sizes = λ q pos. ground (arith, no_size q);
  }

three_times {ℓ} :
    {A : Type ℓ} (f : ℕ → A) (z : A)
    → update (update (update (update (update (update f 1 z) 2 z) 3 z) 1 z) 2 z) 3 z
      ≡ update (update (update f 1 z) 2 z) 3 z
three_times f z = fun_ext (λ r. ground arith)

-- The lists that `towers_init` empties may as well be empty before.
pub init-again :
    (n : ℕ) (s : Store)
    → towers_init n (list_init peg_c (list_init peg_b (list_init peg_a s))) ≡ towers_init n s
unfolding towers_init list_init
init-again n s =
    ap₂
      (λ size head.
        towers_init_loop n (record s { num_discs = n; num_moves = 0; size = size; head = head }))
      (three_times s.size 0) (three_times s.head none)
