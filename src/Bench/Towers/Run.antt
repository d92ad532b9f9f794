-- ===== src/Bench/Towers/Run.antt =====
-- towers_main.c: the whole program returns 0.
use native.Mathlib.Nat.{pow-le-pow_right}
use rv32i_pipeline_fpga.Common.{
  ℕ, zero, suc, Bool, true, if◌then◌else◌, ◌+◌, ◌-◌, ◌%◌, ◌^◌, ◌<◌, ◌≤◌, ◌≡◌, refl, sym, ap, subst,
  ◌∙◌, Option, none, some, List, [], ◌∷◌, ◌++◌, length, update, arith, eq_self, false,
}
use mathlib.Core.List.{append-nil}
use rv32i_pipeline_fpga.Bench.Towers.{
  Store, free_list, peg_a, peg_b, peg_c, list_get_size, towers_clear, towers_solve, towers_verify,
  towers_verify_loop, linked_pool, main, ◌>>=◌, towers_init, towers_solve_h,
}
use rv32i_pipeline_fpga.Bench.Towers.Pool.{
  pool_content, emptied, length-pool_values, emptied-Holds, init-again,
}
use rv32i_pipeline_fpga.Bench.Towers.Chains.{Places, Chain, Holds}
use rv32i_pipeline_fpga.Bench.Towers.Setup.{tower, init-Leaves, clear-Leaves}
use rv32i_pipeline_fpga.Bench.Towers.Solve.{carry, towers_solve_h_lem}

-- The values `j + 1` to `j + k`, the smallest first.
abbrev pub counting : ℕ → ℕ → List ℕ
counting zero j = []
counting (suc k) j = suc j ∷ counting k (suc j)

tower-counting : (left k : ℕ) → tower left (counting k left) ≡ counting (left + k) 0
tower-counting zero k = ap (λ m. counting m 0) (omega arith)
tower-counting (suc left) k = tower-counting left (suc k) ∙ ap (λ m. counting m 0) (omega arith)

length-counting : (k j : ℕ) → length (counting k j) ≡ k
length-counting zero j = refl
length-counting (suc k) j = omega (arith, length-counting k (suc j))

verify_loop-Chain :
    (fuel k j : ℕ) (ptr : Option ℕ) (w : Places) (q : ℕ) (s : Store)
    → k ≤ fuel
    → j + k < 2 ^ 32
    → Chain w s.val s.next q ptr (counting k j)
    → s.num_moves ≡ (2 ^ s.num_discs - 1) % 2 ^ 32
    → towers_verify_loop fuel ptr j s ≡ some 0
unfolding towers_verify_loop
verify_loop-Chain fuel zero j ptr w q s enough few c moves =
    rw (c, towers_verify_loop, moves, eq_self ((2 ^ s.num_discs - 1) % 2 ^ 32)) refl
verify_loop-Chain zero (suc k) j ptr w q s enough few c moves = absurd (omega arith)
verify_loop-Chain (suc fuel) (suc k) j ptr w q s enough few (i, at, _, _, holds, more) moves =
    let counted : (j + 1) % 2 ^ 32 ≡ suc j = omega arith in
    rw (at, towers_verify_loop, holds, counted)
      (ground (
        arith,
        verify_loop-Chain fuel k (suc j) (s.next i) w q s (omega arith) (omega arith) more moves,
      ))

assoc {ℓ κ μ} :
    {A : Type ℓ} {B : Type κ} {C : Type μ} (r : Option A) (f : A → Option B) (g : B → Option C)
    → (r >>= (λ a. f a >>= g)) ≡ (r >>= f >>= g)
assoc none f g = refl
assoc (some a) f g = refl

-- Up to 30 discs the shift of an `int` and the count of moves are in range.
few_moves : (n : ℕ) → n ≤ 30 → 2 ^ n ≤ 2 ^ 30
few_moves n few = pow-le-pow_right {n = 2} (omega arith) few

-- A set-up store: the tower on peg A, no disc elsewhere, no node free.
record IsReady (n : ℕ) (s : Store) : Type 0 where
  content : ℕ → List ℕ
  holds : Holds s content
  on_a : content peg_a ≡ counting n 0
  on_b : content peg_b ≡ []
  on_c : content peg_c ≡ []
  none_free : length (content free_list) ≡ 0
  discs : s.num_discs ≡ n
  moves : s.num_moves ≡ 0

-- A solved one: the tower on peg C.
record IsSolved (n : ℕ) (s : Store) : Type 0 where
  content : ℕ → List ℕ
  holds : Holds s content
  on_a : content peg_a ≡ []
  on_b : content peg_b ≡ []
  on_c : content peg_c ≡ counting n 0
  none_free : length (content free_list) ≡ 0
  discs : s.num_discs ≡ n
  moves : s.num_moves ≡ 2 ^ n - 1

solve-IsSolved :
    (n : ℕ) (s : Store)
    → suc n ≤ 30
    → IsReady (suc n) s
    → (t : Store) × (towers_solve s ≡ some t) × IsSolved (suc n) t
unfolding towers_solve
solve-IsSolved n s few r =
    let whole = counting (suc n) 0 in
    let (t, t_eq, t_holds, t_discs, t_moves) =
      towers_solve_h_lem n s r.content peg_a peg_b peg_c whole [] (length-counting (suc n) 0)
        (omega arith) r.holds (r.on_a ∙ sym (append-nil whole))
        (omega (arith, few_moves (suc n) few, r.moves)) in
    (
      t,
      ap (λ m. towers_solve_h m peg_a peg_b peg_c s) r.discs ∙ t_eq,
      record {
        content = carry peg_a peg_c [] whole r.content;
        holds = t_holds;
        on_a = refl;
        on_b = r.on_b;
        on_c = ap (λ c. whole ++ c) r.on_c ∙ append-nil whole;
        none_free = r.none_free;
        discs = t_discs ∙ r.discs;
        moves = omega (arith, r.moves);
      },
    )

verify-zero : (n : ℕ) (s : Store) → n ≤ 30 → IsSolved n s → towers_verify s ≡ some 0
unfolding towers_verify list_get_size
verify-zero n s few r =
    let size_of : (q k : ℕ) → 0 < q → length (r.content q) ≡ k → k < 2 ^ 32 → s.size q ≡ k =
      λ q k pos len small. omega (arith, r.holds.sizes q pos) in
    let size_a : s.size peg_a ≡ 0 =
      size_of peg_a 0 (omega arith) (ap length r.on_a) (omega arith) in
    let size_b : s.size peg_b ≡ 0 =
      size_of peg_b 0 (omega arith) (ap length r.on_b) (omega arith) in
    let size_c : s.size peg_c ≡ s.num_discs =
      size_of peg_c n (omega arith) (ap length r.on_c ∙ length-counting n 0) (omega arith)
      ∙ sym r.discs in
    let moves : s.num_moves ≡ (2 ^ n - 1) % 2 ^ 32 = omega (arith, r.moves, few_moves n few) in
    rw (size_a, size_b, size_c, eq_self s.num_discs)
      (verify_loop-Chain (s.num_discs + 1) n 0 (s.head peg_c) r.holds.places peg_c s
        (omega (arith, r.discs)) (omega arith)
        (subst (Chain r.holds.places s.val s.next peg_c (s.head peg_c)) r.on_c
          (r.holds.chains peg_c))
        (moves ∙ ap (λ m. (2 ^ m - 1) % 2 ^ 32) (sym r.discs)))

init-IsReady :
    (n : ℕ) (s : Store) (content : ℕ → List ℕ)
    → Holds s content
    → length (content free_list) ≡ n
    → (t : Store) × (towers_init n s ≡ some t) × IsReady n t
init-IsReady n s content h len =
    let (f, n_eq, t, t_eq, t_holds, t_discs, t_moves) =
      init-Leaves n s content h (omega (arith, len)) in
    (
      t,
      t_eq,
      record {
        content =
            update (update (update (update content free_list f) peg_a (tower n [])) peg_b []) peg_c
              [];
        holds = t_holds;
        on_a = tower-counting n 0 ∙ ap (λ m. counting m 0) (omega arith);
        on_b = refl;
        on_c = refl;
        none_free = omega arith;
        discs = t_discs;
        moves = t_moves;
      },
    )

-- The pegs are cleared and set up again from any contents that use the whole pool.
clear-IsReady :
    (n : ℕ) (s : Store) (content : ℕ → List ℕ)
    → n ≤ 30
    → Holds s content
    → length (content free_list)
        + length (content peg_a)
        + length (content peg_b)
        + length (content peg_c)
      ≡ n
    → s.num_discs ≡ n
    → (t : Store) × (towers_clear s ≡ some t) × IsReady n t
unfolding towers_clear
clear-IsReady n s content few h whole s_discs =
    let (f, f_len, (t, t_eq, t_holds, t_discs, t_moves)) =
      clear-Leaves peg_a s content (omega arith) h (omega arith) in
    let (g, g_len, (u, u_eq, u_holds, u_discs, u_moves)) =
      clear-Leaves peg_b t _ (omega arith) t_holds (omega (arith, whole)) in
    let (k, k_len, (v, v_eq, v_holds, v_discs, v_moves)) =
      clear-Leaves peg_c u _ (omega arith) u_holds (omega (arith, whole)) in
    let free : length k ≡ n = omega (arith, k_len, g_len, f_len, whole) in
    let (w, w_eq, w_ready) = init-IsReady n v _ v_holds free in
    let discs : v.num_discs ≡ n = v_discs ∙ u_discs ∙ t_discs ∙ s_discs in
    (w, rw (t_eq, u_eq, v_eq) (ap (λ m. towers_init m v) discs ∙ w_eq), w_ready)

-- With `PREALLOCATE` the tower is solved once before.
preallocate-IsReady :
    (preallocate : Bool) (n : ℕ) (s : Store)
    → suc n ≤ 30
    → IsReady (suc n) s
    → (t : Store) × (((if preallocate then towers_solve s else some s) >>= towers_clear) ≡ some t)
      × IsReady (suc n) t
preallocate-IsReady true n s few r =
    let (t, t_eq, d) = solve-IsSolved n s few r in
    rw t_eq (
      clear-IsReady (suc n) t d.content few d.holds
        (omega (
          arith,
          d.none_free,
          ap length d.on_a,
          ap length d.on_b,
          ap length d.on_c,
          length-counting (suc n) 0,
        ))
        d.discs)
preallocate-IsReady false n s few r =
    clear-IsReady (suc n) s r.content few r.holds
      (omega (
        arith,
        r.none_free,
        ap length r.on_a,
        ap length r.on_b,
        ap length r.on_c,
        length-counting (suc n) 0,
      ))
      r.discs

-- For every number of discs from 1 to 30, with and without `PREALLOCATE`, whatever the pool and the
-- four lists hold at the start (and no other list exists), the program returns 0, its
-- verification's success; no null pointer is followed and every loop and recursion ends.
pub main-zero :
    (preallocate : Bool) (n : ℕ) (s : Store)
    → suc n ≤ 30
    → ((q : ℕ) → 3 < q → s.head q ≡ none)
    → ((q : ℕ) → 3 < q → s.size q ≡ 0)
    → main preallocate (suc n) s ≡ some 0
unfolding main
main-zero preallocate n s few no_head no_size =
    let (t, t_eq, t_ready) =
      init-IsReady (suc n) (emptied n s) (pool_content n s) (emptied-Holds n s no_head no_size)
        (length-pool_values n s (suc n) 0) in
    let (u, u_eq, r) = preallocate-IsReady preallocate n t few t_ready in
    let (v, v_eq, d) = solve-IsSolved n u few r in
    rw (sym (init-again (suc n) (linked_pool (suc n) s)) ∙ t_eq) (
      assoc (if preallocate then towers_solve t else some t) towers_clear _
      ∙ rw (u_eq, v_eq) (verify-zero (suc n) v few d))
