-- ===== src/Bench/Towers/Setup.antt =====
-- towers_main.c: the pool, the set-up of the pegs and their clearing.
use rv32i_pipeline_fpga.Common.{
  ℕ, zero, suc, ◌+◌, ◌%◌, ◌^◌, ◌<◌, ◌≤◌, ◌≡◌, refl, ap, subst, ◌∙◌, fun_ext, some, List, [], ◌∷◌,
  length, ◌==◌, update, arith, true, Bool-cases, inl, inr,
}
use rv32i_pipeline_fpga.Bench.Towers.{
  Store, free_list, peg_a, peg_b, peg_c, list_init, list_get_size, list_clear_loop, list_clear,
  towers_init_loop, towers_init, is_positive,
}
use rv32i_pipeline_fpga.Bench.Towers.Chains.{Holds}
use rv32i_pipeline_fpga.Bench.Towers.Steps.{Leaves, shift, push-Leaves, pop-Leaves, Holds-counters}

-- The values `left` down to 1 pushed on `xs`.
abbrev pub tower : ℕ → List ℕ → List ℕ
tower zero xs = xs
tower (suc left) xs = tower left (suc left ∷ xs)

cons_of_length :
    (xs : List ℕ) (k : ℕ)
    → suc k ≤ length xs
    → (v : ℕ) × (vs : List ℕ) × (xs ≡ v ∷ vs) × (k ≤ length vs)
cons_of_length [] k h = absurd (omega arith)
cons_of_length (v ∷ vs) k h = (v, vs, refl, omega arith)

init_loop-Leaves :
    (left : ℕ) (s : Store) (content : ℕ → List ℕ)
    → Holds s content
    → left ≤ length (content free_list)
    → (f : List ℕ) × (length f + left ≡ length (content free_list))
      × Leaves
          (towers_init_loop left s)
          s
          0
          (update (update content free_list f) peg_a (tower left (content peg_a)))
unfolding towers_init_loop
init_loop-Leaves zero s content h enough = (
  content free_list,
  omega arith,
  (s, refl, subst (Holds s) (fun_ext (λ r. ground arith)) h, refl, omega arith),
)
init_loop-Leaves (suc left) s content h enough =
    let (v, vs, e, more) = cons_of_length (content free_list) left enough in
    let c = shift free_list peg_a vs (suc left) content in
    let (t, t_eq, t_holds, t_discs, t_moves) =
      push-Leaves s content peg_a v (suc left) vs h (omega arith) e in
    let (f, n, (u, u_eq, u_holds, u_discs, u_moves)) = init_loop-Leaves left t c t_holds more in
    (
      f,
      omega (arith, ap length e),
      (
        u,
        rw t_eq u_eq,
        subst (Holds u) (fun_ext (λ r. ground arith)) u_holds,
        u_discs ∙ t_discs,
        omega arith,
      ),
    )

init-Holds :
    (q : ℕ) (s : Store) (content : ℕ → List ℕ)
    → Holds s content
    → Holds (list_init q s) (update content q [])
unfolding list_init
init-Holds q s content h = record {
  places = h.places;
  chains = λ r. elim (Bool-cases (r == q)) [
    | inl is_q ↦ rw is_q refl
    | inr not_q ↦ rw not_q (h.chains r)
  ];
  sizes = λ r pos. ground (arith, h.sizes r pos);
}

-- From any contents with enough free nodes, `towers_init` empties the pegs, whose nodes it does not
-- give back, and builds the tower.
pub init-Leaves :
    (n : ℕ) (s : Store) (content : ℕ → List ℕ)
    → Holds s content
    → n ≤ length (content free_list)
    → (f : List ℕ) × (length f + n ≡ length (content free_list))
      × (t : Store) × (towers_init n s ≡ some t)
      × Holds t (
          update
            (update (update (update content free_list f) peg_a (tower n [])) peg_b [])
            peg_c
            [])
      × (t.num_discs ≡ n)
      × (t.num_moves ≡ 0)
unfolding towers_init list_init
init-Leaves n s content h enough =
    let c = update (update (update content peg_a []) peg_b []) peg_c [] in
    let start = record s { num_discs = n; num_moves = 0 } in
    let emptied = list_init peg_c (list_init peg_b (list_init peg_a start)) in
    let k : Holds emptied c =
      init-Holds peg_c _ _
        (init-Holds peg_b _ _ (init-Holds peg_a start content (Holds-counters s content n 0 h))) in
    let (f, len, (t, t_eq, t_holds, t_discs, t_moves)) = init_loop-Leaves n emptied c k enough in
    (f, len, t, t_eq, subst (Holds t) (fun_ext (λ r. ground arith)) t_holds, t_discs, t_moves)

clear_loop-Leaves :
    (xs : List ℕ) (q : ℕ) (s : Store) (content : ℕ → List ℕ)
    → 0 < q
    → Holds s content
    → content q ≡ xs
    → length xs < 2 ^ 31
    → (f : List ℕ) × (length f ≡ length (content free_list) + length xs)
      × Leaves (list_clear_loop (length xs) q s) s 0 (update (update content free_list f) q [])
unfolding list_clear_loop list_get_size
clear_loop-Leaves [] q s content pos h e few = (
  content free_list,
  omega arith,
  (
    s,
    rw (h.sizes q pos ∙ ap (λ ys. length ys % 2 ^ 32) e) refl,
    subst (Holds s) (fun_ext (λ r. ground (arith, e))) h,
    refl,
    omega arith,
  ),
)
clear_loop-Leaves (x ∷ xs) q s content pos h e few =
    let c = shift q free_list xs x content in
    let (t, t_eq, t_holds, t_discs, t_moves) = pop-Leaves s content q x x xs h pos e in
    let left : c q ≡ xs = ground arith in
    let (f, n, (u, u_eq, u_holds, u_discs, u_moves)) =
      clear_loop-Leaves xs q t c pos t_holds left (omega arith) in
    let size : s.size q ≡ suc (length xs) = omega (arith, h.sizes q pos, ap length e) in
    let full : is_positive (suc (length xs)) ≡ true = ground arith in
    (
      f,
      omega arith,
      (
        u,
        rw (size, full, t_eq) (ground (arith, u_eq)),
        subst (Holds u) (fun_ext (λ r. ground arith)) u_holds,
        u_discs ∙ t_discs,
        omega arith,
      ),
    )

-- Clearing a peg gives its nodes back, if their number is an `int`.
pub clear-Leaves :
    (q : ℕ) (s : Store) (content : ℕ → List ℕ)
    → 0 < q
    → Holds s content
    → length (content q) < 2 ^ 31
    → (f : List ℕ) × (length f ≡ length (content free_list) + length (content q))
      × Leaves (list_clear q s) s 0 (update (update content free_list f) q [])
unfolding list_clear list_get_size
clear-Leaves q s content pos h few =
    let size : s.size q ≡ length (content q) = omega (arith, h.sizes q pos) in
    rw size (clear_loop-Leaves (content q) q s content pos h refl few)
