-- ===== src/Bench/Towers.antt =====
-- riscv-tests/benchmarks/towers/towers_main.c: the towers of Hanoi on linked lists that share a
-- pool of nodes.
--
-- A `struct Node*` is `some` index in the pool or `none`; a `struct List*` is one of the four
-- addresses below. An `int` is its 32 bits. `none` in place of a result is a null pointer that is followed, or a loop or
-- recursion that does not end.
pub mod Chains
pub mod Setup
pub mod Pool
pub mod Run
pub mod Solve
pub mod Steps
use rv32i_pipeline_fpga.Common.{
  ℕ, zero, suc, ◌+◌, ◌-◌, ◌%◌, ◌^◌, ◌&&◌, Bool, ltb, Option, none, some, ◌==◌, not, if◌then◌else◌,
  update,
}

abbrev pub free_list : ℕ
free_list = 0

abbrev pub peg_a : ℕ
peg_a = 1

abbrev pub peg_b : ℕ
peg_b = 2

abbrev pub peg_c : ℕ
peg_c = 3

-- The nodes' and the lists' fields, and the counters of `struct Towers`.
pub record Store : Type 0 where
  pub val : ℕ → ℕ
  pub next : ℕ → Option ℕ
  pub size : ℕ → ℕ
  pub head : ℕ → Option ℕ
  pub num_discs : ℕ
  pub num_moves : ℕ

infixl 5 ◌>>=◌
abbrev pub ◌>>=◌ {ℓ κ} : {A : Type ℓ} {B : Type κ} → Option A → (A → Option B) → Option B
none >>= f = none
some a >>= f = f a

unfoldable pub list_get_size : ℕ → Store → ℕ
list_get_size list s = s.size list

unfoldable pub list_init : ℕ → Store → Store
list_init list s = record s { size = update s.size list 0; head = update s.head list none }

unfoldable pub list_push : ℕ → ℕ → Store → Option Store
list_push list val s = elim (s.head free_list) [
  | none ↦ none
  | some new_node ↦
      let t = record s { head = update s.head free_list (s.next new_node) } in
      let u = record t { next = update t.next new_node (t.head list) } in
      some (record u {
        head = update u.head list (some new_node);
        val = update u.val new_node val;
        size = update u.size list ((u.size list + 1) % 2 ^ 32);
      })
]

-- The value, and the store after.
unfoldable pub list_pop : ℕ → Store → Option (ℕ × Store)
list_pop list s = elim (s.head list) [
  | none ↦ none
  | some freed_node ↦
      let val = s.val freed_node in
      let t = record s { head = update s.head list (s.next freed_node) } in
      let u = record t { next = update t.next freed_node (t.head free_list) } in
      some (
        val,
        record u {
          head = update u.head free_list (some freed_node);
          size = update u.size list ((u.size list + 2 ^ 32 - 1) % 2 ^ 32);
        },
      )
]

-- An `int` above 0.
abbrev pub is_positive : ℕ → Bool
is_positive n = ltb 0 n && ltb n (2 ^ 31)

-- The loop of `list_clear`, `rounds` at most.
unfoldable pub list_clear_loop : ℕ → ℕ → Store → Option Store
list_clear_loop zero list s = if is_positive (list_get_size list s) then none else some s
list_clear_loop (suc rounds) list s =
    let rest = list_pop list s >>= (λ r. list_clear_loop rounds list r.1) in
    if is_positive (list_get_size list s) then rest else some s

unfoldable pub list_clear : ℕ → Store → Option Store
list_clear list s = list_clear_loop (list_get_size list s) list s

-- The loop of `towers_init` with `n - i` rounds left.
unfoldable pub towers_init_loop : ℕ → Store → Option Store
towers_init_loop zero s = some s
towers_init_loop (suc left) s = list_push peg_a (suc left) s >>= towers_init_loop left

unfoldable pub towers_init : ℕ → Store → Option Store
towers_init n s =
    let t = record s { num_discs = n; num_moves = 0 } in
    towers_init_loop n (list_init peg_c (list_init peg_b (list_init peg_a t)))

unfoldable pub towers_clear : Store → Option Store
towers_clear s = do
  t ← list_clear peg_a s
  u ← list_clear peg_b t
  v ← list_clear peg_c u
  towers_init v.num_discs v

-- The case `n == 1` of `towers_solve_h`.
unfoldable pub towers_move : ℕ → ℕ → Store → Option Store
towers_move start_peg dest_peg s = do
  (val, t) ← list_pop start_peg s
  u ← list_push dest_peg val t
  some (record u { num_moves = (u.num_moves + 1) % 2 ^ 32 })

-- From `n` = 0 the recursion does not end.
unfoldable pub towers_solve_h : ℕ → ℕ → ℕ → ℕ → Store → Option Store
towers_solve_h zero start_peg temp_peg dest_peg s = none
towers_solve_h (suc zero) start_peg temp_peg dest_peg s = towers_move start_peg dest_peg s
towers_solve_h (suc (suc m)) start_peg temp_peg dest_peg s = do
  t ← towers_solve_h (suc m) start_peg dest_peg temp_peg s
  u ← towers_move start_peg dest_peg t
  towers_solve_h (suc m) temp_peg start_peg dest_peg u

unfoldable pub towers_solve : Store → Option Store
towers_solve s = towers_solve_h s.num_discs peg_a peg_b peg_c s

-- The loop of `towers_verify` from `ptr` on, `num_discs` counted before. The shift is one that C
-- defines up to 30 discs.
unfoldable pub towers_verify_loop : ℕ → Option ℕ → ℕ → Store → Option ℕ
towers_verify_loop fuel none num_discs s =
    some (if not (s.num_moves == (2 ^ s.num_discs - 1) % 2 ^ 32) then 6 else 0)
towers_verify_loop zero (some ptr) num_discs s = none
towers_verify_loop (suc fuel) (some ptr) num_discs s =
    let rest = towers_verify_loop fuel (s.next ptr) ((num_discs + 1) % 2 ^ 32) s in
    if not (s.val ptr == (num_discs + 1) % 2 ^ 32) then some 5 else rest

unfoldable pub towers_verify : Store → Option ℕ
towers_verify s =
    if not (list_get_size peg_a s == 0)
    then some 2
    else if not (list_get_size peg_b s == 0)
    then some 3
    else if not (list_get_size peg_c s == s.num_discs)
    then some 4
    else towers_verify_loop (s.num_discs + 1) (s.head peg_c) 0 s

-- The pool of `n` nodes as `main` links it: all of them on the free list.
unfoldable pub linked_pool : ℕ → Store → Store
linked_pool n s =
    let t = list_init free_list s in
    record t {
      head = update t.head free_list (some 0);
      size = update t.size free_list n;
      next = λ i. if i == n - 1 then none else some (i + 1);
      val = λ i. if i == n - 1 then 99 else i;
    }

-- `main`, with `NUM_DISCS` = `n` and `PREALLOCATE`, which the Makefile sets; the store is what the
-- program starts with.
unfoldable pub main : Bool → ℕ → Store → Option ℕ
main preallocate n s = do
  t ← towers_init n (linked_pool n s)
  r ← if preallocate then towers_solve t else some t
  u ← towers_clear r
  v ← towers_solve u
  towers_verify v
