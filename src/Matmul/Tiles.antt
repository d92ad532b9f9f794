-- ===== src/Matmul/Tiles.antt =====
-- riscv-tests/mt/: a block of elements of `C` that a core keeps in local variables while it goes
-- along a row of `A` and a column of `B`.
use rv32i_pipeline_fpga.Common.{
  ℕ, zero, suc, ◌+◌, ◌*◌, ◌/◌, ◌%◌, ◌≤◌, ◌<◌, ◌≡◌, ◌≢◌, refl, sym, ap, ap₂, ◌∙◌, List, ◌++◌, arith,
  Bool, true, false,
}
use native.Mathlib.Nat.{suc-mul}
use rv32i_pipeline_fpga.Matmul.{DataOps, Op, store, Core, exec, run, each, for_by, dot}
use rv32i_pipeline_fpga.Matmul.Sweep.{run-append, puts_hit, puts_miss}

-- Nothing is asked of the state.
abbrev pub Any : {D : Type 0} → Core D → Type 0
Any s = 0 ≤ 0

module _ {D : Type 0} (ops : DataOps D) (A B : ℕ → D) (lda : ℕ) where
  -- What the element `i` of `C` becomes, from `acc`.
  abbrev pub cell_of : ℕ → ℕ → ℕ → D → D
  cell_of i k n acc = dot ops A B lda (i / lda) (i % lda) k n acc

  -- Where `pre` holds, the assignments `p` give each element of a region `from` of what it held and
  -- `n` products, from the `k`-th on, leave the other elements, and `pre` holds again.
  pub record Computes (k n : ℕ) (pre : Core D → Type 0) (from : D → D) (p : List Op)
      (inside : ℕ → Bool) : Type 0 where
    pub hit :
        (s : Core D) (i : ℕ)
        → pre s
        → inside i ≡ true
        → (run ops A B p s).c i ≡ cell_of i k n (from (s.c i))
    pub miss : (s : Core D) (i : ℕ) → pre s → inside i ≡ false → (run ops A B p s).c i ≡ s.c i
    pub keeps : (s : Core D) → pre s → pre (run ops A B p s)

  pub dot-eq :
      (row col k k' n n' : ℕ) (acc : D)
      → k ≡ k'
      → n ≡ n'
      → dot ops A B lda row col k n acc ≡ dot ops A B lda row col k' n' acc
  dot-eq row col k k' n n' acc e e' = ap₂ (λ x y. dot ops A B lda row col x y acc) e e'

  pub dot-add :
      (row col k m n : ℕ) (acc : D)
      → dot ops A B lda row col k (m + n) acc
        ≡ dot ops A B lda row col (k + m) n (dot ops A B lda row col k m acc)
  unfolding dot
  dot-add row col k zero n acc = dot-eq row col k (k + 0) (0 + n) n acc (omega arith) (omega arith)
  dot-add row col k (suc m) n acc =
      let acc' = ops.add acc (ops.mul (A (row * lda + k)) (B (k * lda + col))) in
      dot-eq row col k k (suc m + n) (suc (m + n)) acc refl (omega arith)
      ∙ dot-add row col (k + 1) m n acc'
      ∙ dot-eq row col (k + 1 + m) (k + suc m) n n (dot ops A B lda row col (k + 1) m acc')
          (omega arith) refl

  -- The variable `t` stands for the element `cell t`; a round adds `stride` products.
  module _ (T stride : ℕ) (cell : ℕ → ℕ) (round : ℕ → List Op)
      (round_c : (k : ℕ) (s : Core D) → (run ops A B (round k) s).c ≡ s.c)
      (round_temp : (k t : ℕ) (s : Core D)
        → t < T
        → (run ops A B (round k) s).temp t ≡ cell_of (cell t) k stride (s.temp t)) where
    abbrev pub rounds : ℕ → ℕ → List Op
    rounds k n = for_by stride k n round

    rounds_c : (k n : ℕ) (s : Core D) → (run ops A B (rounds k n) s).c ≡ s.c
    unfolding for_by run
    rounds_c k zero s = refl
    rounds_c k (suc n) s =
        ap (λ s'. s'.c) (run-append ops A B (round k) (rounds (k + stride) n) s)
        ∙ rounds_c (k + stride) n (run ops A B (round k) s)
        ∙ round_c k s

    rounds_temp :
        (k n t : ℕ) (s : Core D)
        → t < T
        → (run ops A B (rounds k n) s).temp t ≡ cell_of (cell t) k (n * stride) (s.temp t)
    unfolding for_by run dot
    rounds_temp k zero t s bound =
        dot-eq (cell t / lda) (cell t % lda) k k 0 (0 * stride) (s.temp t) refl (omega arith)
    rounds_temp k (suc n) t s bound =
        ap (λ s'. s'.temp t) (run-append ops A B (round k) (rounds (k + stride) n) s)
        ∙ rounds_temp (k + stride) n t (run ops A B (round k) s) bound
        ∙ ap (cell_of (cell t) (k + stride) (n * stride)) (round_temp k t s bound)
        ∙ sym (dot-add (cell t / lda) (cell t % lda) k stride (n * stride) (s.temp t))
        ∙ dot-eq (cell t / lda) (cell t % lda) k k (stride + n * stride) (suc n * stride) (s.temp t)
            refl (omega (arith, suc-mul n stride))

    module _ (k n count : ℕ) (all : n ≡ count * stride) (from : D → D) (init : List Op)
        (init_c : (s : Core D) → (run ops A B init s).c ≡ s.c)
        (init_temp : (t : ℕ) (s : Core D)
          → t < T
          → (run ops A B init s).temp t ≡ from (s.c (cell t)))
        (apart : (v w : ℕ) → v < w → w < T → cell v ≢ cell w) where
      abbrev pub tile : List Op
      tile = init ++ (rounds k count ++ each 0 T (λ t. store (cell t) t))

      before_stores : Core D → Core D
      before_stores s = run ops A B (rounds k count) (run ops A B init s)

      run-tile :
          (s : Core D)
          → run ops A B tile s ≡ run ops A B (each 0 T (λ t. store (cell t) t)) (before_stores s)
      unfolding before_stores
      run-tile s =
          run-append ops A B init _ s
          ∙ run-append ops A B (rounds k count) (each 0 T (λ t. store (cell t) t)) _

      before_stores_c : (s : Core D) → (before_stores s).c ≡ s.c
      unfolding before_stores
      before_stores_c s = rounds_c k count _ ∙ init_c s

      before_stores_temp :
          (t : ℕ) (s : Core D)
          → t < T
          → (before_stores s).temp t ≡ cell_of (cell t) k n (from (s.c (cell t)))
      unfolding before_stores
      before_stores_temp t s bound =
          rounds_temp k count t _ bound ∙ ap₂ (cell_of (cell t) k) (sym all) (init_temp t s bound)

      -- The block is the region that `index` is the inverse of `cell` on.
      module _ (inside : ℕ → Bool) (index : ℕ → ℕ)
          (found : (i : ℕ) → inside i ≡ true → (index i < T) × (cell (index i) ≡ i))
          (within : (t : ℕ) → t < T → inside (cell t) ≡ true) where
        pub tile-Computes : Computes k n Any from tile inside
        unfolding exec
        tile-Computes = record {
          hit = λ s i _ yes_in.
              let (bound, at) = found i yes_in in
              ap (λ s'. s'.c i) (run-tile s)
              ∙ ap (run ops A B (each 0 T (λ t. store (cell t) t)) (before_stores s)).c (sym at)
              ∙ puts_hit ops A B (λ t. store (cell t) t) cell (λ t temp x. temp t) (λ t s'. refl) 0
                  T (index i) (before_stores s) (λ v w l h. apart v w l (omega arith)) (omega arith)
                  (omega arith)
              ∙ before_stores_temp (index i) s bound
              ∙ ap (λ j. cell_of j k n (from (s.c j))) at;
          miss = λ s i _ out.
              ap (λ s'. s'.c i) (run-tile s)
              ∙ puts_miss ops A B (λ t. store (cell t) t) cell (λ t temp x. temp t) (λ t s'. refl) 0
                  T i (before_stores s) (λ u l h e. absurd (ground (arith, within u, e)))
              ∙ ap (λ c. c i) (before_stores_c s);
          keeps = λ s _. omega arith;
        }
