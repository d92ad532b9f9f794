-- ===== src/Matmul/Slices.antt =====
-- riscv-tests/mt/: the products of an element that are added in several parts of a kernel.
use rv32i_pipeline_fpga.Common.{
  ℕ, zero, suc, ◌+◌, ◌*◌, ◌≤◌, ◌≡◌, refl, sym, subst, ap, ◌∙◌, List, [], ◌++◌, arith, Bool,
}
use native.Mathlib.Nat.{suc-mul}
use rv32i_pipeline_fpga.Matmul.{DataOps, Op, Core, run, for_by, dot}
use rv32i_pipeline_fpga.Matmul.Cores.{AreOwn, AreOwn-append}
use rv32i_pipeline_fpga.Matmul.Sweep.{run-append}
use rv32i_pipeline_fpga.Matmul.Tiles.{Any, cell_of, dot-add}
use rv32i_pipeline_fpga.Matmul.Regions.{Part}

module _ {D : Type 0} (ops : DataOps D) (A B : ℕ → D) (lda : ℕ) (pre : Core D → Type 0)
    (own : ℕ → Bool) (inside : ℕ → Bool) where
  -- Some products of each element of a region, then the next ones.
  pub Part-then :
      (from : D → D) (p q : List Op) (k m l n : ℕ)
      → l ≡ k + m
      → Part ops A B lda k m pre from own p inside
      → Part ops A B lda l n pre (λ v. v) own q inside
      → Part ops A B lda k (m + n) pre from own (p ++ q) inside
  Part-then from p q k m l n next first second = record {
    fills = record {
      hit = λ s i holds e.
          let acc = from (s.c i) in
          ap (λ s'. s'.c i) (run-append ops A B p q s)
          ∙ second.fills.hit (run ops A B p s) i (first.fills.keeps s holds) e
          ∙ ap (cell_of ops A B lda i l n) (first.fills.hit s i holds e)
          ∙ ap (λ x. cell_of ops A B lda i x n (cell_of ops A B lda i k m acc)) next
          ∙ sym (dot-add ops A B lda _ _ k m n acc);
      miss = λ s i holds e.
          ap (λ s'. s'.c i) (run-append ops A B p q s)
          ∙ second.fills.miss (run ops A B p s) i (first.fills.keeps s holds) e
          ∙ first.fills.miss s i holds e;
      keeps = λ s holds.
          subst pre (sym (run-append ops A B p q s))
            (second.fills.keeps (run ops A B p s) (first.fills.keeps s holds));
    };
    owned = AreOwn-append own p q first.owned second.owned;
  }

  -- No products.
  pub Part-nil : (k : ℕ) → Part ops A B lda k 0 pre (λ v. v) own [] inside
  unfolding run dot
  Part-nil k = record {
    fills = record {
      hit = λ s i holds e. refl;
      miss = λ s i holds e. refl;
      keeps = λ s holds. holds;
    };
    owned = omega arith;
  }

  Part-count :
      (from : D → D) (p : List Op) (k m n : ℕ)
      → m ≡ n
      → Part ops A B lda k m pre from own p inside
      → Part ops A B lda k n pre from own p inside
  Part-count from p k m n e part = subst (λ x. Part ops A B lda k x pre from own p inside) e part

  -- A loop whose rounds add `width` products each, from the place `at x` on.
  pub Part-slices :
      (width stride hi : ℕ) (body : ℕ → List Op) (at : ℕ → ℕ)
      → ((x : ℕ) → at (x + stride) ≡ at x + width)
      → ((x : ℕ) → x + stride ≤ hi → Part ops A B lda (at x) width pre (λ v. v) own (body x) inside)
      → (x count : ℕ) → x + count * stride ≤ hi
      → Part ops A B lda (at x) (count * width) pre (λ v. v) own (for_by stride x count body) inside
  unfolding for_by
  Part-slices width stride hi body at step part x zero bound =
      Part-count (λ v. v) [] (at x) 0 (0 * width) (omega arith) (Part-nil (at x))
  Part-slices width stride hi body at step part x (suc count) bound =
      let e = suc-mul count stride in
      Part-count (λ v. v) (body x ++ for_by stride (x + stride) count body) (at x)
        (width + count * width) (suc count * width) (omega (arith, suc-mul count width))
        (Part-then (λ v. v) (body x) (for_by stride (x + stride) count body) (at x) width
          (at (x + stride)) (count * width) (step x) (part x (omega (arith, e)))
          (Part-slices width stride hi body at step part (x + stride) count (omega (arith, e))))

-- Assignments to variables alone that bring about what the rest needs.
pub Part-after :
    {D : Type 0} (ops : DataOps D) (A B : ℕ → D) (lda k n : ℕ) (pre : Core D → Type 0)
    (own : ℕ → Bool) (inside : ℕ → Bool) (init p : List Op)
    → AreOwn own init
    → ((s : Core D) → (run ops A B init s).c ≡ s.c)
    → ((s : Core D) → pre (run ops A B init s))
    → Part ops A B lda k n pre (λ v. v) own p inside
    → Part ops A B lda k n Any (λ v. v) own (init ++ p) inside
Part-after ops A B lda k n pre own inside init p init_own init_c sets part = record {
  fills = record {
    hit = λ s i _ e.
        ap (λ s'. s'.c i) (run-append ops A B init p s)
        ∙ part.fills.hit (run ops A B init s) i (sets s) e
        ∙ ap (λ c. cell_of ops A B lda i k n (c i)) (init_c s);
    miss = λ s i _ e.
        ap (λ s'. s'.c i) (run-append ops A B init p s)
        ∙ part.fills.miss (run ops A B init s) i (sets s) e
        ∙ ap (λ c. c i) (init_c s);
    keeps = λ s _. omega arith;
  };
  owned = AreOwn-append own init p init_own part.owned;
}
