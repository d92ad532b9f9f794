-- ===== src/Matmul/Strips.antt =====
-- cv_matmul.c: what the products that are added to `C` in place make of a row.
use rv32i_pipeline_fpga.Common.{
  ℕ, ◌+◌, ◌-◌, ◌*◌, ◌/◌, ◌%◌, ◌≤◌, ◌<◌, ◌≡◌, refl, sym, ap, ap₂, subst, ◌∙◌, List, ◌++◌, arith,
  Bool, true,
}
use rv32i_pipeline_fpga.Matmul.{
  DataOps, Op, fetch, fetch_b, increase, Core, exec, run, each, for_by, dot,
}
use rv32i_pipeline_fpga.Matmul.Sweep.{
  run-append, sweep_c, sweep_below, sweep_temp, puts_temp, puts_hit, puts_miss,
}
use rv32i_pipeline_fpga.Matmul.Cores.{AreOwn-append, AreOwn-each}
use rv32i_pipeline_fpga.Matmul.Tiles.{Any}
use rv32i_pipeline_fpga.Matmul.Regions.{
  rect, rect-bounds, bounds-rect, Part, Part-for_by, IsBand, rows-IsBand, columns-IsBand,
}
use rv32i_pipeline_fpga.Matmul.Slices.{Part-slices, Part-after}

-- The eight elements of `A`, and of `B`, and the products of one of the former and the latter.
abbrev pub fetches : ℕ → ℕ → ℕ → List Op
fetches lda j m = each 0 8 (λ u. fetch u (j * lda + u + 8 * m))

abbrev pub fetches_b : ℕ → ℕ → ℕ → ℕ → List Op
fetches_b lda m n r = each 8 8 (λ u. fetch_b u ((r + 8 * m) * lda + (u - 8) + 8 * n))

abbrev pub increases : ℕ → ℕ → ℕ → ℕ → List Op
increases lda j n r = each 0 8 (λ t. increase (t + 8 * n + j * lda) r (8 + t))

abbrev pub products : ℕ → ℕ → ℕ → ℕ → ℕ → List Op
products lda j m n r = fetches_b lda m n r ++ increases lda j n r

-- Eight columns of a row.
abbrev strip_region : ℕ → ℕ → ℕ → ℕ → Bool
strip_region j x y = rect j (j + 1) (8 * x) (8 * y)

strips-IsBand : (j : ℕ) → IsBand (strip_region j)
strips-IsBand j =
    let columns = columns-IsBand j (j + 1) in
    record {
      empty = λ x i. columns.empty (8 * x) i;
      apart = λ x y z l h i. columns.apart (8 * x) (8 * y) (8 * z) (omega arith) (omega arith) i;
      join = λ x y z l h i. columns.join (8 * x) (8 * y) (8 * z) (omega arith) (omega arith) i;
    }

module _ {D : Type 0} (ops : DataOps D) (A B : ℕ → D) (own : ℕ → Bool) (j m : ℕ)
    (mine : (x : ℕ) → x / 32 ≡ j → own x ≡ true) where
  -- The variables hold the elements of `A`.
  abbrev Holds : Core D → Type 0
  Holds s = (u : ℕ) → u < 8 → s.temp u ≡ A (j * 32 + u + 8 * m)

  module _ (n r : ℕ) (strip : n < 4) (row : r < 8) where
    abbrev cell : ℕ → ℕ
    cell t = t + 8 * n + j * 32

    after_b : Core D → Core D
    after_b s = run ops A B (fetches_b 32 m n r) s

    after_b_c : (s : Core D) → (after_b s).c ≡ s.c
    unfolding after_b exec
    after_b_c s =
        sweep_c ops A B (λ u. fetch_b u ((r + 8 * m) * 32 + (u - 8) + 8 * n))
          (λ u v c. B ((r + 8 * m) * 32 + (u - 8) + 8 * n)) (λ u s'. refl) 8 8 s

    after_b_a : (s : Core D) (u : ℕ) → u < 8 → (after_b s).temp u ≡ s.temp u
    unfolding after_b exec
    after_b_a s u low =
        sweep_below ops A B (λ u'. fetch_b u' ((r + 8 * m) * 32 + (u' - 8) + 8 * n))
          (λ u' v c. B ((r + 8 * m) * 32 + (u' - 8) + 8 * n)) (λ u' s'. refl) 8 8 u s low

    after_b_b :
        (s : Core D) (t : ℕ) → t < 8 → (after_b s).temp (8 + t) ≡ B ((r + 8 * m) * 32 + t + 8 * n)
    unfolding after_b exec
    after_b_b s t low =
        sweep_temp ops A B (λ u. fetch_b u ((r + 8 * m) * 32 + (u - 8) + 8 * n))
          (λ u v c. B ((r + 8 * m) * 32 + (u - 8) + 8 * n)) (λ u s'. refl) 8 8 (8 + t) s
          (omega arith) (omega arith)
        ∙ ap B (omega arith)

    products-Part :
        Part ops A B 32
          (r + 8 * m)
          1
          Holds
          (λ v. v)
          own
          (products 32 j m n r)
          (strip_region j n (n + 1))
    unfolding exec dot after_b
    products-Part = record {
      fills = record {
        hit = λ s i holds e.
            let (a, b, c, d) = rect-bounds j (j + 1) (8 * n) (8 * (n + 1)) i e in
            let t = i % 32 - 8 * n in
            let at : cell t ≡ i = omega arith in
            ap (λ s'. s'.c i) (run-append ops A B (fetches_b 32 m n r) (increases 32 j n r) s)
            ∙ ap (run ops A B (increases 32 j n r) (after_b s)).c (sym at)
            ∙ puts_hit ops A B (λ t'. increase (cell t') r (8 + t')) cell
                (λ t' temp x. ops.add x (ops.mul (temp r) (temp (8 + t')))) (λ t' s'. refl) 0 8 t
                (after_b s) (λ v w l h x. absurd (omega (arith, x))) (omega arith) (omega arith)
            ∙ ap₂ ops.add (ap (λ f. f (cell t)) (after_b_c s) ∙ ap s.c at) (
                ap₂ ops.mul (after_b_a s r row ∙ holds r row ∙ ap A (omega arith))
                  (after_b_b s t (omega arith) ∙ ap B (omega arith)));
        miss = λ s i holds e.
            ap (λ s'. s'.c i) (run-append ops A B (fetches_b 32 m n r) (increases 32 j n r) s)
            ∙ puts_miss ops A B (λ t'. increase (cell t') r (8 + t')) cell
                (λ t' temp x. ops.add x (ops.mul (temp r) (temp (8 + t')))) (λ t' s'. refl) 0 8 i
                (after_b s)
                (λ u l h x. absurd (
                  ground (
                    arith,
                    e,
                    x,
                    bounds-rect j (j + 1) (8 * n) (8 * (n + 1)) (cell u) (omega arith) (omega arith)
                        (omega arith) (omega arith),
                  )))
            ∙ ap (λ f. f i) (after_b_c s);
        keeps = λ s holds u low.
            ap (λ s'. s'.temp u) (run-append ops A B (fetches_b 32 m n r) (increases 32 j n r) s)
            ∙ ap (λ f. f u)
                (puts_temp ops A B (λ t'. increase (cell t') r (8 + t')) cell
                  (λ t' temp x. ops.add x (ops.mul (temp r) (temp (8 + t')))) (λ t' s'. refl) 0 8
                  (after_b s))
            ∙ after_b_a s u low
            ∙ holds u low;
      };
      owned =
          AreOwn-append own (fetches_b 32 m n r) (increases 32 j n r)
            (AreOwn-each own _ 8 8 (λ u l h. omega arith))
            (AreOwn-each own (λ t'. increase (cell t') r (8 + t')) 0 8
              (λ u l h. mine (cell u) (omega arith)));
    }

  strip-Part :
      (n : ℕ)
      → n < 4
      → Part ops A B 32
          (8 * m)
          8
          Holds
          (λ v. v)
          own
          (for_by 1 0 8 (products 32 j m n))
          (strip_region j n (n + 1))
  strip-Part n low =
      let region = strip_region j n (n + 1) in
      let p = for_by 1 0 8 (products 32 j m n) in
      let from : 0 + 8 * m ≡ 8 * m = omega arith in
      subst (λ x. Part ops A B 32 x 8 Holds (λ v. v) own p region) from
        (Part-slices ops A B 32 Holds own region 1 1 8 (products 32 j m n) (λ r. r + 8 * m)
          (λ r. omega arith) (λ r row. products-Part n r low (omega arith)) 0 8 (omega arith))

  -- Eight products of the elements of some strips, one strip after another.
  row_slice-Part :
      (strip : ℕ → List Op)
      → ((n : ℕ) → strip n ≡ for_by 1 0 8 (products 32 j m n))
      → Part ops A B 32 (8 * m) 8 Holds (λ v. v) own (for_by 1 0 4 strip) (rect j (j + 1) 0 32)
  row_slice-Part strip same =
      Part-for_by ops A B 32 (8 * m) 8 Holds (λ v. v) own (strip_region j) 1 strip (λ x. 0 ≤ x)
        (strips-IsBand j) (λ x h. omega arith) 0 4 4 refl (omega arith)
        (λ n ok l h.
          subst (λ p. Part ops A B 32 (8 * m) 8 Holds (λ v. v) own p (strip_region j n (n + 1)))
            (sym (same n)) (strip-Part n (omega arith)))

  -- With the elements of `A` before them.
  pub slice-Part :
      (strip : ℕ → List Op)
      → ((n : ℕ) → strip n ≡ for_by 1 0 8 (products 32 j m n))
      → Part ops A B 32
          (8 * m)
          8
          Any
          (λ v. v)
          own
          (fetches 32 j m ++ for_by 1 0 4 strip)
          (rect j (j + 1) 0 32)
  unfolding exec
  slice-Part strip same =
      Part-after ops A B 32 (8 * m) 8 Holds own (rect j (j + 1) 0 32) (fetches 32 j m)
        (for_by 1 0 4 strip)
        (AreOwn-each own (λ u. fetch u (j * 32 + u + 8 * m)) 0 8 (λ u l h. omega arith))
        (λ s.
          sweep_c ops A B (λ u. fetch u (j * 32 + u + 8 * m)) (λ u v c. A (j * 32 + u + 8 * m))
            (λ u s'. refl) 0 8 s)
        (λ s u low.
          sweep_temp ops A B (λ u'. fetch u' (j * 32 + u' + 8 * m))
            (λ u' v c. A (j * 32 + u' + 8 * m)) (λ u' s'. refl) 0 8 u s (omega arith) (omega arith))
        (row_slice-Part strip same)

-- The rows from `r0` to `r1`, by a loop whose body is a row.
pub strips-Part :
    {D : Type 0} (ops : DataOps D) (A B : ℕ → D) (own : ℕ → Bool) (strip : ℕ → ℕ → ℕ → List Op)
    (r0 count r1 : ℕ)
    → ((j m n : ℕ) → strip j m n ≡ for_by 1 0 8 (products 32 j m n))
    → r1 ≡ r0 + count * 1
    → ((x : ℕ) → r0 ≤ x / 32 → x / 32 < r1 → own x ≡ true)
    → Part ops A B 32 0 32 Any
        (λ v. v)
        own
        (for_by 1 r0 count (λ j. for_by 1 0 4 (λ m. fetches 32 j m ++ for_by 1 0 4 (strip j m))))
        (rect r0 r1 0 32)
strips-Part ops A B own strip r0 count r1 same end mine =
    let row = λ (j m : ℕ). fetches 32 j m ++ for_by 1 0 4 (strip j m) in
    Part-for_by ops A B 32 0 32 Any (λ v. v) own (λ x y. rect x y 0 32) 1
      (λ j. for_by 1 0 4 (row j)) (λ x. 0 ≤ x) (rows-IsBand 0 32) (λ x h. omega arith) r0 count r1
      end (omega arith)
      (λ j ok l h.
        Part-slices ops A B 32 Any own (rect j (j + 1) 0 32) 8 1 4 (row j) (λ m. 8 * m)
          (λ m. omega arith)
          (λ m low.
            slice-Part ops A B own j m (λ x e. mine x (omega arith) (omega arith)) (strip j m)
              (same j m))
          0 4 (omega arith))
