-- ===== src/Matmul/Sixteen.antt =====
-- df_matmul.c, cl_matmul.c, al_matmul.c and bf_matmul.c: sixteen elements of a row at a time.
use rv32i_pipeline_fpga.Common.{
  ℕ, ◌+◌, ◌-◌, ◌*◌, ◌%◌, ◌≤◌, ◌<◌, ◌≡◌, refl, sym, subst, ap₂, ◌∙◌, List, ◌++◌, update, arith, Bool,
  true, ◌==◌, if◌then◌else◌,
}
use rv32i_pipeline_fpga.Matmul.{DataOps, Op, accumulate, store, Core, exec, run, each, for_by, dot}
use rv32i_pipeline_fpga.Matmul.Sweep.{sweep_c, sweep_temp}
use rv32i_pipeline_fpga.Matmul.Cores.{IsOwn, AreOwn-each, AreOwn-tile}
use rv32i_pipeline_fpga.Matmul.Tiles.{Any, cell_of, tile-Computes}
use rv32i_pipeline_fpga.Matmul.Regions.{
  rect, rect-bounds, bounds-rect, Part, Part-for_by, rows-IsBand,
}

-- An index of the source: `x` and the number of a column, which is not written where it is 0.
abbrev pub offset : ℕ → ℕ → ℕ
offset t x = if t == 0 then x else t + x

pub offset-add : (t x : ℕ) → offset t x ≡ t + x
offset-add t x = ground arith

-- The assignments of one round for the sixteen elements from the column `c0` on of the row `j`.
abbrev pub row_round : ℕ → ℕ → ℕ → ℕ → List Op
row_round lda c0 j k = each 0 16 (λ t. accumulate t (j * lda + k) (offset (c0 + t) (k * lda)))

-- All assignments for them; `first` gives a variable its first value.
abbrev pub sixteen : (ℕ → ℕ → Op) → ℕ → ℕ → ℕ → List Op
sixteen first lda c0 j =
    each 0 16 (λ t. first t (offset (c0 + t) (j * lda)))
    ++ (for_by 1 0 32 (row_round lda c0 j) ++ each 0 16 (λ t. store (offset (c0 + t) (j * lda)) t))

module _ {D : Type 0} (ops : DataOps D) (A B : ℕ → D) (from : D → D) (first : ℕ → ℕ → Op)
    (gives : (t i : ℕ) (s : Core D)
      → exec ops A B (first t i) s ≡ record s { temp = update s.temp t (from (s.c i)) })
    (own : ℕ → Bool) (own_first : (t i : ℕ) → own i ≡ true → IsOwn own (first t i)) (c0 : ℕ)
    (fits : c0 + 16 ≤ 32) where
  module _ (j : ℕ) (mine : (t : ℕ) → t < 16 → own (offset (c0 + t) (j * 32)) ≡ true) where
    abbrev cell : ℕ → ℕ
    cell t = offset (c0 + t) (j * 32)

    round_c : (k : ℕ) (s : Core D) → (run ops A B (row_round 32 c0 j k) s).c ≡ s.c
    unfolding exec
    round_c k s =
        sweep_c ops A B (λ t. accumulate t (j * 32 + k) (offset (c0 + t) (k * 32)))
          (λ t v c. ops.add v (ops.mul (A (j * 32 + k)) (B (offset (c0 + t) (k * 32)))))
          (λ t s'. refl) 0 16 s

    round_temp :
        (k t : ℕ) (s : Core D)
        → t < 16
        → (run ops A B (row_round 32 c0 j k) s).temp t ≡ cell_of ops A B 32 (cell t) k 1 (s.temp t)
    unfolding exec dot
    round_temp k t s bound =
        sweep_temp ops A B (λ t'. accumulate t' (j * 32 + k) (offset (c0 + t') (k * 32)))
          (λ t' v c. ops.add v (ops.mul (A (j * 32 + k)) (B (offset (c0 + t') (k * 32)))))
          (λ t' s'. refl) 0 16 t s (omega arith) (omega arith)
        ∙ ap₂ (λ x y. ops.add (s.temp t) (ops.mul (A x) (B y)))
            (omega (arith, offset-add (c0 + t) (j * 32)))
            (omega (arith, offset-add (c0 + t) (j * 32), offset-add (c0 + t) (k * 32)))

    -- One row.
    pub sixteen-Part :
        Part ops A B 32 0 32 Any from own (sixteen first 32 c0 j) (rect j (j + 1) c0 (c0 + 16))
    unfolding exec
    sixteen-Part = record {
      fills =
          tile-Computes ops A B 32 16 1 cell (row_round 32 c0 j) round_c round_temp 0 32 32 refl
            from (each 0 16 (λ t. first t (cell t)))
            (λ s.
              sweep_c ops A B (λ t. first t (cell t)) (λ t v c. from (c (cell t)))
                (λ t s'. gives t (cell t) s') 0 16 s)
            (λ t s bound.
              sweep_temp ops A B (λ t'. first t' (cell t')) (λ t' v c. from (c (cell t')))
                (λ t' s'. gives t' (cell t') s') 0 16 t s (omega arith) (omega arith))
            (λ v w l h e.
              absurd (omega (arith, e, offset-add (c0 + v) (j * 32), offset-add (c0 + w) (j * 32))))
            (rect j (j + 1) c0 (c0 + 16)) (λ i. i % 32 - c0)
            (λ i e.
              let (a, b, c, d) = rect-bounds j (j + 1) c0 (c0 + 16) i e in
              (omega arith, omega (arith, offset-add (c0 + (i % 32 - c0)) (j * 32))))
            (λ t bound.
              let e = offset-add (c0 + t) (j * 32) in
              bounds-rect j (j + 1) c0 (c0 + 16) (cell t) (omega (arith, e)) (omega (arith, e))
                (omega (arith, e)) (omega (arith, e)));
      owned =
          AreOwn-tile own 16 1 0 32 cell (each 0 16 (λ t. first t (cell t))) (row_round 32 c0 j)
            mine
            (AreOwn-each own (λ t. first t (cell t)) 0 16
              (λ t l h. own_first t (cell t) (mine t (omega arith))))
            (λ k.
              AreOwn-each own (λ t. accumulate t (j * 32 + k) (offset (c0 + t) (k * 32))) 0 16
                (λ t l h. omega arith));
    }

  -- The rows from `r0` to `r1` of that half, by a loop whose body is a row.
  pub sixteen-rows :
      (body : ℕ → List Op) (r0 count r1 : ℕ)
      → r1 ≡ r0 + count * 1
      → ((j t : ℕ) → t < 16 → own (offset (c0 + t) (j * 32)) ≡ true)
      → ((j : ℕ) → body j ≡ sixteen first 32 c0 j)
      → Part ops A B 32 0 32 Any from own (for_by 1 r0 count body) (rect r0 r1 c0 (c0 + 16))
  sixteen-rows body r0 count r1 end mine same =
      Part-for_by ops A B 32 0 32 Any from own (λ x y. rect x y c0 (c0 + 16)) 1 body (λ x. 0 ≤ x)
        (rows-IsBand c0 (c0 + 16)) (λ x h. omega arith) r0 count r1 end (omega arith)
        (λ j ok l h.
          subst (λ p. Part ops A B 32 0 32 Any from own p (rect j (j + 1) c0 (c0 + 16)))
            (sym (same j)) (sixteen-Part j (mine j)))
