-- ===== src/Matmul/Blocks.antt =====
-- bm_matmul.c: what a block of four by four elements fills.
use rv32i_pipeline_fpga.Common.{
  ℕ, ◌+◌, ◌-◌, ◌*◌, ◌/◌, ◌%◌, ◌≤◌, ◌<◌, ◌≡◌, refl, sym, ap₂, subst, ◌∙◌, arith, Bool, true,
}
use native.Mathlib.Decide.{dec_lt}
use rv32i_pipeline_fpga.Matmul.{DataOps, load, Core, exec, run, each, for_by, for_to, dot}
use rv32i_pipeline_fpga.Matmul.Cases.{below_8, plus, plus-add}
use rv32i_pipeline_fpga.Matmul.Sweep.{sweep_c, sweep_temp}
use rv32i_pipeline_fpga.Matmul.Cores.{AreOwn-each, AreOwn-tile}
use rv32i_pipeline_fpga.Matmul.Tiles.{Any, cell_of, tile-Computes}
use rv32i_pipeline_fpga.Matmul.Regions.{
  rect, rect-bounds, bounds-rect, Part, Part-for_by, rows-IsBand, columns-IsBand,
}
use rv32i_pipeline_fpga.Matmul.Bm.Main
use rv32i_pipeline_fpga.Matmul.Bm.Main.{bm_main_adds, bm_main_block, bm_main_rows}
use rv32i_pipeline_fpga.Matmul.Bm.Last
use rv32i_pipeline_fpga.Matmul.Bm.Last.{bm_last_rows}

-- The element of the variable `t`, as the source writes its index.
abbrev cell : ℕ → ℕ → ℕ → ℕ
cell i j t = plus j (t % 4) + plus i (t / 4) * 32

cell-eq : (i j t : ℕ) → cell i j t ≡ j + t % 4 + (i + t / 4) * 32
cell-eq i j t = omega (arith, plus-add j (t % 4), plus-add i (t / 4))

module _ {D : Type 0} (ops : DataOps D) (A B : ℕ → D) (i j k : ℕ) (s : Core D) where
  round_c : (run ops A B (bm_main_adds 32 i j k) s).c ≡ s.c
  unfolding run exec bm_main_adds
  round_c = refl

  abbrev Adds : ℕ → Type 0
  Adds t =
      (run ops A B (bm_main_adds 32 i j k) s).temp t
      ≡ ops.add (s.temp t) (ops.mul (A (k + plus i (t / 4) * 32)) (B (plus j (t % 4) + k * 32)))

  round-Adds : (t : ℕ) → t < 8 → Adds t
  unfolding run exec bm_main_adds
  round-Adds = below_8 Adds refl refl refl refl refl refl refl refl

  round-Adds_high : (t : ℕ) → t < 8 → Adds (8 + t)
  unfolding run exec bm_main_adds
  round-Adds_high = below_8 (λ t. Adds (8 + t)) refl refl refl refl refl refl refl refl

  round-Adds_all : (t : ℕ) → t < 16 → Adds t
  round-Adds_all t h = elim (dec_lt t 8) [
    | yes low ↦ round-Adds t low
    | no out ↦ subst Adds (omega arith) (round-Adds_high (t - 8) (omega arith))
  ]

module _ {D : Type 0} (ops : DataOps D) (A B : ℕ → D) (i j : ℕ) (low : j + 4 ≤ 32) where
  round_temp :
      (k t : ℕ) (s : Core D)
      → t < 16
      → (run ops A B (bm_main_adds 32 i j k) s).temp t
        ≡ cell_of ops A B 32 (cell i j t) k 1 (s.temp t)
  unfolding dot
  round_temp k t s bound =
      round-Adds_all ops A B i j k s t bound
      ∙ ap₂ (λ x y. ops.add (s.temp t) (ops.mul (A x) (B y)))
          (omega (arith, plus-add i (t / 4), cell-eq i j t))
          (omega (arith, plus-add j (t % 4), cell-eq i j t))

  module _ (own : ℕ → Bool) (mine : (t : ℕ) → t < 16 → own (cell i j t) ≡ true) where
    block-Part :
        Part ops A B 32 0 32 Any (λ v. v) own (bm_main_block 32 i j) (rect i (i + 4) j (j + 4))
    unfolding exec bm_main_block bm_main_adds Main.bm_main_loads Main.bm_main_stores each for_to
    block-Part = record {
      fills =
          tile-Computes ops A B 32 16 1 (cell i j) (bm_main_adds 32 i j)
            (λ k s. round_c ops A B i j k s) round_temp 0 32 32 refl (λ v. v)
            (each 0 16 (λ t. load t (cell i j t)))
            (λ s.
              sweep_c ops A B (λ t. load t (cell i j t)) (λ t v c. c (cell i j t)) (λ t s'. refl) 0
                16 s)
            (λ t s bound.
              sweep_temp ops A B (λ t'. load t' (cell i j t')) (λ t' v c. c (cell i j t'))
                (λ t' s'. refl) 0 16 t s (omega arith) (omega arith))
            (λ v w l h e. absurd (omega (arith, e, cell-eq i j v, cell-eq i j w)))
            (rect i (i + 4) j (j + 4)) (λ x. x % 32 - j + 4 * (x / 32 - i))
            (λ x e.
              let (a, b, c, d) = rect-bounds i (i + 4) j (j + 4) x e in
              (omega arith, omega (arith, cell-eq i j (x % 32 - j + 4 * (x / 32 - i)))))
            (λ t bound.
              let e = cell-eq i j t in
              bounds-rect i (i + 4) j (j + 4) (cell i j t) (omega (arith, e)) (omega (arith, e))
                (omega (arith, e)) (omega (arith, e)));
      owned =
          AreOwn-tile own 16 1 0 32 (cell i j) (each 0 16 (λ t. load t (cell i j t)))
            (bm_main_adds 32 i j) mine
            (AreOwn-each own (λ t. load t (cell i j t)) 0 16 (λ t l h. mine t (omega arith)))
            (λ k. ground arith);
    }

-- The second copy of the loops is the first one.
last-main : (lda i : ℕ) → bm_last_rows lda i ≡ bm_main_rows lda i
unfolding bm_last_rows Last.bm_last_block Last.bm_last_loads Last.bm_last_adds Last.bm_last_stores
    bm_main_rows bm_main_block Main.bm_main_loads bm_main_adds Main.bm_main_stores
last-main lda i = refl

module _ {D : Type 0} (ops : DataOps D) (A B : ℕ → D) (own : ℕ → Bool) (r0 count r1 : ℕ)
    (end : r1 ≡ r0 + count * 4) (mine : (x : ℕ) → r0 ≤ x / 32 → x / 32 < r1 → own x ≡ true) where
  four_rows-Part :
      (i : ℕ)
      → r0 ≤ i
      → i + 4 ≤ r1
      → Part ops A B 32 0 32 Any (λ v. v) own (bm_main_rows 32 i) (rect i (i + 4) 0 32)
  unfolding bm_main_rows for_to
  four_rows-Part i l h =
      Part-for_by ops A B 32 0 32 Any (λ v. v) own (rect i (i + 4)) 4 (bm_main_block 32 i)
        (λ x. 0 ≤ x) (columns-IsBand i (i + 4)) (λ x ok. omega arith) 0 8 32 refl (omega arith)
        (λ j ok at low. block-Part ops A B i j low own (λ t bound.
          let e = cell-eq i j t in mine (cell i j t) (omega (arith, e)) (omega (arith, e))))

  -- The rows from `r0` to `r1`.
  pub bm_main-Part :
      Part ops A B 32 0 32 Any (λ v. v) own (for_by 4 r0 count (bm_main_rows 32)) (rect r0 r1 0 32)
  bm_main-Part =
      Part-for_by ops A B 32 0 32 Any (λ v. v) own (λ x y. rect x y 0 32) 4 (bm_main_rows 32)
        (λ x. r0 ≤ x) (rows-IsBand 0 32) (λ x ok. omega arith) r0 count r1 end (omega arith)
        (λ i ok at h. four_rows-Part i at h)

  pub bm_last-Part :
      Part ops A B 32 0 32 Any (λ v. v) own (for_by 4 r0 count (bm_last_rows 32)) (rect r0 r1 0 32)
  bm_last-Part =
      Part-for_by ops A B 32 0 32 Any (λ v. v) own (λ x y. rect x y 0 32) 4 (bm_last_rows 32)
        (λ x. r0 ≤ x) (rows-IsBand 0 32) (λ x ok. omega arith) r0 count r1 end (omega arith)
        (λ i ok at h.
          subst (λ p. Part ops A B 32 0 32 Any (λ v. v) own p (rect i (i + 4) 0 32))
            (sym (last-main 32 i)) (four_rows-Part i at h))
