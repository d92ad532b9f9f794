-- ===== src/Matmul/Halves.antt =====
-- df_matmul.c, cl_matmul.c, al_matmul.c and bf_matmul.c: what each loop over rows fills.
use rv32i_pipeline_fpga.Common.{
  ℕ, ◌+◌, ◌*◌, ◌%◌, ◌≤◌, ◌<◌, ◌≡◌, refl, List, ◌++◌, arith, Bool, true, not, ltb,
}
use rv32i_pipeline_fpga.Matmul.{DataOps, Op, load, clear, exec, for_by}
use rv32i_pipeline_fpga.Matmul.Df.Left.{df_q1, df_q2}
use rv32i_pipeline_fpga.Matmul.Df.Right.{df_q3, df_q4}
use rv32i_pipeline_fpga.Matmul.Cl.{cl_left, cl_right_low, cl_right_high}
use rv32i_pipeline_fpga.Matmul.Al.{al_left, al_right}
use rv32i_pipeline_fpga.Matmul.Bf.{bf_left, bf_right}
use rv32i_pipeline_fpga.Matmul.Tiles.{Any}
use rv32i_pipeline_fpga.Matmul.Regions.{rect, Part, Part-append}
use rv32i_pipeline_fpga.Matmul.Sixteen.{offset, offset-add, sixteen, sixteen-rows}
use rv32i_pipeline_fpga.Matmul.Unrolled.{
  df_q1-sixteen, df_q2-sixteen, df_q3-sixteen, df_q4-sixteen, cl_left-sixteen, cl_right_low-sixteen,
  cl_right_high-sixteen, al_left-sixteen, al_right-sixteen, bf_left-sixteen, bf_right-sixteen,
}

-- The elements of core 0: the left half.
abbrev pub left : ℕ → Bool
left i = ltb (i % 32) 16

pub left-offset : (j t : ℕ) → t < 16 → left (offset (0 + t) (j * 32)) ≡ true
left-offset j t bound = ground (arith, offset-add (0 + t) (j * 32))

pub right-offset : (j t : ℕ) → t < 16 → not (left (offset (16 + t) (j * 32))) ≡ true
right-offset j t bound = ground (arith, offset-add (16 + t) (j * 32))

module _ {D : Type 0} (ops : DataOps D) (A B : ℕ → D) (own : ℕ → Bool) where
  -- A half of `C`, from `from` of what it held.
  abbrev pub Half : (D → D) → List Op → ℕ → Type 0
  Half from p c0 = Part ops A B 32 0 32 Any from own p (rect 0 32 c0 (c0 + 16))

  module _ (c0 : ℕ) (fits : c0 + 16 ≤ 32)
      (mine : (j t : ℕ) → t < 16 → own (offset (c0 + t) (j * 32)) ≡ true) where
    -- Rows that start with what `C` holds.
    loaded :
        (body : ℕ → List Op) (r0 count r1 : ℕ)
        → r1 ≡ r0 + count * 1
        → ((j : ℕ) → body j ≡ sixteen load 32 c0 j)
        → Part ops A B 32 0 32 Any (λ v. v) own (for_by 1 r0 count body) (rect r0 r1 c0 (c0 + 16))
    unfolding exec
    loaded body r0 count r1 end same =
        sixteen-rows ops A B (λ v. v) load (λ t i s. refl) own (λ t i h. h) c0 fits body r0 count r1
          end mine same

    -- Rows that start with 0.
    cleared :
        (body : ℕ → List Op) (r0 count r1 : ℕ)
        → r1 ≡ r0 + count * 1
        → ((j : ℕ) → body j ≡ sixteen (λ t i. clear t) 32 c0 j)
        → Part ops A B 32 0 32 Any
            (λ v. ops.nought)
            own
            (for_by 1 r0 count body)
            (rect r0 r1 c0 (c0 + 16))
    unfolding exec
    cleared body r0 count r1 end same =
        sixteen-rows ops A B (λ v. ops.nought) (λ t i. clear t) (λ t i s. refl) own
          (λ t i h. omega arith) c0 fits body r0 count r1 end mine same

  module _ (mine : (j t : ℕ) → t < 16 → own (offset (0 + t) (j * 32)) ≡ true) where
    pub df_left-Part : Half (λ v. v) (for_by 1 0 16 (df_q1 32) ++ for_by 1 16 16 (df_q2 32)) 0
    df_left-Part =
        Part-append ops A B 32 0 32 Any (λ v. v) own _ _ (rect 0 16 0 16) (rect 16 32 0 16)
          (rect 0 32 0 16) (loaded 0 (omega arith) mine (df_q1 32) 0 16 16 refl (df_q1-sixteen 32))
          (loaded 0 (omega arith) mine (df_q2 32) 16 16 32 refl (df_q2-sixteen 32))
          (λ i. ground arith) (λ i. ground arith)

    pub cl_left-Part : Half (λ v. v) (for_by 1 0 32 (cl_left 32)) 0
    cl_left-Part = loaded 0 (omega arith) mine (cl_left 32) 0 32 32 refl (cl_left-sixteen 32)

    pub al_left-Part : Half (λ v. v) (for_by 1 0 32 (al_left 32)) 0
    al_left-Part = loaded 0 (omega arith) mine (al_left 32) 0 32 32 refl (al_left-sixteen 32)

    pub bf_left-Part : Half (λ v. ops.nought) (for_by 1 0 32 (bf_left 32)) 0
    bf_left-Part = cleared 0 (omega arith) mine (bf_left 32) 0 32 32 refl (bf_left-sixteen 32)

  module _ (mine : (j t : ℕ) → t < 16 → own (offset (16 + t) (j * 32)) ≡ true) where
    -- The two quarters of the right half, the lower one first.
    lower_first :
        (low high : ℕ → List Op)
        → ((j : ℕ) → low j ≡ sixteen load 32 16 j)
        → ((j : ℕ) → high j ≡ sixteen load 32 16 j)
        → Half (λ v. v) (for_by 1 16 16 low ++ for_by 1 0 16 high) 16
    lower_first low high low_same high_same =
        Part-append ops A B 32 0 32 Any (λ v. v) own _ _ (rect 16 32 16 32) (rect 0 16 16 32)
          (rect 0 32 16 32) (loaded 16 (omega arith) mine low 16 16 32 refl low_same)
          (loaded 16 (omega arith) mine high 0 16 16 refl high_same) (λ i. ground arith)
          (λ i. ground arith)

    pub df_right-Part : Half (λ v. v) (for_by 1 16 16 (df_q3 32) ++ for_by 1 0 16 (df_q4 32)) 16
    df_right-Part = lower_first (df_q3 32) (df_q4 32) (df_q3-sixteen 32) (df_q4-sixteen 32)

    pub cl_right-Part :
        Half (λ v. v) (for_by 1 16 16 (cl_right_low 32) ++ for_by 1 0 16 (cl_right_high 32)) 16
    cl_right-Part =
        lower_first (cl_right_low 32) (cl_right_high 32) (cl_right_low-sixteen 32)
          (cl_right_high-sixteen 32)

    pub al_right-Part : Half (λ v. v) (for_by 1 0 32 (al_right 32)) 16
    al_right-Part = loaded 16 (omega arith) mine (al_right 32) 0 32 32 refl (al_right-sixteen 32)

    pub bf_right-Part : Half (λ v. ops.nought) (for_by 1 0 32 (bf_right 32)) 16
    bf_right-Part = cleared 16 (omega arith) mine (bf_right 32) 0 32 32 refl (bf_right-sixteen 32)
