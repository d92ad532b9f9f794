-- ===== src/Matmul/Shares.antt =====
-- riscv-tests/mt/: the kernels, and the elements that a core of two, or a core alone, computes.
use rv32i_pipeline_fpga.Common.{ℕ, refl, List, [], ◌++◌, arith, Bool, true, not, ltb, ◌&&◌}
use rv32i_pipeline_fpga.Matmul.{DataOps, Op, for_to}
use rv32i_pipeline_fpga.Matmul.Df.{df_matmul}
use rv32i_pipeline_fpga.Matmul.Cl.{cl_matmul}
use rv32i_pipeline_fpga.Matmul.Al.{al_matmul}
use rv32i_pipeline_fpga.Matmul.Bf.{bf_matmul}
use rv32i_pipeline_fpga.Matmul.Bm.{bm_matmul}
use rv32i_pipeline_fpga.Matmul.Az.{az_matmul}
use rv32i_pipeline_fpga.Matmul.Cv.{cv_matmul}
use rv32i_pipeline_fpga.Matmul.Blocks.{bm_main-Part, bm_last-Part}
use rv32i_pipeline_fpga.Matmul.Bk.{bk_matmul}
use rv32i_pipeline_fpga.Matmul.Dv.{dv_matmul}
use rv32i_pipeline_fpga.Matmul.Octets.{bk_upper-Part, bk_lower-Part, dv_upper-Part, dv_lower-Part}
use rv32i_pipeline_fpga.Matmul.CvRows.{cv_upper-Part, cv_lower-Part}
use rv32i_pipeline_fpga.Matmul.Eights.{az_span-Part}
use rv32i_pipeline_fpga.Matmul.Tiles.{Any}
use rv32i_pipeline_fpga.Matmul.Regions.{rect, span, Part, Part-append, Part-same, Part-then_nothing}
use rv32i_pipeline_fpga.Matmul.Halves.{
  Half, left, left-offset, right-offset, df_left-Part, df_right-Part, cl_left-Part, cl_right-Part,
  al_left-Part, al_right-Part, bf_left-Part, bf_right-Part,
}

pub data Kernel : Type 0 where
  df_kernel : Kernel
  cl_kernel : Kernel
  al_kernel : Kernel
  bf_kernel : Kernel
  bm_kernel : Kernel
  az_kernel : Kernel
  cv_kernel : Kernel
  bk_kernel : Kernel
  dv_kernel : Kernel

-- What a core does, from its number, the number of cores and `lda`.
abbrev pub matmul_of : Kernel → ℕ → ℕ → ℕ → List Op
matmul_of df_kernel = df_matmul
matmul_of cl_kernel = cl_matmul
matmul_of al_kernel = al_matmul
matmul_of bf_kernel = bf_matmul
matmul_of bm_kernel = bm_matmul
matmul_of az_kernel = az_matmul
matmul_of cv_kernel = cv_matmul
matmul_of bk_kernel = bk_matmul
matmul_of dv_kernel = dv_matmul

-- What the products are added to: what `C` holds, or 0.
abbrev pub start_of : {D : Type 0} → DataOps D → Kernel → D → D
start_of ops df_kernel v = v
start_of ops cl_kernel v = v
start_of ops al_kernel v = v
start_of ops bf_kernel v = ops.nought
start_of ops bm_kernel v = v
start_of ops az_kernel v = ops.nought
start_of ops cv_kernel v = v
start_of ops bk_kernel v = v
start_of ops dv_kernel v = v

-- The upper half of `C`.
abbrev upper : ℕ → Bool
upper i = ltb i 512

-- The elements of the first of two cores.
abbrev pub own_of : Kernel → ℕ → Bool
own_of df_kernel = left
own_of cl_kernel = left
own_of al_kernel = left
own_of bf_kernel = left
own_of bm_kernel = upper
own_of az_kernel = upper
own_of cv_kernel = upper
own_of bk_kernel = upper
own_of dv_kernel = λ i. not (upper i)

module _ {D : Type 0} (ops : DataOps D) (A B : ℕ → D) (from : D → D) where
  -- A core that has the left half.
  left-Part :
      (p : List Op)
      → Half ops A B left from p 0
      → Part ops A B 32 0 32 Any from left (p ++ []) (λ i. left i && ltb i 1024)
  left-Part p half =
      Part-same ops A B 32 0 32 Any from left (p ++ []) (rect 0 32 0 16) (λ i. left i && ltb i 1024)
        (Part-then_nothing ops A B 32 0 32 Any from left p (rect 0 32 0 16) half)
        (λ i. ground arith)

  right-Part :
      (p : List Op)
      → Half ops A B (λ i. not (left i)) from p 16
      → Part ops A B 32 0 32 Any from (λ i. not (left i)) p (λ i. not (left i) && ltb i 1024)
  right-Part p half =
      Part-same ops A B 32 0 32 Any from (λ i. not (left i)) p (rect 0 32 16 32)
        (λ i. not (left i) && ltb i 1024) half (λ i. ground arith)

  both-Part :
      (p q : List Op)
      → Half ops A B (λ i. true) from p 0
      → Half ops A B (λ i. true) from q 16
      → Part ops A B 32 0 32 Any from (λ i. true) (p ++ q) (λ i. ltb i 1024)
  both-Part p q first second =
      Part-append ops A B 32 0 32 Any from (λ i. true) p q (rect 0 32 0 16) (rect 0 32 16 32)
        (λ i. ltb i 1024) first second (λ i. ground arith) (λ i. ground arith)

module _ {D : Type 0} (ops : DataOps D) (A B : ℕ → D) where
  pub first-Part :
      (k : Kernel)
      → Part ops A B 32 0 32 Any
          (start_of ops k)
          (own_of k)
          (matmul_of k 0 2 32)
          (λ i. own_of k i && ltb i 1024)
  unfolding df_matmul cl_matmul al_matmul bf_matmul bm_matmul az_matmul cv_matmul bk_matmul
      dv_matmul for_to
  first-Part df_kernel = left-Part ops A B _ _ (df_left-Part ops A B left left-offset)
  first-Part cl_kernel = left-Part ops A B _ _ (cl_left-Part ops A B left left-offset)
  first-Part al_kernel = left-Part ops A B _ _ (al_left-Part ops A B left left-offset)
  first-Part bf_kernel = left-Part ops A B _ _ (bf_left-Part ops A B left left-offset)
  first-Part bm_kernel =
      Part-same ops A B 32 0 32 Any (λ v. v) upper _ (rect 0 16 0 32) (λ i. upper i && ltb i 1024)
        (bm_main-Part ops A B upper 0 4 16 refl (λ x l h. ground arith)) (λ i. ground arith)
  first-Part az_kernel =
      Part-same ops A B 32 0 32 Any (λ v. ops.nought) upper _ (span 0 512)
        (λ i. upper i && ltb i 1024)
        (az_span-Part ops A B upper 0 64 512 refl refl (λ x l h. ground arith)) (λ i. ground arith)
  first-Part cv_kernel =
      Part-same ops A B 32 0 32 Any (λ v. v) upper _ (rect 0 16 0 32) (λ i. upper i && ltb i 1024)
        (cv_upper-Part ops A B upper (λ x l h. ground arith)) (λ i. ground arith)
  first-Part bk_kernel =
      Part-same ops A B 32 0 32 Any (λ v. v) upper _ (rect 0 16 0 32) (λ i. upper i && ltb i 1024)
        (Part-then_nothing ops A B 32 0 32 Any (λ v. v) upper _ (rect 0 16 0 32)
          (bk_upper-Part ops A B upper (λ x l h. ground arith)))
        (λ i. ground arith)
  first-Part dv_kernel =
      Part-same ops A B 32 0 32 Any (λ v. v) (λ i. not (upper i)) _ (rect 16 32 0 32)
        (λ i. not (upper i) && ltb i 1024)
        (dv_lower-Part ops A B (λ i. not (upper i)) (λ x l h. ground arith)) (λ i. ground arith)

  pub second-Part :
      (k : Kernel)
      → Part ops A B 32 0 32 Any
          (start_of ops k)
          (λ i. not (own_of k i))
          (matmul_of k 1 2 32)
          (λ i. not (own_of k i) && ltb i 1024)
  unfolding df_matmul cl_matmul al_matmul bf_matmul bm_matmul az_matmul cv_matmul bk_matmul
      dv_matmul for_to
  second-Part df_kernel = right-Part ops A B _ _ (df_right-Part ops A B _ right-offset)
  second-Part cl_kernel = right-Part ops A B _ _ (cl_right-Part ops A B _ right-offset)
  second-Part al_kernel = right-Part ops A B _ _ (al_right-Part ops A B _ right-offset)
  second-Part bf_kernel = right-Part ops A B _ _ (bf_right-Part ops A B _ right-offset)
  second-Part bm_kernel =
      Part-same ops A B 32 0 32 Any (λ v. v) (λ i. not (upper i)) _ (rect 16 32 0 32)
        (λ i. not (upper i) && ltb i 1024)
        (bm_last-Part ops A B (λ i. not (upper i)) 16 4 32 refl (λ x l h. ground arith))
        (λ i. ground arith)
  second-Part az_kernel =
      Part-same ops A B 32 0 32 Any (λ v. ops.nought) (λ i. not (upper i)) _ (span 512 1024)
        (λ i. not (upper i) && ltb i 1024)
        (az_span-Part ops A B (λ i. not (upper i)) 512 64 1024 refl refl (λ x l h. ground arith))
        (λ i. ground arith)
  second-Part cv_kernel =
      Part-same ops A B 32 0 32 Any (λ v. v) (λ i. not (upper i)) _ (rect 16 32 0 32)
        (λ i. not (upper i) && ltb i 1024)
        (Part-then_nothing ops A B 32 0 32 Any (λ v. v) (λ i. not (upper i)) _ (rect 16 32 0 32)
          (cv_lower-Part ops A B (λ i. not (upper i)) (λ x l h. ground arith)))
        (λ i. ground arith)
  second-Part bk_kernel =
      Part-same ops A B 32 0 32 Any (λ v. v) (λ i. not (upper i)) _ (rect 16 32 0 32)
        (λ i. not (upper i) && ltb i 1024)
        (bk_lower-Part ops A B (λ i. not (upper i)) (λ x l h. ground arith)) (λ i. ground arith)
  second-Part dv_kernel =
      Part-same ops A B 32 0 32 Any (λ v. v) (λ i. not (not (upper i))) _ (rect 0 16 0 32)
        (λ i. not (not (upper i)) && ltb i 1024)
        (Part-then_nothing ops A B 32 0 32 Any (λ v. v) (λ i. not (not (upper i))) _
          (rect 0 16 0 32)
          (dv_upper-Part ops A B (λ i. not (not (upper i))) (λ x l h. ground arith)))
        (λ i. ground arith)

  pub alone-Part :
      (k : Kernel)
      → Part ops A B 32 0 32 Any (start_of ops k) (λ i. true) (matmul_of k 0 1 32) (λ i. ltb i 1024)
  unfolding df_matmul cl_matmul al_matmul bf_matmul bm_matmul az_matmul cv_matmul bk_matmul
      dv_matmul for_to
  alone-Part df_kernel =
      both-Part ops A B _ _ _ (df_left-Part ops A B _ (λ j t h. refl))
        (df_right-Part ops A B _ (λ j t h. refl))
  alone-Part cl_kernel =
      both-Part ops A B _ _ _ (cl_left-Part ops A B _ (λ j t h. refl))
        (cl_right-Part ops A B _ (λ j t h. refl))
  alone-Part al_kernel =
      both-Part ops A B _ _ _ (al_left-Part ops A B _ (λ j t h. refl))
        (al_right-Part ops A B _ (λ j t h. refl))
  alone-Part bf_kernel =
      both-Part ops A B _ _ _ (bf_left-Part ops A B _ (λ j t h. refl))
        (bf_right-Part ops A B _ (λ j t h. refl))
  alone-Part bm_kernel =
      Part-same ops A B 32 0 32 Any (λ v. v) (λ i. true) _ (rect 0 32 0 32) (λ i. ltb i 1024)
        (bm_last-Part ops A B (λ i. true) 0 8 32 refl (λ x l h. refl)) (λ i. ground arith)
  alone-Part az_kernel =
      Part-same ops A B 32 0 32 Any (λ v. ops.nought) (λ i. true) _ (span 0 1024) (λ i. ltb i 1024)
        (az_span-Part ops A B (λ i. true) 0 128 1024 refl refl (λ x l h. refl)) (λ i. ground arith)
  alone-Part cv_kernel =
      Part-append ops A B 32 0 32 Any (λ v. v) (λ i. true) _ _ (rect 16 32 0 32) (rect 0 16 0 32)
        (λ i. ltb i 1024) (cv_lower-Part ops A B (λ i. true) (λ x l h. refl))
        (cv_upper-Part ops A B (λ i. true) (λ x l h. refl)) (λ i. ground arith) (λ i. ground arith)
  alone-Part bk_kernel =
      Part-append ops A B 32 0 32 Any (λ v. v) (λ i. true) _ _ (rect 0 16 0 32) (rect 16 32 0 32)
        (λ i. ltb i 1024) (bk_upper-Part ops A B (λ i. true) (λ x l h. refl))
        (bk_lower-Part ops A B (λ i. true) (λ x l h. refl)) (λ i. ground arith) (λ i. ground arith)
  alone-Part dv_kernel =
      Part-append ops A B 32 0 32 Any (λ v. v) (λ i. true) _ _ (rect 0 16 0 32) (rect 16 32 0 32)
        (λ i. ltb i 1024) (dv_upper-Part ops A B (λ i. true) (λ x l h. refl))
        (dv_lower-Part ops A B (λ i. true) (λ x l h. refl)) (λ i. ground arith) (λ i. ground arith)
