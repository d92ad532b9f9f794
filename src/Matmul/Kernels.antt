-- ===== src/Matmul/Kernels.antt =====
-- riscv-tests/mt/: what the kernels compute, on one core and on two.
use rv32i_pipeline_fpga.Common.{ℕ, ◌≡◌, refl, true, not, ltb, ◌&&◌}
use rv32i_pipeline_fpga.Matmul.{DataOps, Core, run}
use rv32i_pipeline_fpga.Matmul.Cores.{Cores, Runs}
use rv32i_pipeline_fpga.Matmul.Regions.{Part-run, Part-Runs, product}
use rv32i_pipeline_fpga.Matmul.Shares.{
  Kernel, matmul_of, start_of, own_of, first-Part, second-Part, alone-Part,
}

module _ {D : Type 0} (ops : DataOps D) (A B : ℕ → D) where
  -- Two cores run a kernel at the same time on matrices of 32 rows, their assignments in any order:
  -- in the end each of the 1024 elements of `C` is what the kernel starts from (what `C` held, or 0
  -- in bf_matmul and az_matmul), the products of its row of `A` and its column of `B` added in
  -- order, and the rest of `C` is as before.
  pub kernels-Runs :
      (k : Kernel) (s s' : Cores D)
      → Runs ops A B (matmul_of k 0 2 32) (matmul_of k 1 2 32) s s'
      → (i : ℕ) → s'.c i ≡ product ops A B (start_of ops k) s.c i
  kernels-Runs k s s' r i =
      Part-Runs ops A B (start_of ops k) (own_of k) (matmul_of k 0 2 32) (matmul_of k 1 2 32)
        (λ j. own_of k j && ltb j 1024) (λ j. not (own_of k j) && ltb j 1024) (first-Part ops A B k)
        (second-Part ops A B k) (λ j. refl) (λ j. refl) s s' r i

  -- One core alone computes the same.
  pub kernels-run :
      (k : Kernel) (s : Core D) (i : ℕ)
      → (run ops A B (matmul_of k 0 1 32) s).c i ≡ product ops A B (start_of ops k) s.c i
  kernels-run k s i =
      Part-run ops A B (start_of ops k) (λ j. true) (matmul_of k 0 1 32) (λ j. ltb j 1024)
        (alone-Part ops A B k) (λ j. refl) s i
