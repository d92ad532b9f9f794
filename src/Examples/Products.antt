-- ===== src/Examples/Products.antt =====
-- Tests of the matrix kernels, and their properties on two small matrices of numbers.
use mathlib.Core.List.{List, [], ◌∷◌}
use rv32i_pipeline_fpga.Common.{ℕ, ◌+◌, ◌*◌, ◌/◌, ◌%◌, ◌==◌, ◌≡◌, if◌then◌else◌, refl}
use rv32i_pipeline_fpga.Matmul.{DataOps, Op, run, dot}
use rv32i_pipeline_fpga.Matmul.Cores.{Cores, exec0, exec1, Runs, done, first, second}
use rv32i_pipeline_fpga.Matmul.Regions.{product}
use rv32i_pipeline_fpga.Matmul.Shares.{df_kernel, cv_kernel, matmul_of, start_of}
use rv32i_pipeline_fpga.Matmul.Kernels.{kernels-Runs, kernels-run}

abbrev numbers : DataOps ℕ
numbers = record { nought = 0; add = λ x y. x + y; mul = λ x y. x * y }

-- A row of the first is its number throughout; the second is the unit matrix, twice.
abbrev rows : ℕ → ℕ
rows x = x / 32

abbrev twice : ℕ → ℕ
twice y = if y / 32 == y % 32 then 2 else 0

abbrev start : Cores ℕ
start = record { temp0 = λ t. 9; temp1 = λ t. 8; c = λ i. i % 5 }

-- The cores take turns.
alternate : List Op → List Op → Cores ℕ → Cores ℕ
alternate [] [] s = s
alternate [] (op ∷ q) s = alternate [] q (exec1 numbers rows twice op s)
alternate (op ∷ p) [] s = alternate p [] (exec0 numbers rows twice op s)
alternate (op ∷ p) (op' ∷ q) s =
    alternate p q (exec1 numbers rows twice op' (exec0 numbers rows twice op s))

alternate-Runs : (p q : List Op) (s : Cores ℕ) → Runs numbers rows twice p q s (alternate p q s)
unfolding alternate
alternate-Runs [] [] s = done s
alternate-Runs [] (op ∷ q) s = second op [] q s _ (alternate-Runs [] q _)
alternate-Runs (op ∷ p) [] s = first op p [] s _ (alternate-Runs p [] _)
alternate-Runs (op ∷ p) (op' ∷ q) s =
    first op p (op' ∷ q) s _ (second op' p q _ _ (alternate-Runs p q _))

kernels-Runs_example :
    (alternate (matmul_of cv_kernel 0 2 32) (matmul_of cv_kernel 1 2 32) start).c 101
    ≡ product numbers rows twice (start_of numbers cv_kernel) start.c 101
kernels-Runs_example =
    kernels-Runs numbers rows twice cv_kernel start
      (alternate (matmul_of cv_kernel 0 2 32) (matmul_of cv_kernel 1 2 32) start)
      (alternate-Runs (matmul_of cv_kernel 0 2 32) (matmul_of cv_kernel 1 2 32) start) 101

kernels-run_example :
    (run numbers rows twice (matmul_of df_kernel 0 1 32) (record { temp = λ t. 9; c = start.c })).c
      101
    ≡ product numbers rows twice (start_of numbers df_kernel) start.c 101
kernels-run_example =
    kernels-run numbers rows twice df_kernel (record { temp = λ t. 9; c = start.c }) 101

-- The element 101, in the row 3, held 1 and gets twice 3.
product_101 : product numbers rows twice (λ v. v) start.c 101 ≡ 7
unfolding dot
product_101 = refl
