-- ===== src/Matmul/Df/Left.antt =====
-- riscv-tests/mt/df_matmul.c: the left half of `C`, which core 0 computes.
use rv32i_pipeline_fpga.Common.{ℕ, ◌+◌, ◌*◌, List, [], ◌∷◌, ◌++◌}
use rv32i_pipeline_fpga.Matmul.{Op, load, accumulate, store, for_by}

unfoldable pub df_q1_loads : ℕ → ℕ → List Op
df_q1_loads lda j =
    load 0 (j * lda)
    ∷ load 1 (1 + j * lda)
    ∷ load 2 (2 + j * lda)
    ∷ load 3 (3 + j * lda)
    ∷ load 4 (4 + j * lda)
    ∷ load 5 (5 + j * lda)
    ∷ load 6 (6 + j * lda)
    ∷ load 7 (7 + j * lda)
    ∷ load 8 (8 + j * lda)
    ∷ load 9 (9 + j * lda)
    ∷ load 10 (10 + j * lda)
    ∷ load 11 (11 + j * lda)
    ∷ load 12 (12 + j * lda)
    ∷ load 13 (13 + j * lda)
    ∷ load 14 (14 + j * lda)
    ∷ load 15 (15 + j * lda)
    ∷ []

unfoldable pub df_q1_adds : ℕ → ℕ → ℕ → List Op
df_q1_adds lda j k =
    accumulate 0 (j * lda + k) (k * lda)
    ∷ accumulate 1 (j * lda + k) (1 + k * lda)
    ∷ accumulate 2 (j * lda + k) (2 + k * lda)
    ∷ accumulate 3 (j * lda + k) (3 + k * lda)
    ∷ accumulate 4 (j * lda + k) (4 + k * lda)
    ∷ accumulate 5 (j * lda + k) (5 + k * lda)
    ∷ accumulate 6 (j * lda + k) (6 + k * lda)
    ∷ accumulate 7 (j * lda + k) (7 + k * lda)
    ∷ accumulate 8 (j * lda + k) (8 + k * lda)
    ∷ accumulate 9 (j * lda + k) (9 + k * lda)
    ∷ accumulate 10 (j * lda + k) (10 + k * lda)
    ∷ accumulate 11 (j * lda + k) (11 + k * lda)
    ∷ accumulate 12 (j * lda + k) (12 + k * lda)
    ∷ accumulate 13 (j * lda + k) (13 + k * lda)
    ∷ accumulate 14 (j * lda + k) (14 + k * lda)
    ∷ accumulate 15 (j * lda + k) (15 + k * lda)
    ∷ []

unfoldable pub df_q1_stores : ℕ → ℕ → List Op
df_q1_stores lda j =
    store (j * lda) 0
    ∷ store (1 + j * lda) 1
    ∷ store (2 + j * lda) 2
    ∷ store (3 + j * lda) 3
    ∷ store (4 + j * lda) 4
    ∷ store (5 + j * lda) 5
    ∷ store (6 + j * lda) 6
    ∷ store (7 + j * lda) 7
    ∷ store (8 + j * lda) 8
    ∷ store (9 + j * lda) 9
    ∷ store (10 + j * lda) 10
    ∷ store (11 + j * lda) 11
    ∷ store (12 + j * lda) 12
    ∷ store (13 + j * lda) 13
    ∷ store (14 + j * lda) 14
    ∷ store (15 + j * lda) 15
    ∷ []

unfoldable pub df_q1 : ℕ → ℕ → List Op
df_q1 lda j = df_q1_loads lda j ++ (for_by 1 0 32 (df_q1_adds lda j) ++ df_q1_stores lda j)

unfoldable pub df_q2_loads : ℕ → ℕ → List Op
df_q2_loads lda j =
    load 0 (j * lda)
    ∷ load 1 (1 + j * lda)
    ∷ load 2 (2 + j * lda)
    ∷ load 3 (3 + j * lda)
    ∷ load 4 (4 + j * lda)
    ∷ load 5 (5 + j * lda)
    ∷ load 6 (6 + j * lda)
    ∷ load 7 (7 + j * lda)
    ∷ load 8 (8 + j * lda)
    ∷ load 9 (9 + j * lda)
    ∷ load 10 (10 + j * lda)
    ∷ load 11 (11 + j * lda)
    ∷ load 12 (12 + j * lda)
    ∷ load 13 (13 + j * lda)
    ∷ load 14 (14 + j * lda)
    ∷ load 15 (15 + j * lda)
    ∷ []

unfoldable pub df_q2_adds : ℕ → ℕ → ℕ → List Op
df_q2_adds lda j k =
    accumulate 0 (j * lda + k) (k * lda)
    ∷ accumulate 1 (j * lda + k) (1 + k * lda)
    ∷ accumulate 2 (j * lda + k) (2 + k * lda)
    ∷ accumulate 3 (j * lda + k) (3 + k * lda)
    ∷ accumulate 4 (j * lda + k) (4 + k * lda)
    ∷ accumulate 5 (j * lda + k) (5 + k * lda)
    ∷ accumulate 6 (j * lda + k) (6 + k * lda)
    ∷ accumulate 7 (j * lda + k) (7 + k * lda)
    ∷ accumulate 8 (j * lda + k) (8 + k * lda)
    ∷ accumulate 9 (j * lda + k) (9 + k * lda)
    ∷ accumulate 10 (j * lda + k) (10 + k * lda)
    ∷ accumulate 11 (j * lda + k) (11 + k * lda)
    ∷ accumulate 12 (j * lda + k) (12 + k * lda)
    ∷ accumulate 13 (j * lda + k) (13 + k * lda)
    ∷ accumulate 14 (j * lda + k) (14 + k * lda)
    ∷ accumulate 15 (j * lda + k) (15 + k * lda)
    ∷ []

unfoldable pub df_q2_stores : ℕ → ℕ → List Op
df_q2_stores lda j =
    store (j * lda) 0
    ∷ store (1 + j * lda) 1
    ∷ store (2 + j * lda) 2
    ∷ store (3 + j * lda) 3
    ∷ store (4 + j * lda) 4
    ∷ store (5 + j * lda) 5
    ∷ store (6 + j * lda) 6
    ∷ store (7 + j * lda) 7
    ∷ store (8 + j * lda) 8
    ∷ store (9 + j * lda) 9
    ∷ store (10 + j * lda) 10
    ∷ store (11 + j * lda) 11
    ∷ store (12 + j * lda) 12
    ∷ store (13 + j * lda) 13
    ∷ store (14 + j * lda) 14
    ∷ store (15 + j * lda) 15
    ∷ []

unfoldable pub df_q2 : ℕ → ℕ → List Op
df_q2 lda j = df_q2_loads lda j ++ (for_by 1 0 32 (df_q2_adds lda j) ++ df_q2_stores lda j)
