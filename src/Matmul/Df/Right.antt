-- ===== src/Matmul/Df/Right.antt =====
-- riscv-tests/mt/df_matmul.c: the right half of `C`, which core 1 computes, or a core alone.
use rv32i_pipeline_fpga.Common.{ℕ, ◌+◌, ◌*◌, List, [], ◌∷◌, ◌++◌}
use rv32i_pipeline_fpga.Matmul.{Op, load, accumulate, store, for_by}

unfoldable pub df_q3_loads : ℕ → ℕ → List Op
df_q3_loads lda j =
    load 0 (16 + j * lda)
    ∷ load 1 (17 + j * lda)
    ∷ load 2 (18 + j * lda)
    ∷ load 3 (19 + j * lda)
    ∷ load 4 (20 + j * lda)
    ∷ load 5 (21 + j * lda)
    ∷ load 6 (22 + j * lda)
    ∷ load 7 (23 + j * lda)
    ∷ load 8 (24 + j * lda)
    ∷ load 9 (25 + j * lda)
    ∷ load 10 (26 + j * lda)
    ∷ load 11 (27 + j * lda)
    ∷ load 12 (28 + j * lda)
    ∷ load 13 (29 + j * lda)
    ∷ load 14 (30 + j * lda)
    ∷ load 15 (31 + j * lda)
    ∷ []

unfoldable pub df_q3_adds : ℕ → ℕ → ℕ → List Op
df_q3_adds lda j k =
    accumulate 0 (j * lda + k) (16 + k * lda)
    ∷ accumulate 1 (j * lda + k) (17 + k * lda)
    ∷ accumulate 2 (j * lda + k) (18 + k * lda)
    ∷ accumulate 3 (j * lda + k) (19 + k * lda)
    ∷ accumulate 4 (j * lda + k) (20 + k * lda)
    ∷ accumulate 5 (j * lda + k) (21 + k * lda)
    ∷ accumulate 6 (j * lda + k) (22 + k * lda)
    ∷ accumulate 7 (j * lda + k) (23 + k * lda)
    ∷ accumulate 8 (j * lda + k) (24 + k * lda)
    ∷ accumulate 9 (j * lda + k) (25 + k * lda)
    ∷ accumulate 10 (j * lda + k) (26 + k * lda)
    ∷ accumulate 11 (j * lda + k) (27 + k * lda)
    ∷ accumulate 12 (j * lda + k) (28 + k * lda)
    ∷ accumulate 13 (j * lda + k) (29 + k * lda)
    ∷ accumulate 14 (j * lda + k) (30 + k * lda)
    ∷ accumulate 15 (j * lda + k) (31 + k * lda)
    ∷ []

unfoldable pub df_q3_stores : ℕ → ℕ → List Op
df_q3_stores lda j =
    store (16 + j * lda) 0
    ∷ store (17 + j * lda) 1
    ∷ store (18 + j * lda) 2
    ∷ store (19 + j * lda) 3
    ∷ store (20 + j * lda) 4
    ∷ store (21 + j * lda) 5
    ∷ store (22 + j * lda) 6
    ∷ store (23 + j * lda) 7
    ∷ store (24 + j * lda) 8
    ∷ store (25 + j * lda) 9
    ∷ store (26 + j * lda) 10
    ∷ store (27 + j * lda) 11
    ∷ store (28 + j * lda) 12
    ∷ store (29 + j * lda) 13
    ∷ store (30 + j * lda) 14
    ∷ store (31 + j * lda) 15
    ∷ []

unfoldable pub df_q3 : ℕ → ℕ → List Op
df_q3 lda j = df_q3_loads lda j ++ (for_by 1 0 32 (df_q3_adds lda j) ++ df_q3_stores lda j)

unfoldable pub df_q4_loads : ℕ → ℕ → List Op
df_q4_loads lda j =
    load 0 (16 + j * lda)
    ∷ load 1 (17 + j * lda)
    ∷ load 2 (18 + j * lda)
    ∷ load 3 (19 + j * lda)
    ∷ load 4 (20 + j * lda)
    ∷ load 5 (21 + j * lda)
    ∷ load 6 (22 + j * lda)
    ∷ load 7 (23 + j * lda)
    ∷ load 8 (24 + j * lda)
    ∷ load 9 (25 + j * lda)
    ∷ load 10 (26 + j * lda)
    ∷ load 11 (27 + j * lda)
    ∷ load 12 (28 + j * lda)
    ∷ load 13 (29 + j * lda)
    ∷ load 14 (30 + j * lda)
    ∷ load 15 (31 + j * lda)
    ∷ []

unfoldable pub df_q4_adds : ℕ → ℕ → ℕ → List Op
df_q4_adds lda j k =
    accumulate 0 (j * lda + k) (16 + k * lda)
    ∷ accumulate 1 (j * lda + k) (17 + k * lda)
    ∷ accumulate 2 (j * lda + k) (18 + k * lda)
    ∷ accumulate 3 (j * lda + k) (19 + k * lda)
    ∷ accumulate 4 (j * lda + k) (20 + k * lda)
    ∷ accumulate 5 (j * lda + k) (21 + k * lda)
    ∷ accumulate 6 (j * lda + k) (22 + k * lda)
    ∷ accumulate 7 (j * lda + k) (23 + k * lda)
    ∷ accumulate 8 (j * lda + k) (24 + k * lda)
    ∷ accumulate 9 (j * lda + k) (25 + k * lda)
    ∷ accumulate 10 (j * lda + k) (26 + k * lda)
    ∷ accumulate 11 (j * lda + k) (27 + k * lda)
    ∷ accumulate 12 (j * lda + k) (28 + k * lda)
    ∷ accumulate 13 (j * lda + k) (29 + k * lda)
    ∷ accumulate 14 (j * lda + k) (30 + k * lda)
    ∷ accumulate 15 (j * lda + k) (31 + k * lda)
    ∷ []

unfoldable pub df_q4_stores : ℕ → ℕ → List Op
df_q4_stores lda j =
    store (16 + j * lda) 0
    ∷ store (17 + j * lda) 1
    ∷ store (18 + j * lda) 2
    ∷ store (19 + j * lda) 3
    ∷ store (20 + j * lda) 4
    ∷ store (21 + j * lda) 5
    ∷ store (22 + j * lda) 6
    ∷ store (23 + j * lda) 7
    ∷ store (24 + j * lda) 8
    ∷ store (25 + j * lda) 9
    ∷ store (26 + j * lda) 10
    ∷ store (27 + j * lda) 11
    ∷ store (28 + j * lda) 12
    ∷ store (29 + j * lda) 13
    ∷ store (30 + j * lda) 14
    ∷ store (31 + j * lda) 15
    ∷ []

unfoldable pub df_q4 : ℕ → ℕ → List Op
df_q4 lda j = df_q4_loads lda j ++ (for_by 1 0 32 (df_q4_adds lda j) ++ df_q4_stores lda j)
