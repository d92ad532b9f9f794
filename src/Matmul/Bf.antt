-- ===== src/Matmul/Bf.antt =====
-- riscv-tests/mt/bf_matmul.c: as cl_matmul.c, with one loop for each half, from 0.
use rv32i_pipeline_fpga.Common.{ℕ, ◌+◌, ◌*◌, ◌==◌, ◌||◌, if◌then◌else◌, List, [], ◌∷◌, ◌++◌}
use rv32i_pipeline_fpga.Matmul.{Op, clear, accumulate, store, for_by}

unfoldable pub bf_left_clears : ℕ → ℕ → List Op
bf_left_clears lda j =
    clear 0
    ∷ clear 1
    ∷ clear 2
    ∷ clear 3
    ∷ clear 4
    ∷ clear 5
    ∷ clear 6
    ∷ clear 7
    ∷ clear 8
    ∷ clear 9
    ∷ clear 10
    ∷ clear 11
    ∷ clear 12
    ∷ clear 13
    ∷ clear 14
    ∷ clear 15
    ∷ []

unfoldable pub bf_left_adds : ℕ → ℕ → ℕ → List Op
bf_left_adds lda j k =
    accumulate 0 (j * lda + k) (k * lda)
    ∷ accumulate 1 (j * lda + k) (1 + k * lda)
    ∷ accumulate 2 (j * lda + k) (2 + k * lda)
    ∷ accumulate 3 (j * lda + k) (3 + k * lda)
    ∷ accumulate 4 (j * lda + k) (4 + k * lda)
    ∷ accumulate 5 (j * lda + k) (5 + k * lda)
    ∷ accumulate 6 (j * lda + k) (6 + k * lda)
    ∷ accumulate 7 (j * lda + k) (7 + k * lda)
    ∷ accumulate 8 (j * lda + k) (8 + k * lda)
    ∷ accumulate 9 (j * lda + k) (9 + k * lda)
    ∷ accumulate 10 (j * lda + k) (10 + k * lda)
    ∷ accumulate 11 (j * lda + k) (11 + k * lda)
    ∷ accumulate 12 (j * lda + k) (12 + k * lda)
    ∷ accumulate 13 (j * lda + k) (13 + k * lda)
    ∷ accumulate 14 (j * lda + k) (14 + k * lda)
    ∷ accumulate 15 (j * lda + k) (15 + k * lda)
    ∷ []

unfoldable pub bf_left_stores : ℕ → ℕ → List Op
bf_left_stores lda j =
    store (j * lda) 0
    ∷ store (1 + j * lda) 1
    ∷ store (2 + j * lda) 2
    ∷ store (3 + j * lda) 3
    ∷ store (4 + j * lda) 4
    ∷ store (5 + j * lda) 5
    ∷ store (6 + j * lda) 6
    ∷ store (7 + j * lda) 7
    ∷ store (8 + j * lda) 8
    ∷ store (9 + j * lda) 9
    ∷ store (10 + j * lda) 10
    ∷ store (11 + j * lda) 11
    ∷ store (12 + j * lda) 12
    ∷ store (13 + j * lda) 13
    ∷ store (14 + j * lda) 14
    ∷ store (15 + j * lda) 15
    ∷ []

unfoldable pub bf_left : ℕ → ℕ → List Op
bf_left lda j = bf_left_clears lda j ++ (for_by 1 0 32 (bf_left_adds lda j) ++ bf_left_stores lda j)

unfoldable pub bf_right_clears : ℕ → ℕ → List Op
bf_right_clears lda j =
    clear 0
    ∷ clear 1
    ∷ clear 2
    ∷ clear 3
    ∷ clear 4
    ∷ clear 5
    ∷ clear 6
    ∷ clear 7
    ∷ clear 8
    ∷ clear 9
    ∷ clear 10
    ∷ clear 11
    ∷ clear 12
    ∷ clear 13
    ∷ clear 14
    ∷ clear 15
    ∷ []

unfoldable pub bf_right_adds : ℕ → ℕ → ℕ → List Op
bf_right_adds lda j k =
    accumulate 0 (j * lda + k) (16 + k * lda)
    ∷ accumulate 1 (j * lda + k) (17 + k * lda)
    ∷ accumulate 2 (j * lda + k) (18 + k * lda)
    ∷ accumulate 3 (j * lda + k) (19 + k * lda)
    ∷ accumulate 4 (j * lda + k) (20 + k * lda)
    ∷ accumulate 5 (j * lda + k) (21 + k * lda)
    ∷ accumulate 6 (j * lda + k) (22 + k * lda)
    ∷ accumulate 7 (j * lda + k) (23 + k * lda)
    ∷ accumulate 8 (j * lda + k) (24 + k * lda)
    ∷ accumulate 9 (j * lda + k) (25 + k * lda)
    ∷ accumulate 10 (j * lda + k) (26 + k * lda)
    ∷ accumulate 11 (j * lda + k) (27 + k * lda)
    ∷ accumulate 12 (j * lda + k) (28 + k * lda)
    ∷ accumulate 13 (j * lda + k) (29 + k * lda)
    ∷ accumulate 14 (j * lda + k) (30 + k * lda)
    ∷ accumulate 15 (j * lda + k) (31 + k * lda)
    ∷ []

unfoldable pub bf_right_stores : ℕ → ℕ → List Op
bf_right_stores lda j =
    store (16 + j * lda) 0
    ∷ store (17 + j * lda) 1
    ∷ store (18 + j * lda) 2
    ∷ store (19 + j * lda) 3
    ∷ store (20 + j * lda) 4
    ∷ store (21 + j * lda) 5
    ∷ store (22 + j * lda) 6
    ∷ store (23 + j * lda) 7
    ∷ store (24 + j * lda) 8
    ∷ store (25 + j * lda) 9
    ∷ store (26 + j * lda) 10
    ∷ store (27 + j * lda) 11
    ∷ store (28 + j * lda) 12
    ∷ store (29 + j * lda) 13
    ∷ store (30 + j * lda) 14
    ∷ store (31 + j * lda) 15
    ∷ []

unfoldable pub bf_right : ℕ → ℕ → List Op
bf_right lda j =
    bf_right_clears lda j ++ (for_by 1 0 32 (bf_right_adds lda j) ++ bf_right_stores lda j)

-- What a core does.
unfoldable pub bf_matmul : ℕ → ℕ → ℕ → List Op
bf_matmul coreid ncores lda =
    (if coreid == 0 then for_by 1 0 32 (bf_left lda) else [])
    ++ (if coreid == 1 || ncores == 1 then for_by 1 0 32 (bf_right lda) else [])
