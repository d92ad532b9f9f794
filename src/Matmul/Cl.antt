-- ===== src/Matmul/Cl.antt =====
-- riscv-tests/mt/cl_matmul.c: as df_matmul.c, with one loop over the rows of the left half.
use rv32i_pipeline_fpga.Common.{ℕ, ◌+◌, ◌*◌, ltb, ◌==◌, ◌||◌, if◌then◌else◌, List, [], ◌∷◌, ◌++◌}
use rv32i_pipeline_fpga.Matmul.{Op, load, accumulate, store, for_by}

unfoldable pub cl_left_loads : ℕ → ℕ → List Op
cl_left_loads lda j =
    load 0 (j * lda)
    ∷ load 1 (1 + j * lda)
    ∷ load 2 (2 + j * lda)
    ∷ load 3 (3 + j * lda)
    ∷ load 4 (4 + j * lda)
    ∷ load 5 (5 + j * lda)
    ∷ load 6 (6 + j * lda)
    ∷ load 7 (7 + j * lda)
    ∷ load 8 (8 + j * lda)
    ∷ load 9 (9 + j * lda)
    ∷ load 10 (10 + j * lda)
    ∷ load 11 (11 + j * lda)
    ∷ load 12 (12 + j * lda)
    ∷ load 13 (13 + j * lda)
    ∷ load 14 (14 + j * lda)
    ∷ load 15 (15 + j * lda)
    ∷ []

unfoldable pub cl_left_adds : ℕ → ℕ → ℕ → List Op
cl_left_adds lda j k =
    accumulate 0 (j * lda + k) (k * lda)
    ∷ accumulate 1 (j * lda + k) (1 + k * lda)
    ∷ accumulate 2 (j * lda + k) (2 + k * lda)
    ∷ accumulate 3 (j * lda + k) (3 + k * lda)
    ∷ accumulate 4 (j * lda + k) (4 + k * lda)
    ∷ accumulate 5 (j * lda + k) (5 + k * lda)
    ∷ accumulate 6 (j * lda + k) (6 + k * lda)
    ∷ accumulate 7 (j * lda + k) (7 + k * lda)
    ∷ accumulate 8 (j * lda + k) (8 + k * lda)
    ∷ accumulate 9 (j * lda + k) (9 + k * lda)
    ∷ accumulate 10 (j * lda + k) (10 + k * lda)
    ∷ accumulate 11 (j * lda + k) (11 + k * lda)
    ∷ accumulate 12 (j * lda + k) (12 + k * lda)
    ∷ accumulate 13 (j * lda + k) (13 + k * lda)
    ∷ accumulate 14 (j * lda + k) (14 + k * lda)
    ∷ accumulate 15 (j * lda + k) (15 + k * lda)
    ∷ []

unfoldable pub cl_left_stores : ℕ → ℕ → List Op
cl_left_stores lda j =
    store (j * lda) 0
    ∷ store (1 + j * lda) 1
    ∷ store (2 + j * lda) 2
    ∷ store (3 + j * lda) 3
    ∷ store (4 + j * lda) 4
    ∷ store (5 + j * lda) 5
    ∷ store (6 + j * lda) 6
    ∷ store (7 + j * lda) 7
    ∷ store (8 + j * lda) 8
    ∷ store (9 + j * lda) 9
    ∷ store (10 + j * lda) 10
    ∷ store (11 + j * lda) 11
    ∷ store (12 + j * lda) 12
    ∷ store (13 + j * lda) 13
    ∷ store (14 + j * lda) 14
    ∷ store (15 + j * lda) 15
    ∷ []

unfoldable pub cl_left : ℕ → ℕ → List Op
cl_left lda j = cl_left_loads lda j ++ (for_by 1 0 32 (cl_left_adds lda j) ++ cl_left_stores lda j)

unfoldable pub cl_right_low_loads : ℕ → ℕ → List Op
cl_right_low_loads lda j =
    load 0 (16 + j * lda)
    ∷ load 1 (17 + j * lda)
    ∷ load 2 (18 + j * lda)
    ∷ load 3 (19 + j * lda)
    ∷ load 4 (20 + j * lda)
    ∷ load 5 (21 + j * lda)
    ∷ load 6 (22 + j * lda)
    ∷ load 7 (23 + j * lda)
    ∷ load 8 (24 + j * lda)
    ∷ load 9 (25 + j * lda)
    ∷ load 10 (26 + j * lda)
    ∷ load 11 (27 + j * lda)
    ∷ load 12 (28 + j * lda)
    ∷ load 13 (29 + j * lda)
    ∷ load 14 (30 + j * lda)
    ∷ load 15 (31 + j * lda)
    ∷ []

unfoldable pub cl_right_low_adds : ℕ → ℕ → ℕ → List Op
cl_right_low_adds lda j k =
    accumulate 0 (j * lda + k) (16 + k * lda)
    ∷ accumulate 1 (j * lda + k) (17 + k * lda)
    ∷ accumulate 2 (j * lda + k) (18 + k * lda)
    ∷ accumulate 3 (j * lda + k) (19 + k * lda)
    ∷ accumulate 4 (j * lda + k) (20 + k * lda)
    ∷ accumulate 5 (j * lda + k) (21 + k * lda)
    ∷ accumulate 6 (j * lda + k) (22 + k * lda)
    ∷ accumulate 7 (j * lda + k) (23 + k * lda)
    ∷ accumulate 8 (j * lda + k) (24 + k * lda)
    ∷ accumulate 9 (j * lda + k) (25 + k * lda)
    ∷ accumulate 10 (j * lda + k) (26 + k * lda)
    ∷ accumulate 11 (j * lda + k) (27 + k * lda)
    ∷ accumulate 12 (j * lda + k) (28 + k * lda)
    ∷ accumulate 13 (j * lda + k) (29 + k * lda)
    ∷ accumulate 14 (j * lda + k) (30 + k * lda)
    ∷ accumulate 15 (j * lda + k) (31 + k * lda)
    ∷ []

unfoldable pub cl_right_low_stores : ℕ → ℕ → List Op
cl_right_low_stores lda j =
    store (16 + j * lda) 0
    ∷ store (17 + j * lda) 1
    ∷ store (18 + j * lda) 2
    ∷ store (19 + j * lda) 3
    ∷ store (20 + j * lda) 4
    ∷ store (21 + j * lda) 5
    ∷ store (22 + j * lda) 6
    ∷ store (23 + j * lda) 7
    ∷ store (24 + j * lda) 8
    ∷ store (25 + j * lda) 9
    ∷ store (26 + j * lda) 10
    ∷ store (27 + j * lda) 11
    ∷ store (28 + j * lda) 12
    ∷ store (29 + j * lda) 13
    ∷ store (30 + j * lda) 14
    ∷ store (31 + j * lda) 15
    ∷ []

unfoldable pub cl_right_low : ℕ → ℕ → List Op
cl_right_low lda j =
    cl_right_low_loads lda j
    ++ (for_by 1 0 32 (cl_right_low_adds lda j) ++ cl_right_low_stores lda j)

unfoldable pub cl_right_high_loads : ℕ → ℕ → List Op
cl_right_high_loads lda j =
    load 0 (16 + j * lda)
    ∷ load 1 (17 + j * lda)
    ∷ load 2 (18 + j * lda)
    ∷ load 3 (19 + j * lda)
    ∷ load 4 (20 + j * lda)
    ∷ load 5 (21 + j * lda)
    ∷ load 6 (22 + j * lda)
    ∷ load 7 (23 + j * lda)
    ∷ load 8 (24 + j * lda)
    ∷ load 9 (25 + j * lda)
    ∷ load 10 (26 + j * lda)
    ∷ load 11 (27 + j * lda)
    ∷ load 12 (28 + j * lda)
    ∷ load 13 (29 + j * lda)
    ∷ load 14 (30 + j * lda)
    ∷ load 15 (31 + j * lda)
    ∷ []

unfoldable pub cl_right_high_adds : ℕ → ℕ → ℕ → List Op
cl_right_high_adds lda j k =
    accumulate 0 (j * lda + k) (16 + k * lda)
    ∷ accumulate 1 (j * lda + k) (17 + k * lda)
    ∷ accumulate 2 (j * lda + k) (18 + k * lda)
    ∷ accumulate 3 (j * lda + k) (19 + k * lda)
    ∷ accumulate 4 (j * lda + k) (20 + k * lda)
    ∷ accumulate 5 (j * lda + k) (21 + k * lda)
    ∷ accumulate 6 (j * lda + k) (22 + k * lda)
    ∷ accumulate 7 (j * lda + k) (23 + k * lda)
    ∷ accumulate 8 (j * lda + k) (24 + k * lda)
    ∷ accumulate 9 (j * lda + k) (25 + k * lda)
    ∷ accumulate 10 (j * lda + k) (26 + k * lda)
    ∷ accumulate 11 (j * lda + k) (27 + k * lda)
    ∷ accumulate 12 (j * lda + k) (28 + k * lda)
    ∷ accumulate 13 (j * lda + k) (29 + k * lda)
    ∷ accumulate 14 (j * lda + k) (30 + k * lda)
    ∷ accumulate 15 (j * lda + k) (31 + k * lda)
    ∷ []

unfoldable pub cl_right_high_stores : ℕ → ℕ → List Op
cl_right_high_stores lda j =
    store (16 + j * lda) 0
    ∷ store (17 + j * lda) 1
    ∷ store (18 + j * lda) 2
    ∷ store (19 + j * lda) 3
    ∷ store (20 + j * lda) 4
    ∷ store (21 + j * lda) 5
    ∷ store (22 + j * lda) 6
    ∷ store (23 + j * lda) 7
    ∷ store (24 + j * lda) 8
    ∷ store (25 + j * lda) 9
    ∷ store (26 + j * lda) 10
    ∷ store (27 + j * lda) 11
    ∷ store (28 + j * lda) 12
    ∷ store (29 + j * lda) 13
    ∷ store (30 + j * lda) 14
    ∷ store (31 + j * lda) 15
    ∷ []

unfoldable pub cl_right_high : ℕ → ℕ → List Op
cl_right_high lda j =
    cl_right_high_loads lda j
    ++ (for_by 1 0 32 (cl_right_high_adds lda j) ++ cl_right_high_stores lda j)

-- What a core does.
unfoldable pub cl_matmul : ℕ → ℕ → ℕ → List Op
cl_matmul coreid ncores lda =
    if ltb 1 coreid
    then []
    else (if coreid == 0 then for_by 1 0 32 (cl_left lda) else [])
      ++ (if coreid == 1 || ncores == 1
          then for_by 1 16 16 (cl_right_low lda) ++ for_by 1 0 16 (cl_right_high lda)
          else [])
