-- ===== src/Matmul/Bm/Main.antt =====
-- riscv-tests/mt/bm_matmul.c: the rows of a core that is not the last.
use rv32i_pipeline_fpga.Common.{ℕ, ◌+◌, ◌*◌, List, [], ◌∷◌, ◌++◌}
use rv32i_pipeline_fpga.Matmul.{Op, load, fetch, accumulate_by, store, for_to}

unfoldable pub bm_main_loads : ℕ → ℕ → ℕ → List Op
bm_main_loads lda i j =
    load 0 (j + i * lda)
    ∷ load 1 (j + 1 + i * lda)
    ∷ load 2 (j + 2 + i * lda)
    ∷ load 3 (j + 3 + i * lda)
    ∷ load 4 (j + (i + 1) * lda)
    ∷ load 5 (j + 1 + (i + 1) * lda)
    ∷ load 6 (j + 2 + (i + 1) * lda)
    ∷ load 7 (j + 3 + (i + 1) * lda)
    ∷ load 8 (j + (i + 2) * lda)
    ∷ load 9 (j + 1 + (i + 2) * lda)
    ∷ load 10 (j + 2 + (i + 2) * lda)
    ∷ load 11 (j + 3 + (i + 2) * lda)
    ∷ load 12 (j + (i + 3) * lda)
    ∷ load 13 (j + 1 + (i + 3) * lda)
    ∷ load 14 (j + 2 + (i + 3) * lda)
    ∷ load 15 (j + 3 + (i + 3) * lda)
    ∷ []

unfoldable pub bm_main_adds : ℕ → ℕ → ℕ → ℕ → List Op
bm_main_adds lda i j k =
    fetch 16 (k + i * lda)
    ∷ accumulate_by 0 16 (j + k * lda)
    ∷ accumulate_by 1 16 (j + 1 + k * lda)
    ∷ accumulate_by 2 16 (j + 2 + k * lda)
    ∷ accumulate_by 3 16 (j + 3 + k * lda)
    ∷ fetch 17 (k + (i + 1) * lda)
    ∷ accumulate_by 4 17 (j + k * lda)
    ∷ accumulate_by 5 17 (j + 1 + k * lda)
    ∷ accumulate_by 6 17 (j + 2 + k * lda)
    ∷ accumulate_by 7 17 (j + 3 + k * lda)
    ∷ fetch 18 (k + (i + 2) * lda)
    ∷ accumulate_by 8 18 (j + k * lda)
    ∷ accumulate_by 9 18 (j + 1 + k * lda)
    ∷ accumulate_by 10 18 (j + 2 + k * lda)
    ∷ accumulate_by 11 18 (j + 3 + k * lda)
    ∷ fetch 19 (k + (i + 3) * lda)
    ∷ accumulate_by 12 19 (j + k * lda)
    ∷ accumulate_by 13 19 (j + 1 + k * lda)
    ∷ accumulate_by 14 19 (j + 2 + k * lda)
    ∷ accumulate_by 15 19 (j + 3 + k * lda)
    ∷ []

unfoldable pub bm_main_stores : ℕ → ℕ → ℕ → List Op
bm_main_stores lda i j =
    store (j + i * lda) 0
    ∷ store (j + 1 + i * lda) 1
    ∷ store (j + 2 + i * lda) 2
    ∷ store (j + 3 + i * lda) 3
    ∷ store (j + (i + 1) * lda) 4
    ∷ store (j + 1 + (i + 1) * lda) 5
    ∷ store (j + 2 + (i + 1) * lda) 6
    ∷ store (j + 3 + (i + 1) * lda) 7
    ∷ store (j + (i + 2) * lda) 8
    ∷ store (j + 1 + (i + 2) * lda) 9
    ∷ store (j + 2 + (i + 2) * lda) 10
    ∷ store (j + 3 + (i + 2) * lda) 11
    ∷ store (j + (i + 3) * lda) 12
    ∷ store (j + 1 + (i + 3) * lda) 13
    ∷ store (j + 2 + (i + 3) * lda) 14
    ∷ store (j + 3 + (i + 3) * lda) 15
    ∷ []

-- `for (j = 0; j < lda; j += 4)`: four elements of each of four rows.
unfoldable pub bm_main_block : ℕ → ℕ → ℕ → List Op
bm_main_block lda i j =
    bm_main_loads lda i j ++ (for_to 1 0 lda (bm_main_adds lda i j) ++ bm_main_stores lda i j)

unfoldable pub bm_main_rows : ℕ → ℕ → List Op
bm_main_rows lda i = for_to 4 0 lda (bm_main_block lda i)
