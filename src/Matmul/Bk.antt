-- ===== src/Matmul/Bk.antt =====
-- riscv-tests/mt/bk_matmul.c: eight elements of a row at a time, with half of the products in each
-- of two passes; each core has half of the rows. `temp0` to `temp7` are the variables 0 to 7,
-- `tempA` 8. `lda` is not used.
use rv32i_pipeline_fpga.Common.{
  ℕ, ◌+◌, ◌*◌, min, ltb, ◌==◌, ◌||◌, if◌then◌else◌, List, [], ◌∷◌, ◌++◌,
}
use rv32i_pipeline_fpga.Matmul.{Op, load, fetch, accumulate_by, store, for_to}

unfoldable pub bk_upper_loads : ℕ → ℕ → List Op
bk_upper_loads j i =
    load 0 (i + j * 32)
    ∷ load 1 (i + j * 32 + 1)
    ∷ load 2 (i + j * 32 + 2)
    ∷ load 3 (i + j * 32 + 3)
    ∷ load 4 (i + j * 32 + 4)
    ∷ load 5 (i + j * 32 + 5)
    ∷ load 6 (i + j * 32 + 6)
    ∷ load 7 (i + j * 32 + 7)
    ∷ []

unfoldable pub bk_upper_adds : ℕ → ℕ → ℕ → List Op
bk_upper_adds j i k =
    fetch 8 (j * 32 + k)
    ∷ accumulate_by 0 8 (k * 32 + i)
    ∷ accumulate_by 1 8 (k * 32 + i + 1)
    ∷ accumulate_by 2 8 (k * 32 + i + 2)
    ∷ accumulate_by 3 8 (k * 32 + i + 3)
    ∷ accumulate_by 4 8 (k * 32 + i + 4)
    ∷ accumulate_by 5 8 (k * 32 + i + 5)
    ∷ accumulate_by 6 8 (k * 32 + i + 6)
    ∷ accumulate_by 7 8 (k * 32 + i + 7)
    ∷ []

unfoldable pub bk_upper_stores : ℕ → ℕ → List Op
bk_upper_stores j i =
    store (i + j * 32) 0
    ∷ store (i + j * 32 + 1) 1
    ∷ store (i + j * 32 + 2) 2
    ∷ store (i + j * 32 + 3) 3
    ∷ store (i + j * 32 + 4) 4
    ∷ store (i + j * 32 + 5) 5
    ∷ store (i + j * 32 + 6) 6
    ∷ store (i + j * 32 + 7) 7
    ∷ []

-- `for (k = kk; k < kk+16 && k < 32; k++)`.
unfoldable pub bk_upper_block : ℕ → ℕ → ℕ → List Op
bk_upper_block kk j i =
    bk_upper_loads j i
    ++ (for_to 1 kk (min (kk + 16) 32) (bk_upper_adds j i) ++ bk_upper_stores j i)

unfoldable pub bk_upper : List Op
bk_upper = for_to 16 0 32 (λ kk. for_to 1 0 16 (λ j. for_to 8 0 32 (bk_upper_block kk j)))

unfoldable pub bk_lower_loads : ℕ → ℕ → List Op
bk_lower_loads j i =
    load 0 (i + j * 32)
    ∷ load 1 (i + j * 32 + 1)
    ∷ load 2 (i + j * 32 + 2)
    ∷ load 3 (i + j * 32 + 3)
    ∷ load 4 (i + j * 32 + 4)
    ∷ load 5 (i + j * 32 + 5)
    ∷ load 6 (i + j * 32 + 6)
    ∷ load 7 (i + j * 32 + 7)
    ∷ []

unfoldable pub bk_lower_adds : ℕ → ℕ → ℕ → List Op
bk_lower_adds j i k =
    fetch 8 (j * 32 + k)
    ∷ accumulate_by 0 8 (k * 32 + i)
    ∷ accumulate_by 1 8 (k * 32 + i + 1)
    ∷ accumulate_by 2 8 (k * 32 + i + 2)
    ∷ accumulate_by 3 8 (k * 32 + i + 3)
    ∷ accumulate_by 4 8 (k * 32 + i + 4)
    ∷ accumulate_by 5 8 (k * 32 + i + 5)
    ∷ accumulate_by 6 8 (k * 32 + i + 6)
    ∷ accumulate_by 7 8 (k * 32 + i + 7)
    ∷ []

unfoldable pub bk_lower_stores : ℕ → ℕ → List Op
bk_lower_stores j i =
    store (i + j * 32) 0
    ∷ store (i + j * 32 + 1) 1
    ∷ store (i + j * 32 + 2) 2
    ∷ store (i + j * 32 + 3) 3
    ∷ store (i + j * 32 + 4) 4
    ∷ store (i + j * 32 + 5) 5
    ∷ store (i + j * 32 + 6) 6
    ∷ store (i + j * 32 + 7) 7
    ∷ []

-- `for (k = kk; k < kk+16 && k < 32; k++)`.
unfoldable pub bk_lower_block : ℕ → ℕ → ℕ → List Op
bk_lower_block kk j i =
    bk_lower_loads j i
    ++ (for_to 1 kk (min (kk + 16) 32) (bk_lower_adds j i) ++ bk_lower_stores j i)

unfoldable pub bk_lower : List Op
bk_lower = for_to 16 0 32 (λ kk. for_to 1 16 32 (λ j. for_to 8 0 32 (bk_lower_block kk j)))

-- What a core does.
unfoldable pub bk_matmul : ℕ → ℕ → ℕ → List Op
bk_matmul coreid ncores lda =
    if ltb 1 coreid
    then []
    else (if coreid == 0 then bk_upper else [])
      ++ (if coreid == 1 || ncores == 1 then bk_lower else [])
