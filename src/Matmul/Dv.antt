-- ===== src/Matmul/Dv.antt =====
-- riscv-tests/mt/dv_matmul.c: as bk_matmul.c, with the halves exchanged between the cores.
use rv32i_pipeline_fpga.Common.{
  ℕ, ◌+◌, ◌*◌, min, ltb, ◌==◌, ◌||◌, not, if◌then◌else◌, List, [], ◌∷◌, ◌++◌,
}
use rv32i_pipeline_fpga.Matmul.{Op, load, fetch, accumulate_by, store, for_to}

unfoldable pub dv_upper_loads : ℕ → ℕ → List Op
dv_upper_loads j i =
    load 0 (i + j * 32)
    ∷ load 1 (i + j * 32 + 1)
    ∷ load 2 (i + j * 32 + 2)
    ∷ load 3 (i + j * 32 + 3)
    ∷ load 4 (i + j * 32 + 4)
    ∷ load 5 (i + j * 32 + 5)
    ∷ load 6 (i + j * 32 + 6)
    ∷ load 7 (i + j * 32 + 7)
    ∷ []

unfoldable pub dv_upper_adds : ℕ → ℕ → ℕ → List Op
dv_upper_adds j i k =
    fetch 8 (j * 32 + k)
    ∷ accumulate_by 0 8 (k * 32 + i)
    ∷ accumulate_by 1 8 (k * 32 + i + 1)
    ∷ accumulate_by 2 8 (k * 32 + i + 2)
    ∷ accumulate_by 3 8 (k * 32 + i + 3)
    ∷ accumulate_by 4 8 (k * 32 + i + 4)
    ∷ accumulate_by 5 8 (k * 32 + i + 5)
    ∷ accumulate_by 6 8 (k * 32 + i + 6)
    ∷ accumulate_by 7 8 (k * 32 + i + 7)
    ∷ []

unfoldable pub dv_upper_stores : ℕ → ℕ → List Op
dv_upper_stores j i =
    store (i + j * 32) 0
    ∷ store (i + j * 32 + 1) 1
    ∷ store (i + j * 32 + 2) 2
    ∷ store (i + j * 32 + 3) 3
    ∷ store (i + j * 32 + 4) 4
    ∷ store (i + j * 32 + 5) 5
    ∷ store (i + j * 32 + 6) 6
    ∷ store (i + j * 32 + 7) 7
    ∷ []

-- `for (k = kk; k < kk+16 && k < 32; k++)`.
unfoldable pub dv_upper_block : ℕ → ℕ → ℕ → List Op
dv_upper_block kk j i =
    dv_upper_loads j i
    ++ (for_to 1 kk (min (kk + 16) 32) (dv_upper_adds j i) ++ dv_upper_stores j i)

unfoldable pub dv_upper : List Op
dv_upper = for_to 16 0 32 (λ kk. for_to 1 0 16 (λ j. for_to 8 0 32 (dv_upper_block kk j)))

unfoldable pub dv_lower_loads : ℕ → ℕ → List Op
dv_lower_loads j i =
    load 0 (i + j * 32)
    ∷ load 1 (i + j * 32 + 1)
    ∷ load 2 (i + j * 32 + 2)
    ∷ load 3 (i + j * 32 + 3)
    ∷ load 4 (i + j * 32 + 4)
    ∷ load 5 (i + j * 32 + 5)
    ∷ load 6 (i + j * 32 + 6)
    ∷ load 7 (i + j * 32 + 7)
    ∷ []

unfoldable pub dv_lower_adds : ℕ → ℕ → ℕ → List Op
dv_lower_adds j i k =
    fetch 8 (j * 32 + k)
    ∷ accumulate_by 0 8 (k * 32 + i)
    ∷ accumulate_by 1 8 (k * 32 + i + 1)
    ∷ accumulate_by 2 8 (k * 32 + i + 2)
    ∷ accumulate_by 3 8 (k * 32 + i + 3)
    ∷ accumulate_by 4 8 (k * 32 + i + 4)
    ∷ accumulate_by 5 8 (k * 32 + i + 5)
    ∷ accumulate_by 6 8 (k * 32 + i + 6)
    ∷ accumulate_by 7 8 (k * 32 + i + 7)
    ∷ []

unfoldable pub dv_lower_stores : ℕ → ℕ → List Op
dv_lower_stores j i =
    store (i + j * 32) 0
    ∷ store (i + j * 32 + 1) 1
    ∷ store (i + j * 32 + 2) 2
    ∷ store (i + j * 32 + 3) 3
    ∷ store (i + j * 32 + 4) 4
    ∷ store (i + j * 32 + 5) 5
    ∷ store (i + j * 32 + 6) 6
    ∷ store (i + j * 32 + 7) 7
    ∷ []

-- `for (k = kk; k < kk+16 && k < 32; k++)`.
unfoldable pub dv_lower_block : ℕ → ℕ → ℕ → List Op
dv_lower_block kk j i =
    dv_lower_loads j i
    ++ (for_to 1 kk (min (kk + 16) 32) (dv_lower_adds j i) ++ dv_lower_stores j i)

unfoldable pub dv_lower : List Op
dv_lower = for_to 16 0 32 (λ kk. for_to 1 16 32 (λ j. for_to 8 0 32 (dv_lower_block kk j)))

-- What a core does.
unfoldable pub dv_matmul : ℕ → ℕ → ℕ → List Op
dv_matmul coreid ncores lda =
    if ltb 1 coreid
    then []
    else (if not (coreid == 0) || ncores == 1 then dv_upper else [])
      ++ (if coreid == 0 then dv_lower else [])
