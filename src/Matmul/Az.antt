-- ===== src/Matmul/Az.antt =====
-- riscv-tests/mt/az_matmul.c: eight elements of a row at a time, two products of each in a round;
-- each core has half of the rows. `tempC0` to `tempC7` are the variables 0 to 7, `tempA0` and
-- `tempA1` 8 and 9; `iToRow`, `jToRow` and `jToCol` are written out.
use rv32i_pipeline_fpga.Common.{
  ℕ, ◌+◌, ◌*◌, ◌/◌, ◌%◌, ◌^◌, ◌==◌, ltb, if◌then◌else◌, List, [], ◌∷◌, ◌++◌,
}
use rv32i_pipeline_fpga.Matmul.{Op, clear, fetch, accumulate_by, store, for_to}

unfoldable pub az_clears : List Op
az_clears = clear 0 ∷ clear 1 ∷ clear 2 ∷ clear 3 ∷ clear 4 ∷ clear 5 ∷ clear 6 ∷ clear 7 ∷ []

unfoldable pub az_adds : ℕ → ℕ → List Op
az_adds j i =
    let i_to_row = i * 2 ^ 5 in
    let j_to_row = j / 2 ^ 5 * 2 ^ 5 in
    let j_to_col = j % 32 in
    fetch 8 (i + j_to_row)
    ∷ fetch 9 (i + 1 + j_to_row)
    ∷ accumulate_by 0 8 (j_to_col + i_to_row)
    ∷ accumulate_by 1 8 (j_to_col + 1 + i_to_row)
    ∷ accumulate_by 2 8 (j_to_col + 2 + i_to_row)
    ∷ accumulate_by 3 8 (j_to_col + 3 + i_to_row)
    ∷ accumulate_by 4 8 (j_to_col + 4 + i_to_row)
    ∷ accumulate_by 5 8 (j_to_col + 5 + i_to_row)
    ∷ accumulate_by 6 8 (j_to_col + 6 + i_to_row)
    ∷ accumulate_by 7 8 (j_to_col + 7 + i_to_row)
    ∷ accumulate_by 0 9 (j_to_col + (i_to_row + 32))
    ∷ accumulate_by 1 9 (j_to_col + 1 + (i_to_row + 32))
    ∷ accumulate_by 2 9 (j_to_col + 2 + (i_to_row + 32))
    ∷ accumulate_by 3 9 (j_to_col + 3 + (i_to_row + 32))
    ∷ accumulate_by 4 9 (j_to_col + 4 + (i_to_row + 32))
    ∷ accumulate_by 5 9 (j_to_col + 5 + (i_to_row + 32))
    ∷ accumulate_by 6 9 (j_to_col + 6 + (i_to_row + 32))
    ∷ accumulate_by 7 9 (j_to_col + 7 + (i_to_row + 32))
    ∷ []

unfoldable pub az_stores : ℕ → List Op
az_stores j =
    store j 0
    ∷ store (j + 1) 1
    ∷ store (j + 2) 2
    ∷ store (j + 3) 3
    ∷ store (j + 4) 4
    ∷ store (j + 5) 5
    ∷ store (j + 6) 6
    ∷ store (j + 7) 7
    ∷ []

unfoldable pub az_block : ℕ → ℕ → List Op
az_block lda j = az_clears ++ (for_to 2 0 lda (az_adds j) ++ az_stores j)

-- What a core does.
unfoldable pub az_matmul : ℕ → ℕ → ℕ → List Op
az_matmul coreid ncores lda =
    if ltb 1 coreid
    then []
    else for_to 8 (coreid * 2 ^ 9) ((if ncores == 1 then 2 else coreid + 1) * 2 ^ 9) (az_block lda)
