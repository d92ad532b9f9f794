-- ===== src/Matmul/Bm.antt =====
-- riscv-tests/mt/bm_matmul.c: four elements of each of four rows at a time; each core has some of
-- the rows. `temp1` to `temp4_3` are the variables 0 to 15, `temp` to `temp_3` 16 to 19.
pub mod Main
pub mod Last
use rv32i_pipeline_fpga.Common.{ℕ, ◌+◌, ◌-◌, ◌*◌, ◌/◌, ◌==◌, if◌then◌else◌, List}
use rv32i_pipeline_fpga.Matmul.{Op, for_to}
use rv32i_pipeline_fpga.Matmul.Bm.Main.{bm_main_rows}
use rv32i_pipeline_fpga.Matmul.Bm.Last.{bm_last_rows}

-- What a core does. There is a core.
unfoldable pub bm_matmul : ℕ → ℕ → ℕ → List Op
bm_matmul coreid ncores lda =
    let space = lda / ncores in
    let max = space * coreid + space in
    if coreid == ncores - 1
    then for_to 4 (space * coreid) (lda / 4 * 4) (bm_last_rows lda)
    else for_to 4 (space * coreid) (max / 4 * 4) (bm_main_rows lda)
