-- ===== src/Matmul/Cv.antt =====
-- riscv-tests/mt/cv_matmul.c: the products are added to `C` in place; each core has half of the
-- rows. `TempA` is the variables 0 to 7, `TempB` 8 to 15.
pub mod Upper
pub mod Lower
use rv32i_pipeline_fpga.Common.{ℕ, ◌==◌, ◌||◌, if◌then◌else◌, List, [], ◌++◌}
use rv32i_pipeline_fpga.Matmul.{Op, for_by}
use rv32i_pipeline_fpga.Matmul.Cv.Upper.{cv_upper_row}
use rv32i_pipeline_fpga.Matmul.Cv.Lower.{cv_lower_row}

-- What a core does.
unfoldable pub cv_matmul : ℕ → ℕ → ℕ → List Op
cv_matmul coreid ncores lda =
    (if coreid == 1 || ncores == 1 then for_by 1 16 16 (cv_lower_row lda) else [])
    ++ (if coreid == 0 then for_by 1 0 16 (cv_upper_row lda) else [])
