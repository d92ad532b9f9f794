-- ===== src/Matmul/Df.antt =====
-- riscv-tests/mt/df_matmul.c: sixteen elements of a row at a time; each core has half of the
-- columns.
pub mod Left
pub mod Right
use rv32i_pipeline_fpga.Common.{ℕ, ◌==◌, ◌||◌, if◌then◌else◌, List, [], ◌++◌}
use rv32i_pipeline_fpga.Matmul.{Op, for_by}
use rv32i_pipeline_fpga.Matmul.Df.Left.{df_q1, df_q2}
use rv32i_pipeline_fpga.Matmul.Df.Right.{df_q3, df_q4}

-- What a core does.
unfoldable pub df_matmul : ℕ → ℕ → ℕ → List Op
df_matmul coreid ncores lda =
    (if coreid == 0 then for_by 1 0 16 (df_q1 lda) ++ for_by 1 16 16 (df_q2 lda) else [])
    ++ (if coreid == 1 || ncores == 1
        then for_by 1 16 16 (df_q3 lda) ++ for_by 1 0 16 (df_q4 lda)
        else [])
