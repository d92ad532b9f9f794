-- ===== src/Matmul/CvRows.antt =====
-- cv_matmul.c: what each loop over rows fills.
use rv32i_pipeline_fpga.Common.{ℕ, ◌/◌, ◌≤◌, ◌<◌, ◌≡◌, refl, Bool, true}
use rv32i_pipeline_fpga.Matmul.{DataOps, for_by, each}
use rv32i_pipeline_fpga.Matmul.Tiles.{Any}
use rv32i_pipeline_fpga.Matmul.Regions.{rect, Part}
use rv32i_pipeline_fpga.Matmul.Cv.Upper
use rv32i_pipeline_fpga.Matmul.Cv.Upper.{cv_upper_row, cv_upper_strip}
use rv32i_pipeline_fpga.Matmul.Cv.Lower
use rv32i_pipeline_fpga.Matmul.Cv.Lower.{cv_lower_row, cv_lower_strip}
use rv32i_pipeline_fpga.Matmul.Strips.{strips-Part}
use rv32i_pipeline_fpga.Matmul.Unrolled.{cv_upper_strip-products, cv_lower_strip-products}

module _ {D : Type 0} (ops : DataOps D) (A B : ℕ → D) (own : ℕ → Bool) where
  pub cv_upper-Part :
      ((x : ℕ) → 0 ≤ x / 32 → x / 32 < 16 → own x ≡ true)
      → Part ops A B 32 0 32 Any (λ v. v) own (for_by 1 0 16 (cv_upper_row 32)) (rect 0 16 0 32)
  unfolding cv_upper_row Upper.cv_upper_fetches each
  cv_upper-Part mine =
      strips-Part ops A B own (cv_upper_strip 32) 0 16 16 (cv_upper_strip-products 32) refl mine

  pub cv_lower-Part :
      ((x : ℕ) → 16 ≤ x / 32 → x / 32 < 32 → own x ≡ true)
      → Part ops A B 32 0 32 Any (λ v. v) own (for_by 1 16 16 (cv_lower_row 32)) (rect 16 32 0 32)
  unfolding cv_lower_row Lower.cv_lower_fetches each
  cv_lower-Part mine =
      strips-Part ops A B own (cv_lower_strip 32) 16 16 32 (cv_lower_strip-products 32) refl mine
