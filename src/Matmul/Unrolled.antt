-- ===== src/Matmul/Unrolled.antt =====
-- df_matmul.c, cl_matmul.c, al_matmul.c, bf_matmul.c and cv_matmul.c: the groups that are written
-- out are regular.
use rv32i_pipeline_fpga.Common.{ℕ, ◌≡◌, refl}
use rv32i_pipeline_fpga.Matmul.{load, clear, each, for_by}
use rv32i_pipeline_fpga.Matmul.Sixteen.{sixteen}
use rv32i_pipeline_fpga.Matmul.Df.Left
use rv32i_pipeline_fpga.Matmul.Df.Left.{df_q1, df_q2}
use rv32i_pipeline_fpga.Matmul.Df.Right
use rv32i_pipeline_fpga.Matmul.Df.Right.{df_q3, df_q4}
use rv32i_pipeline_fpga.Matmul.Cl
use rv32i_pipeline_fpga.Matmul.Cl.{cl_left, cl_right_low, cl_right_high}
use rv32i_pipeline_fpga.Matmul.Al
use rv32i_pipeline_fpga.Matmul.Al.{al_left, al_right}
use rv32i_pipeline_fpga.Matmul.Bf
use rv32i_pipeline_fpga.Matmul.Bf.{bf_left, bf_right}
use rv32i_pipeline_fpga.Matmul.Cv.Upper
use rv32i_pipeline_fpga.Matmul.Cv.Upper.{cv_upper_strip}
use rv32i_pipeline_fpga.Matmul.Cv.Lower
use rv32i_pipeline_fpga.Matmul.Cv.Lower.{cv_lower_strip}
use rv32i_pipeline_fpga.Matmul.Strips.{products}

pub df_q1-sixteen : (lda j : ℕ) → df_q1 lda j ≡ sixteen load lda 0 j
unfolding df_q1 Left.df_q1_loads Left.df_q1_adds Left.df_q1_stores each
df_q1-sixteen lda j = refl

pub df_q2-sixteen : (lda j : ℕ) → df_q2 lda j ≡ sixteen load lda 0 j
unfolding df_q2 Left.df_q2_loads Left.df_q2_adds Left.df_q2_stores each
df_q2-sixteen lda j = refl

pub df_q3-sixteen : (lda j : ℕ) → df_q3 lda j ≡ sixteen load lda 16 j
unfolding df_q3 Right.df_q3_loads Right.df_q3_adds Right.df_q3_stores each
df_q3-sixteen lda j = refl

pub df_q4-sixteen : (lda j : ℕ) → df_q4 lda j ≡ sixteen load lda 16 j
unfolding df_q4 Right.df_q4_loads Right.df_q4_adds Right.df_q4_stores each
df_q4-sixteen lda j = refl

pub cl_left-sixteen : (lda j : ℕ) → cl_left lda j ≡ sixteen load lda 0 j
unfolding cl_left Cl.cl_left_loads Cl.cl_left_adds Cl.cl_left_stores each
cl_left-sixteen lda j = refl

pub cl_right_low-sixteen : (lda j : ℕ) → cl_right_low lda j ≡ sixteen load lda 16 j
unfolding cl_right_low Cl.cl_right_low_loads Cl.cl_right_low_adds Cl.cl_right_low_stores each
cl_right_low-sixteen lda j = refl

pub cl_right_high-sixteen : (lda j : ℕ) → cl_right_high lda j ≡ sixteen load lda 16 j
unfolding cl_right_high Cl.cl_right_high_loads Cl.cl_right_high_adds Cl.cl_right_high_stores each
cl_right_high-sixteen lda j = refl

pub al_left-sixteen : (lda j : ℕ) → al_left lda j ≡ sixteen load lda 0 j
unfolding al_left Al.al_left_loads Al.al_left_adds Al.al_left_stores each
al_left-sixteen lda j = refl

pub al_right-sixteen : (lda j : ℕ) → al_right lda j ≡ sixteen load lda 16 j
unfolding al_right Al.al_right_loads Al.al_right_adds Al.al_right_stores each
al_right-sixteen lda j = refl

pub bf_left-sixteen : (lda j : ℕ) → bf_left lda j ≡ sixteen (λ t i. clear t) lda 0 j
unfolding bf_left Bf.bf_left_clears Bf.bf_left_adds Bf.bf_left_stores each
bf_left-sixteen lda j = refl

pub bf_right-sixteen : (lda j : ℕ) → bf_right lda j ≡ sixteen (λ t i. clear t) lda 16 j
unfolding bf_right Bf.bf_right_clears Bf.bf_right_adds Bf.bf_right_stores each
bf_right-sixteen lda j = refl

pub cv_upper_strip-products :
    (lda j m n : ℕ) → cv_upper_strip lda j m n ≡ for_by 1 0 8 (products lda j m n)
unfolding cv_upper_strip Upper.cv_upper_products0 Upper.cv_upper_products1 Upper.cv_upper_products2
    Upper.cv_upper_products3 Upper.cv_upper_products4 Upper.cv_upper_products5
    Upper.cv_upper_products6 Upper.cv_upper_products7 for_by each
cv_upper_strip-products lda j m n = refl

pub cv_lower_strip-products :
    (lda j m n : ℕ) → cv_lower_strip lda j m n ≡ for_by 1 0 8 (products lda j m n)
unfolding cv_lower_strip Lower.cv_lower_products0 Lower.cv_lower_products1 Lower.cv_lower_products2
    Lower.cv_lower_products3 Lower.cv_lower_products4 Lower.cv_lower_products5
    Lower.cv_lower_products6 Lower.cv_lower_products7 for_by each
cv_lower_strip-products lda j m n = refl
