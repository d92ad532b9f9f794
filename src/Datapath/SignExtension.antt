-- ===== src/Datapath/SignExtension.antt =====
-- rtl/Immediate_Generator.sv against the immediates of the ISA.
use rv32i_pipeline_fpga.Common.{ℕ, ◌≡◌, slice, arith}
use rv32i_pipeline_fpga.Datapath.{immediate_generator}
use rv32i_pipeline_fpga.Isa.{imm_i, imm_s, imm_b, imm_u, imm_j}

pub i_type_lem : (ir : ℕ) → (immediate_generator (slice ir 31 7)).i_type ≡ imm_i ir
unfolding immediate_generator
i_type_lem ir = ground arith

pub s_type_lem : (ir : ℕ) → (immediate_generator (slice ir 31 7)).s_type ≡ imm_s ir
unfolding immediate_generator
s_type_lem ir = ground arith

pub b_type_lem : (ir : ℕ) → (immediate_generator (slice ir 31 7)).b_type ≡ imm_b ir
unfolding immediate_generator
b_type_lem ir = ground arith

pub u_type_lem : (ir : ℕ) → (immediate_generator (slice ir 31 7)).u_type ≡ imm_u ir
unfolding immediate_generator
u_type_lem ir = ground arith

pub j_type_lem : (ir : ℕ) → (immediate_generator (slice ir 31 7)).j_type ≡ imm_j ir
unfolding immediate_generator
j_type_lem ir = ground arith

-- The five outputs of the immediate generator, for any instruction word, are the five immediates
-- of the ISA: the fields put together, sign-extended to 32 bits, with the low zero bits of the
-- branch, jump and upper formats.
pub immediates_lem :
    (ir : ℕ)
    → let g = immediate_generator (slice ir 31 7) in
      (g.i_type ≡ imm_i ir)
      × (g.s_type ≡ imm_s ir)
      × (g.b_type ≡ imm_b ir)
      × (g.u_type ≡ imm_u ir)
      × (g.j_type ≡ imm_j ir)
immediates_lem ir = (i_type_lem ir, s_type_lem ir, b_type_lem ir, u_type_lem ir, j_type_lem ir)
