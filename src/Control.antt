-- ===== src/Control.antt =====
-- rtl/Control_Unit_Decoder.sv: the control signals of an instruction.
pub mod Names
use rv32i_pipeline_fpga.Common.{ℕ, Bool, true, false, ◌==◌, if◌then◌else◌}
use rv32i_pipeline_fpga.Pkg.{
  alu_add, alu_sub, alu_and, alu_or, alu_xor, alu_sll, alu_srl, alu_sra, alu_slt, alu_sltu,
  alu_lui_copy, srca_rs1, srca_u_type, srcb_rs2, srcb_i_type, srcb_s_type, srcb_pc, wb_pc4,
  wb_data_in, wb_alu,
}

-- The outputs of `Control_Unit_Decoder`.
pub record Control : Type 0 where
  pub src_a_sel : Bool
  pub rf_we : Bool
  pub mem_we : Bool
  pub mem_rden : Bool
  pub branch_i : Bool
  pub jal_i : Bool
  pub jalr_i : Bool
  pub src_b_sel : ℕ
  pub rf_sel : ℕ
  pub alu_fun : ℕ
  pub rs1_used : Bool
  pub rs2_used : Bool
  pub system_call : Bool

-- The values given before the `case`.
abbrev pub base_control : Control
base_control = record {
  src_a_sel = srca_rs1;
  rf_we = false;
  mem_we = false;
  mem_rden = false;
  branch_i = false;
  jal_i = false;
  jalr_i = false;
  src_b_sel = srcb_rs2;
  rf_sel = wb_pc4;
  alu_fun = alu_add;
  rs1_used = false;
  rs2_used = false;
  system_call = false;
}

-- The `case(func3)` of the immediate instructions; `x` is its 'X.
unfoldable pub alu_fun_imm : ℕ → ℕ → Bool → ℕ
alu_fun_imm x func3 ir30 =
    if func3 == 0b000
    then alu_add
    else if func3 == 0b010
    then alu_slt
    else if func3 == 0b011
    then alu_sltu
    else if func3 == 0b110
    then alu_or
    else if func3 == 0b100
    then alu_xor
    else if func3 == 0b111
    then alu_and
    else if func3 == 0b001
    then alu_sll
    else if func3 == 0b101
    then (if ir30 then alu_sra else alu_srl)
    else x

-- The `case(func3)` of the register instructions; `x` is its 'X.
unfoldable pub alu_fun_reg : ℕ → ℕ → Bool → ℕ
alu_fun_reg x func3 ir30 =
    if func3 == 0b000
    then (if ir30 then alu_sub else alu_add)
    else if func3 == 0b001
    then alu_sll
    else if func3 == 0b010
    then alu_slt
    else if func3 == 0b011
    then alu_sltu
    else if func3 == 0b100
    then alu_xor
    else if func3 == 0b101
    then (if ir30 then alu_sra else alu_srl)
    else if func3 == 0b110
    then alu_or
    else if func3 == 0b111
    then alu_and
    else x

-- `Control_Unit_Decoder`. `x` holds the values that its 'X outputs take: in the `default` all but
-- `system_call`, which keeps its base value.
unfoldable pub control_unit_decoder : Control → ℕ → ℕ → Bool → Control
control_unit_decoder x opcode func3 ir30 =
    if opcode == 0b0001111
    then base_control
    else if opcode == 0b0110111
    then record base_control {
      alu_fun = alu_lui_copy;
      src_a_sel = srca_u_type;
      rf_sel = wb_alu;
      rf_we = true;
    }
    else if opcode == 0b0010111
    then record base_control {
      src_a_sel = srca_u_type;
      src_b_sel = srcb_pc;
      rf_sel = wb_alu;
      mem_rden = false;
      mem_we = false;
      rf_we = true;
    }
    else if opcode == 0b1101111
    then record base_control {
      src_a_sel = srca_u_type;
      src_b_sel = srcb_pc;
      rf_sel = wb_pc4;
      jal_i = true;
      rf_we = true;
    }
    else if opcode == 0b1100111
    then record base_control { rf_sel = wb_pc4; jalr_i = true; rf_we = true; rs1_used = true }
    else if opcode == 0b0000011
    then record base_control {
      src_a_sel = srca_rs1;
      src_b_sel = srcb_i_type;
      rf_sel = wb_data_in;
      mem_rden = true;
      rf_we = true;
      rs1_used = true;
    }
    else if opcode == 0b0010011
    then record base_control {
      alu_fun = alu_fun_imm x.alu_fun func3 ir30;
      src_a_sel = srca_rs1;
      src_b_sel = srcb_i_type;
      rf_sel = wb_alu;
      rf_we = true;
      rs1_used = true;
    }
    else if opcode == 0b0110011
    then record base_control {
      rf_we = true;
      rs1_used = true;
      rs2_used = true;
      rf_sel = wb_alu;
      alu_fun = alu_fun_reg x.alu_fun func3 ir30;
    }
    else if opcode == 0b0100011
    then record base_control {
      src_b_sel = srcb_s_type;
      mem_we = true;
      rs2_used = true;
      rs1_used = true;
    }
    else if opcode == 0b1100011
    then record base_control { branch_i = true; rs1_used = true; rs2_used = true }
    else if opcode == 0b1110011
    then record base_control { system_call = func3 == 0b000 }
    else record x { system_call = false }
