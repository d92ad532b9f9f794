-- ===== src/Pkg/Registers.antt =====
-- rtl/CPU_pkg.sv: the four pipeline registers and their value '0.
use rv32i_pipeline_fpga.Common.{ℕ, Bool, false}
use rv32i_pipeline_fpga.Pkg.{InstrName, lui}

-- `if_id_t`.
pub record IfId : Type 0 where
  pub pc : ℕ
  pub ir : ℕ
  pub instruction : InstrName

-- `id_ex_t`.
pub record IdEx : Type 0 where
  pub pc : ℕ
  pub func3 : ℕ
  pub src_a_sel : Bool
  pub rf_we : Bool
  pub mem_we : Bool
  pub mem_rden : Bool
  pub branch_i : Bool
  pub jal_i : Bool
  pub jalr_i : Bool
  pub mem_sign : Bool
  pub mem_size : ℕ
  pub src_b_sel : ℕ
  pub rf_sel : ℕ
  pub reg_write_addr : ℕ
  pub alu_fun : ℕ
  pub u_type : ℕ
  pub i_type : ℕ
  pub s_type : ℕ
  pub b_type : ℕ
  pub j_type : ℕ
  pub rs1_addr : ℕ
  pub rs2_addr : ℕ
  pub rs1 : ℕ
  pub rs2 : ℕ
  pub rs1_used : Bool
  pub rs2_used : Bool
  pub trap : Bool
  pub ebrak : Bool
  pub instruction : InstrName

-- `ex_mem_t`.
pub record ExMem : Type 0 where
  pub pc : ℕ
  pub rf_we : Bool
  pub mem_we : Bool
  pub mem_rden : Bool
  pub mem_sign : Bool
  pub mem_size : ℕ
  pub rf_sel : ℕ
  pub reg_write_addr : ℕ
  pub alu_result : ℕ
  pub data_in : ℕ
  pub trap : Bool
  pub ebrak : Bool
  pub instruction : InstrName

-- `mem_wb_t`.
pub record MemWb : Type 0 where
  pub rf_we : Bool
  pub reg_write_addr : ℕ
  pub reg_write_data : ℕ
  pub trap : Bool
  pub ebrak : Bool
  pub instruction : InstrName

abbrev pub if_id_reset : IfId
if_id_reset = record { pc = 0; ir = 0; instruction = lui }

abbrev pub id_ex_reset : IdEx
id_ex_reset = record {
  pc = 0;
  func3 = 0;
  src_a_sel = false;
  rf_we = false;
  mem_we = false;
  mem_rden = false;
  branch_i = false;
  jal_i = false;
  jalr_i = false;
  mem_sign = false;
  mem_size = 0;
  src_b_sel = 0;
  rf_sel = 0;
  reg_write_addr = 0;
  alu_fun = 0;
  u_type = 0;
  i_type = 0;
  s_type = 0;
  b_type = 0;
  j_type = 0;
  rs1_addr = 0;
  rs2_addr = 0;
  rs1 = 0;
  rs2 = 0;
  rs1_used = false;
  rs2_used = false;
  trap = false;
  ebrak = false;
  instruction = lui;
}

abbrev pub ex_mem_reset : ExMem
ex_mem_reset = record {
  pc = 0;
  rf_we = false;
  mem_we = false;
  mem_rden = false;
  mem_sign = false;
  mem_size = 0;
  rf_sel = 0;
  reg_write_addr = 0;
  alu_result = 0;
  data_in = 0;
  trap = false;
  ebrak = false;
  instruction = lui;
}

abbrev pub mem_wb_reset : MemWb
mem_wb_reset = record {
  rf_we = false;
  reg_write_addr = 0;
  reg_write_data = 0;
  trap = false;
  ebrak = false;
  instruction = lui;
}
