-- ===== src/Hazards.antt =====
-- rtl/Forwarding_Unit.sv and rtl/HazardUnit.sv: which operand EX takes, when the pipe stalls and
-- what it flushes.
use rv32i_pipeline_fpga.Common.{ℕ, Bool, true, false, not, ◌&&◌, ◌||◌, ◌==◌, if◌then◌else◌}
use rv32i_pipeline_fpga.Pkg.{pc_branch}

-- The outputs of `Forwarding_Unit`.
pub record Forwarding : Type 0 where
  pub stall_if_id : Bool
  pub stall_id_ex : Bool
  pub flush_ex_mem : Bool
  pub src_a_forward_sel : ℕ
  pub src_b_forward_sel : ℕ

-- What `Forwarding_Unit` reads of the instructions in MEM and WB.
pub record Writers : Type 0 where
  pub mem_reg_write_addr : ℕ
  pub wb_reg_write_addr : ℕ
  pub mem_reg_we : Bool
  pub mem_dmem_rden : Bool
  pub wb_reg_we : Bool

-- The test of cases 2 and 4: the operand waits for a load in MEM.
abbrev pub needs_load : Writers → ℕ → Bool → Bool
needs_load w addr used = addr == w.mem_reg_write_addr && w.mem_reg_we && w.mem_dmem_rden && used

-- Cases 1 and 5 for rs1, 3 and 6 for rs2: the same ladder of tests.
unfoldable pub forward_sel : Writers → ℕ → Bool → ℕ
forward_sel w addr used =
    if addr == w.mem_reg_write_addr && w.mem_reg_we && not w.mem_dmem_rden && used
    then (if addr == 0b00000 then 0b11 else 0b01)
    else if addr == w.wb_reg_write_addr && w.wb_reg_we && used
    then (if addr == 0b00000 then 0b11 else 0b10)
    else 0b00

-- `Forwarding_Unit`: the addresses and uses of rs1 and rs2 in EX, and the writers.
unfoldable pub forwarding_unit : ℕ → ℕ → Bool → Bool → Writers → Forwarding
forwarding_unit rs1_addr rs2_addr rs1_used rs2_used w =
    let stall =
      if needs_load w rs1_addr rs1_used
      then true
      else if needs_load w rs2_addr rs2_used
      then true
      else false in
    record {
      stall_if_id = stall;
      stall_id_ex = stall;
      flush_ex_mem = stall;
      src_a_forward_sel = forward_sel w rs1_addr rs1_used;
      src_b_forward_sel = forward_sel w rs2_addr rs2_used;
    }

-- The outputs of `HazardUnit`.
pub record Flush : Type 0 where
  pub if_id : Bool
  pub id_ex : Bool

-- `HazardUnit`.
unfoldable pub hazard_unit : Bool → Bool → Bool → ℕ → Bool → Bool → Flush
hazard_unit branch_i jal_i jalr_i pc_sel if_id_stall trap =
    if if_id_stall
    then record { if_id = false; id_ex = false }
    else if jal_i || jalr_i
    then record { if_id = true; id_ex = true }
    else if branch_i && pc_sel == pc_branch
    then record { if_id = true; id_ex = true }
    else if trap
    then record { if_id = true; id_ex = true }
    else record { if_id = false; id_ex = false }
