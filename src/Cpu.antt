-- ===== src/Cpu.antt =====
-- rtl/CPU_TOP.sv: the state of the five-stage pipeline, its wires, and one clock edge.
-- Each wire is a function of the state and of the inputs that it depends on.
pub mod Step
pub mod Operands
pub mod Invariant
pub mod Reach
pub mod Stall
pub mod Execute
pub mod Simulation
use rv32i_pipeline_fpga.Common.{
  ℕ, ◌+◌, ◌*◌, ◌/◌, ◌%◌, ◌^◌, Bool, true, false, not, ◌&&◌, ◌||◌, ◌==◌, if◌then◌else◌, slice, flag,
  bit_of, concat, add32,
}
use rv32i_pipeline_fpga.Pkg.{opcode_of, func3_of, rd_of, rs1_of, rs2_of, decode_instr_name}
use rv32i_pipeline_fpga.Pkg.Registers.{IfId, IdEx, ExMem, MemWb}
use rv32i_pipeline_fpga.Datapath.{
  JumpTargets, Immediates, four_to_one_mux, two_to_one_mux, alu, immediate_generator,
  branch_condition_generator, pc_decoder, jump_branch_address_generator, program_counter,
}
use rv32i_pipeline_fpga.Control.{Control, control_unit_decoder}
use rv32i_pipeline_fpga.Hazards.{Writers, Forwarding, forwarding_unit, Flush, hazard_unit}
use rv32i_pipeline_fpga.Memories.{Registers, Imem, reg_file_read}

-- What the design leaves open: the program in the instruction memory, and the values that an 'X
-- takes, of a control signal and of a word.
pub record Config : Type 0 where
  pub rom : ℕ → ℕ
  pub x_control : Control
  pub x_word : ℕ

-- The registers of `CPU_TOP` and of the memories inside it.
pub record Cpu : Type 0 where
  pub imem : Imem
  pub registers : Registers
  pub if_id_q : IfId
  pub id_ex_q : IdEx
  pub ex_mem_q : ExMem
  pub mem_wb_q : MemWb
  pub halt_sig : Bool

-- What the forwarding unit reads of MEM and WB.
abbrev pub writers : Cpu → Writers
writers s = record {
  mem_reg_write_addr = s.ex_mem_q.reg_write_addr;
  wb_reg_write_addr = s.mem_wb_q.reg_write_addr;
  mem_reg_we = s.ex_mem_q.rf_we;
  mem_dmem_rden = s.ex_mem_q.mem_rden;
  wb_reg_we = s.mem_wb_q.rf_we;
}

-- The outputs of `Forwarding_Unit`.
unfoldable pub forwarding : Cpu → Forwarding
forwarding s =
    forwarding_unit s.id_ex_q.rs1_addr s.id_ex_q.rs2_addr s.id_ex_q.rs1_used s.id_ex_q.rs2_used
      (writers s)

-- `FORW_STALL_ID_EX`, `FORW_STALL_IF_ID` and `FORW_FLUSH_EX_MEM`.
abbrev pub stalled : Cpu → Bool
stalled s = (forwarding s).stall_id_ex

-- The outputs to the data bus: `mem_data`, `DATA_ADDRESS`, `DATA_OUT`, `IOBUS_RDEN`, `IOBUS_WE`.
pub record BusRequest : Type 0 where
  pub mem_data : ℕ
  pub data_address : ℕ
  pub data_out : ℕ
  pub iobus_rden : Bool
  pub iobus_we : Bool

module _ (c : Config) where
  -- `Forwarding_srcA_MUX` and `Forwarding_srcB_MUX`.
  unfoldable pub real_rs1 : Cpu → ℕ
  real_rs1 s =
      four_to_one_mux c.x_word s.id_ex_q.rs1 s.ex_mem_q.alu_result s.mem_wb_q.reg_write_data 0
        (forwarding s).src_a_forward_sel

  unfoldable pub real_rs2 : Cpu → ℕ
  real_rs2 s =
      four_to_one_mux c.x_word s.id_ex_q.rs2 s.ex_mem_q.alu_result s.mem_wb_q.reg_write_data 0
        (forwarding s).src_b_forward_sel

  -- `srcA_MUX` and `srcB_MUX`.
  unfoldable pub src_a : Cpu → ℕ
  src_a s = two_to_one_mux (real_rs1 s) s.id_ex_q.u_type s.id_ex_q.src_a_sel

  unfoldable pub src_b : Cpu → ℕ
  src_b s =
      four_to_one_mux c.x_word (real_rs2 s) s.id_ex_q.i_type s.id_ex_q.s_type s.id_ex_q.pc
        s.id_ex_q.src_b_sel

  -- `ALU_result`, which is `DATA_ADDRESS` too.
  unfoldable pub alu_result : Cpu → ℕ
  alu_result s = alu (src_a s) (src_b s) s.id_ex_q.alu_fun

  -- `PC_SEL`.
  unfoldable pub pc_sel : Cpu → ℕ
  pc_sel s =
      pc_decoder (branch_condition_generator (real_rs1 s) (real_rs2 s)) s.id_ex_q.branch_i
        s.id_ex_q.jal_i s.id_ex_q.jalr_i s.id_ex_q.func3

  unfoldable pub jump_targets : Cpu → JumpTargets
  jump_targets s =
      jump_branch_address_generator s.id_ex_q.pc s.id_ex_q.j_type s.id_ex_q.b_type s.id_ex_q.i_type
        (real_rs1 s)

  -- `PC`: the address that IMEM samples at the next edge.
  unfoldable pub next_pc : Cpu → Bool → ℕ
  next_pc s rst = program_counter c.x_word rst (pc_sel s) (add32 s.imem.pc_used 4) (jump_targets s)

  -- The outputs of `HazardUnit`.
  unfoldable pub hazard : Cpu → Flush
  hazard s =
      hazard_unit s.id_ex_q.branch_i s.id_ex_q.jal_i s.id_ex_q.jalr_i (pc_sel s)
        (forwarding s).stall_if_id s.id_ex_q.trap

  -- `reg_MUX`: what MEM writes back, with `DATA_IN` from the bus.
  unfoldable pub write_data : Cpu → ℕ → ℕ
  write_data s data_in =
      four_to_one_mux c.x_word (add32 s.ex_mem_q.pc 4) c.x_word data_in s.ex_mem_q.alu_result
        s.ex_mem_q.rf_sel

  -- `id_ex_d`: the decoded instruction, `rs1` and `rs2` being the read ports of the register file.
  unfoldable pub decode : IfId → ℕ → ℕ → IdEx
  decode q rs1 rs2 =
      let u = control_unit_decoder c.x_control (opcode_of q.ir) (func3_of q.ir) (flag q.ir 30) in
      let i = immediate_generator (slice q.ir 31 7) in
      record {
        pc = q.pc;
        func3 = func3_of q.ir;
        src_a_sel = u.src_a_sel;
        rf_we = u.rf_we;
        mem_we = u.mem_we;
        mem_rden = u.mem_rden;
        branch_i = u.branch_i;
        jal_i = u.jal_i;
        jalr_i = u.jalr_i;
        mem_sign = flag q.ir 14;
        mem_size = slice q.ir 13 12;
        src_b_sel = u.src_b_sel;
        rf_sel = u.rf_sel;
        reg_write_addr = rd_of q.ir;
        alu_fun = u.alu_fun;
        u_type = i.u_type;
        i_type = i.i_type;
        s_type = i.s_type;
        b_type = i.b_type;
        j_type = i.j_type;
        rs1_addr = rs1_of q.ir;
        rs2_addr = rs2_of q.ir;
        rs1 = rs1;
        rs2 = rs2;
        rs1_used = u.rs1_used;
        rs2_used = u.rs2_used;
        trap = u.system_call;
        ebrak = func3_of q.ir == 0b000 && func3_of q.ir == 0b001;
        instruction = q.instruction;
      }

  -- `if_id_d`: what fetch hands on.
  unfoldable pub fetched : Cpu → IfId
  fetched s = record {
    pc = s.imem.pc_used;
    ir = s.imem.instruction;
    instruction = decode_instr_name s.imem.instruction;
  }

  -- `ex_mem_d`.
  unfoldable pub executed : Cpu → ℕ → ExMem
  executed s data_in = record {
    pc = s.id_ex_q.pc;
    rf_we = s.id_ex_q.rf_we;
    mem_we = s.id_ex_q.mem_we;
    mem_rden = s.id_ex_q.mem_rden;
    mem_sign = s.id_ex_q.mem_sign;
    mem_size = s.id_ex_q.mem_size;
    rf_sel = s.id_ex_q.rf_sel;
    reg_write_addr = s.id_ex_q.reg_write_addr;
    alu_result = alu_result s;
    data_in = data_in;
    trap = s.id_ex_q.trap;
    ebrak = s.id_ex_q.ebrak;
    instruction = s.id_ex_q.instruction;
  }

  -- `mem_wb_d`.
  unfoldable pub completed : Cpu → ℕ → MemWb
  completed s data_in = record {
    rf_we = s.ex_mem_q.rf_we;
    reg_write_addr = s.ex_mem_q.reg_write_addr;
    reg_write_data = write_data s data_in;
    trap = s.ex_mem_q.trap;
    ebrak = s.ex_mem_q.ebrak;
    instruction = s.ex_mem_q.instruction;
  }

  unfoldable pub bus_request : Cpu → BusRequest
  bus_request s = record {
    mem_data = concat 1 s.id_ex_q.mem_size (bit_of s.id_ex_q.mem_sign);
    data_address = alu_result s;
    data_out = real_rs2 s;
    iobus_rden = s.id_ex_q.mem_rden;
    iobus_we = s.id_ex_q.mem_we && not (forwarding s).flush_ex_mem;
  }
