-- ===== src/Cpu/Step.antt =====
-- rtl/CPU_TOP.sv: the registers at one clock edge, one function for each `always_ff` block, and
-- runs of several edges.
use mathlib.Core.List.{List, [], ◌∷◌}
use rv32i_pipeline_fpga.Common.{ℕ, Bool, true, ◌||◌, if◌then◌else◌}
use rv32i_pipeline_fpga.Pkg.{rs1_of, rs2_of}
use rv32i_pipeline_fpga.Pkg.Registers.{
  IfId, IdEx, ExMem, MemWb, if_id_reset, id_ex_reset, ex_mem_reset, mem_wb_reset,
}
use rv32i_pipeline_fpga.Memories.{Registers, Imem, imem_step, reg_file_read, reg_file_step}
use rv32i_pipeline_fpga.Cpu.{
  Config, Cpu, forwarding, real_rs1, real_rs2, next_pc, hazard, write_data, decode, fetched,
  executed, completed,
}

-- `freeze`.
abbrev pub freeze : Cpu → Bool
freeze s = s.id_ex_q.trap || s.ex_mem_q.trap || s.mem_wb_q.trap || s.halt_sig

-- The inputs of one clock cycle: `RST` and `DATA_IN`.
pub record Input : Type 0 where
  pub rst : Bool
  pub data_in : ℕ

module _ (c : Config) where
  unfoldable pub next_imem : Cpu → Bool → Imem
  next_imem s rst =
      imem_step c.rom s.imem (next_pc c s rst) (forwarding s).stall_if_id (hazard c s).if_id
        (freeze s)

  unfoldable pub next_if_id : Cpu → Bool → IfId
  next_if_id s rst =
      if rst || (hazard c s).if_id
      then if_id_reset
      else if (forwarding s).stall_if_id
      then s.if_id_q
      else fetched c s

  unfoldable pub next_registers : Cpu → ℕ → Registers
  next_registers s data_in =
      reg_file_step s.registers s.ex_mem_q.rf_we s.ex_mem_q.reg_write_addr (write_data c s data_in)

  unfoldable pub next_id_ex : Cpu → Bool → IdEx
  next_id_ex s rst =
      if rst || (hazard c s).id_ex
      then id_ex_reset
      else if (forwarding s).stall_id_ex
      then record s.id_ex_q { rs1 = real_rs1 c s; rs2 = real_rs2 c s }
      else decode c s.if_id_q (reg_file_read s.registers (rs1_of s.if_id_q.ir))
          (reg_file_read s.registers (rs2_of s.if_id_q.ir))

  unfoldable pub next_ex_mem : Cpu → Input → ExMem
  next_ex_mem s i =
      if i.rst
      then ex_mem_reset
      else if (forwarding s).flush_ex_mem
      then ex_mem_reset
      else executed c s i.data_in

  unfoldable pub next_mem_wb : Cpu → Input → MemWb
  next_mem_wb s i =
      if i.rst
      then mem_wb_reset
      else if s.halt_sig || s.mem_wb_q.trap
      then s.mem_wb_q
      else completed c s i.data_in

  -- The block that clocks `mem_wb_q` is the only one that assigns `halt_sig`.
  unfoldable pub next_halt_sig : Cpu → Bool → Bool
  next_halt_sig s rst =
      if rst then s.halt_sig else if s.halt_sig || s.mem_wb_q.trap then true else s.halt_sig

  -- One edge of `CLK`.
  unfoldable pub step : Cpu → Input → Cpu
  step s i = record {
    imem = next_imem s i.rst;
    registers = next_registers s i.data_in;
    if_id_q = next_if_id s i.rst;
    id_ex_q = next_id_ex s i.rst;
    ex_mem_q = next_ex_mem s i;
    mem_wb_q = next_mem_wb s i;
    halt_sig = next_halt_sig s i.rst;
  }

  -- Several edges, with the inputs of each.
  unfoldable pub run : Cpu → List Input → Cpu
  run s [] = s
  run s (i ∷ is) = run (step s i) is
