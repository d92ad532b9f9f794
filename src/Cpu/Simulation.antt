-- ===== src/Cpu/Simulation.antt =====
-- The pipeline of rtl/CPU_TOP.sv against the ISA: which instructions it holds, when one retires,
-- and the relation to the programmer's state.
pub mod Retire
pub mod Fetch
pub mod Refine
pub mod Step
pub mod Execution
use rv32i_pipeline_fpga.Common.{ℕ, ◌≡◌, Bool, true, false, not, ◌&&◌, if◌then◌else◌, add32}
use rv32i_pipeline_fpga.Pkg.{decode_instr_name}
use rv32i_pipeline_fpga.Pkg.Registers.{IfId, IdEx, if_id_reset}
use rv32i_pipeline_fpga.Memories.{Imem, imem_word_address, reg_file_read}
use rv32i_pipeline_fpga.Cpu.{Config, Cpu, forwarding, stalled, hazard, decode}
use rv32i_pipeline_fpga.Cpu.Step.{next_registers}
use rv32i_pipeline_fpga.Isa.{Arch}

-- How far the pipe has filled up since the last redirection of the PC: an instruction of the
-- program order is in IMEM's register alone, in IF/ID too, or in ID/EX too.
pub data Occupancy : Type 0 where
  empty half full : Occupancy

abbrev pub is_full : Occupancy → Bool
is_full full = true
is_full _ = false

abbrev fill : Occupancy → Occupancy
fill empty = half
fill half = full
fill full = full

-- An instruction leaves EX for MEM at the next edge.
abbrev pub retires : Cpu → Occupancy → Bool
retires s o = is_full o && not (stalled s)

module _ (c : Config) where
  -- The instruction that the memory holds for a PC.
  abbrev pub fetch : ℕ → ℕ
  fetch p = c.rom (imem_word_address p)

  -- The contents of IMEM's registers and of IF/ID for the instruction at `p`.
  abbrev pub imem_at : ℕ → Imem
  imem_at p = record { instruction = fetch p; pc_used = p }

  abbrev pub slot : ℕ → IfId
  slot p = record { pc = p; ir = fetch p; instruction = decode_instr_name (fetch p) }

  abbrev pub next_occupancy : Cpu → Occupancy → Occupancy
  next_occupancy s o = if stalled s then o else if (hazard c s).if_id then empty else fill o

-- What ID/EX holds where no instruction of the program order is.
pub record IsBubble (q : IdEx) : Type 0 where
  pub no_rf_we : q.rf_we ≡ false
  pub no_mem_we : q.mem_we ≡ false
  pub no_mem_rden : q.mem_rden ≡ false
  pub no_branch : q.branch_i ≡ false
  pub no_jal : q.jal_i ≡ false
  pub no_jalr : q.jalr_i ≡ false
  pub no_trap : q.trap ≡ false

-- `Tracks c s o p`: the pipe holds the instructions of the program order from `p` on, as many as
-- `o` says, and nothing else in front of EX.
pub data Tracks (c : Config) (s : Cpu) (o : Occupancy) (p : ℕ) : Type 0 where
  at_empty :
      o ≡ empty
      → IsBubble s.id_ex_q
      → s.if_id_q ≡ if_id_reset
      → s.imem ≡ imem_at c p
      → Tracks c s o p
  at_half :
      o ≡ half
      → IsBubble s.id_ex_q
      → s.if_id_q ≡ slot c p
      → s.imem ≡ imem_at c (add32 p 4)
      → Tracks c s o p
  at_full :
      o ≡ full
      → (rs1 rs2 : ℕ) → s.id_ex_q ≡ decode c (slot c p) rs1 rs2
      → s.if_id_q ≡ slot c (add32 p 4)
      → s.imem ≡ imem_at c (add32 (add32 p 4) 4)
      → Tracks c s o p

-- The pipe implements the programmer's state `t`: it holds the instructions from `t.pc` on, and
-- the register file, after the write of the instruction in MEM, holds what `t` reads; `d` is what
-- the bus delivers in this cycle.
pub record Implements (c : Config) (s : Cpu) (o : Occupancy) (d : ℕ) (t : Arch) : Type 0 where
  pub holds : Tracks c s o t.pc
  pub same_reads : (r : ℕ) → reg_file_read (next_registers c s d) r ≡ t.reads r
