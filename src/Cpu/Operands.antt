-- ===== src/Cpu/Operands.antt =====
-- rtl/CPU_TOP.sv with rtl/Forwarding_Unit.sv: the operands that EX computes with are those of the
-- program order.
use rv32i_pipeline_fpga.Common.{
  ℕ, ◌==◌, ◌≡◌, refl, ◌⊎◌, Bool, true, false, not, ◌&&◌, ◌||◌, if◌then◌else◌, arith,
}
use rv32i_pipeline_fpga.Pkg.{wb_alu}
use rv32i_pipeline_fpga.Pkg.Registers.{IdEx, MemWb}
use rv32i_pipeline_fpga.Datapath.{four_to_one_mux}
use rv32i_pipeline_fpga.Control.{Control}
use rv32i_pipeline_fpga.Hazards.{Writers, forward_sel, forwarding_unit}
use rv32i_pipeline_fpga.Memories.{Registers, reg_file_read, reg_file_step}
use rv32i_pipeline_fpga.Cpu.{
  Config, Cpu, writers, forwarding, stalled, real_rs1, real_rs2, write_data,
}
use rv32i_pipeline_fpga.Cpu.Step.{next_registers}

-- The 'X control signals of an unknown opcode change no state: what a simulator makes of an 'X in
-- a condition.
pub record IsInert (x : Control) : Type 0 where
  pub no_rf_we : x.rf_we ≡ false
  pub no_mem_we : x.mem_we ≡ false
  pub no_mem_rden : x.mem_rden ≡ false
  pub no_branch : x.branch_i ≡ false
  pub no_jal : x.jal_i ≡ false
  pub no_jalr : x.jalr_i ≡ false

-- The value of register `a`, when `v` is what was read of it a cycle ago and `q` left MEM since.
abbrev pub latest : MemWb → ℕ → ℕ → ℕ
latest q a v =
    if a == q.reg_write_addr && q.rf_we then (if a == 0 then 0 else q.reg_write_data) else v

-- No instruction that writes a register other than through the ALU or a load is without `jal_i`
-- or `jalr_i`.
abbrev pub WritesAlu : IdEx → Type 0
WritesAlu q =
    q.rf_we ≡ true → q.mem_rden ≡ false → (q.rf_sel ≡ wb_alu) ⊎ ((q.jal_i || q.jalr_i) ≡ true)

-- The registers of the pipeline agree with the register file.
pub record InOrder (s : Cpu) : Type 0 where
  pub rs1_fresh :
      s.id_ex_q.rs1_used ≡ true
      → latest s.mem_wb_q s.id_ex_q.rs1_addr s.id_ex_q.rs1
        ≡ reg_file_read s.registers s.id_ex_q.rs1_addr
  pub rs2_fresh :
      s.id_ex_q.rs2_used ≡ true
      → latest s.mem_wb_q s.id_ex_q.rs2_addr s.id_ex_q.rs2
        ≡ reg_file_read s.registers s.id_ex_q.rs2_addr
  pub alu_writer :
      (s.id_ex_q.rs1_used || s.id_ex_q.rs2_used) ≡ true
      → s.ex_mem_q.rf_we ≡ true
      → s.ex_mem_q.mem_rden ≡ false
      → s.ex_mem_q.rf_sel ≡ wb_alu
  pub writes_alu : WritesAlu s.id_ex_q

-- Neither a trap nor a halt has reached the last stage.
pub record IsRunning (s : Cpu) : Type 0 where
  pub no_trap : s.mem_wb_q.trap ≡ false
  pub no_halt : s.halt_sig ≡ false

-- A write and a read of the register file, at any two addresses.
pub reg_file_read-step :
    (r : Registers) (en : Bool) (w a v : ℕ)
    → reg_file_read (reg_file_step r en w v) a
      ≡ (if a == w && en then (if a == 0 then 0 else v) else reg_file_read r a)
unfolding reg_file_read reg_file_step
reg_file_read-step r en w a v = ground arith

-- What the four-way multiplexer of an operand gives when the operand is not waiting for a load.
pub forwarded :
    (x v m b a : ℕ) (used : Bool) (w : Writers)
    → used ≡ true
    → four_to_one_mux x v m b 0 (forward_sel w a used) ≡ (
        if a == w.mem_reg_write_addr && w.mem_reg_we && not w.mem_dmem_rden
        then (if a == 0 then 0 else m)
        else if a == w.wb_reg_write_addr && w.wb_reg_we
        then (if a == 0 then 0 else b)
        else v)
unfolding four_to_one_mux forward_sel
forwarded x v m b a used w h = ground arith

module _ (c : Config) where
  write_data-alu :
      (s : Cpu) (d : ℕ) → s.ex_mem_q.rf_sel ≡ wb_alu → write_data c s d ≡ s.ex_mem_q.alu_result
  unfolding write_data four_to_one_mux
  write_data-alu s d h = ground arith

  pub real_rs1-mux :
      (s : Cpu)
      → real_rs1 c s
        ≡ four_to_one_mux c.x_word s.id_ex_q.rs1 s.ex_mem_q.alu_result s.mem_wb_q.reg_write_data 0
            (forward_sel (writers s) s.id_ex_q.rs1_addr s.id_ex_q.rs1_used)
  unfolding real_rs1 forwarding forwarding_unit
  real_rs1-mux s = refl

  pub real_rs2-mux :
      (s : Cpu)
      → real_rs2 c s
        ≡ four_to_one_mux c.x_word s.id_ex_q.rs2 s.ex_mem_q.alu_result s.mem_wb_q.reg_write_data 0
            (forward_sel (writers s) s.id_ex_q.rs2_addr s.id_ex_q.rs2_used)
  unfolding real_rs2 forwarding forwarding_unit
  real_rs2-mux s = refl

  -- When EX is not stalled, the operand rs1 that it uses is what a read of the register file gives
  -- after the instruction in MEM has written back, whatever the bus delivers.
  pub real_rs1-fresh :
      (s : Cpu) (d : ℕ)
      → InOrder s
      → stalled s ≡ false
      → s.id_ex_q.rs1_used ≡ true
      → real_rs1 c s ≡ reg_file_read (next_registers c s d) s.id_ex_q.rs1_addr
  unfolding next_registers forwarding forwarding_unit
  real_rs1-fresh s d o run used = ground (
    arith,
    real_rs1-mux s,
    forwarded c.x_word s.id_ex_q.rs1 s.ex_mem_q.alu_result s.mem_wb_q.reg_write_data
        s.id_ex_q.rs1_addr s.id_ex_q.rs1_used (writers s) used,
    reg_file_read-step s.registers s.ex_mem_q.rf_we s.ex_mem_q.reg_write_addr s.id_ex_q.rs1_addr
        (write_data c s d),
    write_data-alu s d,
    o.rs1_fresh,
    o.alu_writer,
  )

  -- The same of the operand rs2.
  pub real_rs2-fresh :
      (s : Cpu) (d : ℕ)
      → InOrder s
      → stalled s ≡ false
      → s.id_ex_q.rs2_used ≡ true
      → real_rs2 c s ≡ reg_file_read (next_registers c s d) s.id_ex_q.rs2_addr
  unfolding next_registers forwarding forwarding_unit
  real_rs2-fresh s d o run used = ground (
    arith,
    real_rs2-mux s,
    forwarded c.x_word s.id_ex_q.rs2 s.ex_mem_q.alu_result s.mem_wb_q.reg_write_data
        s.id_ex_q.rs2_addr s.id_ex_q.rs2_used (writers s) used,
    reg_file_read-step s.registers s.ex_mem_q.rf_we s.ex_mem_q.reg_write_addr s.id_ex_q.rs2_addr
        (write_data c s d),
    write_data-alu s d,
    o.rs2_fresh,
    o.alu_writer,
  )
