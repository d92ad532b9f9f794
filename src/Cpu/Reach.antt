-- ===== src/Cpu/Reach.antt =====
-- rtl/CPU_TOP.sv: the states that a run of the pipeline passes through, from a reset on, as long as
-- no trap has reached the last stage.
use rv32i_pipeline_fpga.Common.{ℕ, ◌≡◌, true, false}
use rv32i_pipeline_fpga.Memories.{reg_file_read}
use rv32i_pipeline_fpga.Cpu.{Config, Cpu, stalled, real_rs1, real_rs2}
use rv32i_pipeline_fpga.Cpu.Step.{next_registers, step}
use rv32i_pipeline_fpga.Cpu.Operands.{IsInert, InOrder, IsRunning, real_rs1-fresh, real_rs2-fresh}
use rv32i_pipeline_fpga.Cpu.Invariant.{step-InOrder, reset-InOrder}

-- `Reach c s`: `s` follows an edge with `RST` high, in any state, and any number of edges with
-- `RST` low out of running states, whatever the bus delivers.
pub data Reach (c : Config) : Cpu → Type 0 where
  reset : (s : Cpu) (d : ℕ) → Reach c (step c s (record { rst = true; data_in = d }))
  edge :
      {s : Cpu} (d : ℕ)
      → Reach c s
      → IsRunning s
      → Reach c (step c s (record { rst = false; data_in = d }))

pub Reach-InOrder : {c : Config} {s : Cpu} → IsInert c.x_control → Reach c s → InOrder s
Reach-InOrder {c} x (reset s d) = reset-InOrder c x s d
Reach-InOrder {c} x (edge {s = t} d r live) = step-InOrder c x t d (Reach-InOrder x r) live

-- In every state that a run from reset reaches before a trap or a halt, whatever the bus has
-- delivered: if EX is not stalled, each operand that its instruction uses is what the register
-- file will hold once the instruction ahead of it, in MEM, has written back. The 'X control
-- signals of an unknown opcode are taken to change no state.
pub operands_in_order :
    (c : Config) (s : Cpu) (d : ℕ)
    → IsInert c.x_control
    → Reach c s
    → stalled s ≡ false
    → (s.id_ex_q.rs1_used ≡ true
        → real_rs1 c s ≡ reg_file_read (next_registers c s d) s.id_ex_q.rs1_addr)
      × (s.id_ex_q.rs2_used ≡ true
          → real_rs2 c s ≡ reg_file_read (next_registers c s d) s.id_ex_q.rs2_addr)
operands_in_order c s d x r st =
    let o = Reach-InOrder x r in (real_rs1-fresh c s d o st, real_rs2-fresh c s d o st)
