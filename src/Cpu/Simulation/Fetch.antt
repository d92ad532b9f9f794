-- ===== src/Cpu/Simulation/Fetch.antt =====
-- What an edge does to the front of the pipe: IMEM's registers, IF/ID and ID/EX, when EX stalls,
-- when it holds a bubble, and when it moves on.
use rv32i_pipeline_fpga.Common.{ℕ, ◌≡◌, refl, true, false, if◌then◌else◌, add32, arith}
use rv32i_pipeline_fpga.Pkg.{rs1_of, rs2_of}
use rv32i_pipeline_fpga.Pkg.Registers.{IdEx, if_id_reset, id_ex_reset}
use rv32i_pipeline_fpga.Datapath.{pc_decoder, program_counter}
use rv32i_pipeline_fpga.Control.{control_unit_decoder}
use rv32i_pipeline_fpga.Hazards.{hazard_unit, forwarding_unit}
use rv32i_pipeline_fpga.Memories.{imem_step, reg_file_read}
use rv32i_pipeline_fpga.Cpu.{
  Config, Cpu, forwarding, stalled, real_rs1, real_rs2, pc_sel, next_pc, hazard, decode, fetched,
}
use rv32i_pipeline_fpga.Cpu.Step.{freeze, next_imem, next_if_id, next_id_ex}
use rv32i_pipeline_fpga.Cpu.Operands.{IsInert}
use rv32i_pipeline_fpga.Cpu.Simulation.{IsBubble, imem_at}

module _ (c : Config) (s : Cpu) where
  pub imem-moves :
      stalled s ≡ false → freeze s ≡ false → next_imem c s false ≡ imem_at c (next_pc c s false)
  unfolding next_imem imem_step forwarding forwarding_unit
  imem-moves moves live = ground arith

  pub imem-stalls : stalled s ≡ true → next_imem c s false ≡ s.imem
  unfolding next_imem imem_step forwarding forwarding_unit
  imem-stalls waits = ground arith

  pub hazard-stalls : stalled s ≡ true → (hazard c s).if_id ≡ false
  unfolding hazard hazard_unit forwarding forwarding_unit
  hazard-stalls waits = ground arith

  pub if_id-stalls : stalled s ≡ true → next_if_id c s false ≡ s.if_id_q
  unfolding next_if_id hazard hazard_unit forwarding forwarding_unit
  if_id-stalls waits = ground arith

  pub if_id-moves :
      stalled s ≡ false
      → next_if_id c s false ≡ (if (hazard c s).if_id then if_id_reset else fetched c s)
  unfolding next_if_id forwarding forwarding_unit
  if_id-moves moves = ground arith

  pub id_ex-stalls :
      stalled s ≡ true
      → next_id_ex c s false ≡ record s.id_ex_q { rs1 = real_rs1 c s; rs2 = real_rs2 c s }
  unfolding next_id_ex hazard hazard_unit forwarding forwarding_unit
  id_ex-stalls waits = ground arith

  pub id_ex-moves :
      stalled s ≡ false
      → next_id_ex c s false ≡ (
          if (hazard c s).id_ex
          then id_ex_reset
          else decode c s.if_id_q
              (reg_file_read s.registers (rs1_of s.if_id_q.ir))
              (reg_file_read s.registers (rs2_of s.if_id_q.ir)))
  unfolding next_id_ex
  id_ex-moves moves = rw moves refl

  -- A bubble goes on at PC+4 and flushes nothing.
  pub hazard-bubble :
      IsBubble s.id_ex_q → ((hazard c s).if_id ≡ false) × ((hazard c s).id_ex ≡ false)
  unfolding hazard hazard_unit
  hazard-bubble b = ground arith

  pc_sel-bubble : IsBubble s.id_ex_q → pc_sel c s ≡ 0
  unfolding pc_sel pc_decoder
  pc_sel-bubble b = ground arith

  pub next_pc-bubble : IsBubble s.id_ex_q → next_pc c s false ≡ add32 s.imem.pc_used 4
  unfolding next_pc program_counter
  next_pc-bubble b = rw (pc_sel-bubble b) refl

-- ID/EX after a flush of IF/ID or of itself holds a bubble.
pub id_ex_reset-IsBubble : IsBubble id_ex_reset
id_ex_reset-IsBubble = ground arith

pub decode-IsBubble :
    (c : Config) (a b : ℕ) → IsInert c.x_control → IsBubble (decode c if_id_reset a b)
unfolding decode control_unit_decoder
decode-IsBubble c a b x = ground arith

pub held-IsBubble : (q : IdEx) (a b : ℕ) → IsBubble q → IsBubble (record q { rs1 = a; rs2 = b })
held-IsBubble q a b h = ground arith
