-- ===== src/Cpu/Invariant.antt =====
-- rtl/CPU_TOP.sv: every clock edge of a running pipeline keeps `InOrder`, and a reset brings it
-- about from any state.
use rv32i_pipeline_fpga.Common.{ℕ, ◌≡◌, inl, inr, true, false, ◌||◌, arith, Bool-cases}
use rv32i_pipeline_fpga.Pkg.{rs1_of, rs2_of, wb_alu}
use rv32i_pipeline_fpga.Pkg.Registers.{IfId, IdEx, id_ex_reset}
use rv32i_pipeline_fpga.Control.{control_unit_decoder}
use rv32i_pipeline_fpga.Hazards.{forwarding_unit, hazard_unit}
use rv32i_pipeline_fpga.Memories.{reg_file_read}
use rv32i_pipeline_fpga.Cpu.{
  writers, Config, Cpu, forwarding, stalled, real_rs1, real_rs2, hazard, write_data, decode,
  executed, completed,
}
use rv32i_pipeline_fpga.Cpu.Step.{next_registers, next_id_ex, next_ex_mem, next_mem_wb, step}
use rv32i_pipeline_fpga.Cpu.Operands.{
  IsInert, InOrder, IsRunning, WritesAlu, latest, reg_file_read-step, forwarded, real_rs1-mux,
  real_rs2-mux,
}

module _ (c : Config) (inert : IsInert c.x_control) where
  decode-WritesAlu : (q : IfId) (a b : ℕ) → WritesAlu (decode c q a b)
  unfolding decode control_unit_decoder
  decode-WritesAlu q a b = ground arith

  -- The three things that an edge without reset does to ID/EX.
  data IdExCase (s : Cpu) (q : IdEx) : Type 0 where
    flushed : (hazard c s).id_ex ≡ true → stalled s ≡ false → q ≡ id_ex_reset → IdExCase s q
    held :
        stalled s ≡ true
        → q ≡ record s.id_ex_q { rs1 = real_rs1 c s; rs2 = real_rs2 c s }
        → IdExCase s q
    decoded :
        stalled s ≡ false
        → (hazard c s).id_ex ≡ false
        → q
          ≡ decode c s.if_id_q
              (reg_file_read s.registers (rs1_of s.if_id_q.ir))
              (reg_file_read s.registers (rs2_of s.if_id_q.ir))
        → IdExCase s q

  hazard_of_stalled : (s : Cpu) → stalled s ≡ true → (hazard c s).id_ex ≡ false
  unfolding hazard hazard_unit forwarding forwarding_unit
  hazard_of_stalled s h = ground arith

  id_ex-cases : (s : Cpu) → IdExCase s (next_id_ex c s false)
  unfolding next_id_ex
  id_ex-cases s = elim (Bool-cases (stalled s)) [
    | inl p ↦ held p (rw (hazard_of_stalled s p, p))
    | inr p ↦ elim (Bool-cases (hazard c s).id_ex) [
      | inl f ↦ flushed f p (rw f)
      | inr f ↦ decoded p f (rw (f, p))
    ]
  ]

  -- What was read of the register file is made the latest by the write that follows it.
  latest-step :
      (s : Cpu) (d a : ℕ)
      → IsRunning s
      → latest
          (next_mem_wb c s (record { rst = false; data_in = d }))
          a
          (reg_file_read s.registers a)
        ≡ reg_file_read (next_registers c s d) a
  unfolding next_mem_wb completed next_registers
  latest-step s d a r = ground (
    arith,
    reg_file_read-step s.registers s.ex_mem_q.rf_we s.ex_mem_q.reg_write_addr a (write_data c s d),
  )

  real_rs1-held :
      (s : Cpu)
      → InOrder s
      → stalled s ≡ true
      → s.id_ex_q.rs1_used ≡ true
      → real_rs1 c s ≡ reg_file_read s.registers s.id_ex_q.rs1_addr
  unfolding forwarding forwarding_unit
  real_rs1-held s o st used = ground (
    arith,
    real_rs1-mux c s,
    forwarded c.x_word s.id_ex_q.rs1 s.ex_mem_q.alu_result s.mem_wb_q.reg_write_data
        s.id_ex_q.rs1_addr s.id_ex_q.rs1_used (writers s) used,
    o.rs1_fresh,
  )

  real_rs2-held :
      (s : Cpu)
      → InOrder s
      → stalled s ≡ true
      → s.id_ex_q.rs2_used ≡ true
      → real_rs2 c s ≡ reg_file_read s.registers s.id_ex_q.rs2_addr
  unfolding forwarding forwarding_unit
  real_rs2-held s o st used = ground (
    arith,
    real_rs2-mux c s,
    forwarded c.x_word s.id_ex_q.rs2 s.ex_mem_q.alu_result s.mem_wb_q.reg_write_data
        s.id_ex_q.rs2_addr s.id_ex_q.rs2_used (writers s) used,
    o.rs2_fresh,
  )

  -- `InOrder` of the next state, for each of the three things that ID/EX can hold.
  module _ (s : Cpu) (d : ℕ) (o : InOrder s) (r : IsRunning s) where
    rs1-step :
        (q : IdEx)
        → IdExCase s q
        → q.rs1_used ≡ true
        → latest (next_mem_wb c s (record { rst = false; data_in = d })) q.rs1_addr q.rs1
          ≡ reg_file_read (next_registers c s d) q.rs1_addr
    rs1-step q (flushed f p e) used = ground arith
    rs1-step q (held p e) used =
        ground (arith, real_rs1-held s o p, latest-step s d s.id_ex_q.rs1_addr r)
    rs1-step q (decoded p f e) used =
        rw e (unfold decode in latest-step s d (rs1_of s.if_id_q.ir) r)

    rs2-step :
        (q : IdEx)
        → IdExCase s q
        → q.rs2_used ≡ true
        → latest (next_mem_wb c s (record { rst = false; data_in = d })) q.rs2_addr q.rs2
          ≡ reg_file_read (next_registers c s d) q.rs2_addr
    rs2-step q (flushed f p e) used = ground arith
    rs2-step q (held p e) used =
        ground (arith, real_rs2-held s o p, latest-step s d s.id_ex_q.rs2_addr r)
    rs2-step q (decoded p f e) used =
        rw e (unfold decode in latest-step s d (rs2_of s.if_id_q.ir) r)

    WritesAlu-step : (q : IdEx) → IdExCase s q → WritesAlu q
    WritesAlu-step q (flushed f p e) = ground arith
    WritesAlu-step q (held p e) = ground (arith, o.writes_alu)
    WritesAlu-step q (decoded p f e) = rw e (decode-WritesAlu s.if_id_q _ _)

    alu_writer-step :
        (q : IdEx)
        → IdExCase s q
        → let m = next_ex_mem c s (record { rst = false; data_in = d }) in
          (q.rs1_used || q.rs2_used) ≡ true
          → m.rf_we ≡ true
          → m.mem_rden ≡ false
          → m.rf_sel ≡ wb_alu
    unfolding next_ex_mem executed hazard hazard_unit forwarding forwarding_unit
    alu_writer-step q (flushed f p e) u w l = ground arith
    alu_writer-step q (held p e) u w l = ground arith
    alu_writer-step q (decoded p f e) u w l = ground (arith, o.writes_alu)

  pub step-InOrder :
      (s : Cpu) (d : ℕ)
      → InOrder s
      → IsRunning s
      → InOrder (step c s (record { rst = false; data_in = d }))
  unfolding step
  step-InOrder s d o r = record {
    rs1_fresh = rs1-step s d o r _ (id_ex-cases s);
    rs2_fresh = rs2-step s d o r _ (id_ex-cases s);
    alu_writer = alu_writer-step s d o r _ (id_ex-cases s);
    writes_alu = WritesAlu-step s d o r _ (id_ex-cases s);
  }

  pub reset-InOrder : (s : Cpu) (d : ℕ) → InOrder (step c s (record { rst = true; data_in = d }))
  unfolding step next_id_ex
  reset-InOrder s d = record {
    rs1_fresh = λ u. cc;
    rs2_fresh = λ u. cc;
    alu_writer = λ u. cc;
    writes_alu = λ u. cc;
  }
