-- ===== src/Cpu/Simulation/Refine.antt =====
-- Every clock edge of rtl/CPU_TOP.sv is one instruction of the ISA, or none.
use rv32i_pipeline_fpga.Common.{
  ℕ, ◌≡◌, refl, sym, ap, subst, ◌∙◌, true, false, ◌&&◌, ◌==◌, if◌then◌else◌, add32, arith,
}
use rv32i_pipeline_fpga.Pkg.{decode_instr_name, rs1_of, rs2_of}
use rv32i_pipeline_fpga.Pkg.Registers.{IfId, IdEx, if_id_reset, ex_mem_reset}
use rv32i_pipeline_fpga.Hazards.{forwarding_unit}
use rv32i_pipeline_fpga.Memories.{Imem, reg_file_read}
use rv32i_pipeline_fpga.Cpu.{
  Config, Cpu, forwarding, stalled, real_rs1, real_rs2, hazard, write_data, decode, fetched,
  executed,
}
use rv32i_pipeline_fpga.Cpu.Step.{freeze, next_registers, next_ex_mem, step}
use rv32i_pipeline_fpga.Cpu.Operands.{IsInert, reg_file_read-step}
use rv32i_pipeline_fpga.Cpu.Simulation.{
  Occupancy, half, full, imem_at, slot, IsBubble, Tracks, at_empty, at_half, at_full,
}
use rv32i_pipeline_fpga.Cpu.Simulation.Fetch.{
  imem-moves, imem-stalls, if_id-stalls, if_id-moves, id_ex-stalls, id_ex-moves, hazard-bubble,
  next_pc-bubble, decode-IsBubble, held-IsBubble,
}

module _ (c : Config) (s : Cpu) (d : ℕ) where
  abbrev pub after : Cpu
  after = step c s (record { rst = false; data_in = d })

  -- What a read gives once the instruction that this edge moves into MEM has written back.
  pub reads-after :
      (e r : ℕ)
      → let m = next_ex_mem c s (record { rst = false; data_in = d }) in
        reg_file_read (next_registers c after e) r ≡ (
          if r == m.reg_write_addr && m.rf_we
          then (if r == 0 then 0 else write_data c after e)
          else reg_file_read (next_registers c s d) r)
  unfolding next_registers step
  reads-after e r =
      let m = next_ex_mem c s (record { rst = false; data_in = d }) in
      reg_file_read-step _ m.rf_we m.reg_write_addr r (write_data c after e)

  ex_mem-stalls :
      stalled s ≡ true → next_ex_mem c s (record { rst = false; data_in = d }) ≡ ex_mem_reset
  unfolding next_ex_mem forwarding forwarding_unit
  ex_mem-stalls waits = ground arith

  pub ex_mem-moves :
      stalled s ≡ false → next_ex_mem c s (record { rst = false; data_in = d }) ≡ executed c s d
  unfolding next_ex_mem forwarding forwarding_unit
  ex_mem-moves moves = ground arith

  -- A stall, or a bubble that moves on, leaves what the registers read.
  pub reads-stalls :
      (e r : ℕ)
      → stalled s ≡ true
      → reg_file_read (next_registers c after e) r ≡ reg_file_read (next_registers c s d) r
  reads-stalls e r waits = ground (arith, reads-after e r, ex_mem-stalls waits)

  pub reads-bubble :
      (e r : ℕ)
      → stalled s ≡ false
      → IsBubble s.id_ex_q
      → reg_file_read (next_registers c after e) r ≡ reg_file_read (next_registers c s d) r
  unfolding executed
  reads-bubble e r moves b = ground (arith, reads-after e r, ex_mem-moves moves)

  IsBubble-stalls : stalled s ≡ true → IsBubble s.id_ex_q → IsBubble after.id_ex_q
  unfolding step
  IsBubble-stalls waits b = subst IsBubble (sym (id_ex-stalls c s waits)) (held-IsBubble _ _ _ b)

  -- A stall keeps all that the pipe holds in front of MEM.
  pub Tracks-stalls :
      {o : Occupancy} {p : ℕ} → stalled s ≡ true → Tracks c s o p → Tracks c after o p
  unfolding step decode
  Tracks-stalls waits (at_empty o b f m) =
      at_empty o (IsBubble-stalls waits b) (if_id-stalls c s waits ∙ f) (imem-stalls c s waits ∙ m)
  Tracks-stalls waits (at_half o b f m) =
      at_half o (IsBubble-stalls waits b) (if_id-stalls c s waits ∙ f) (imem-stalls c s waits ∙ m)
  Tracks-stalls waits (at_full o v1 v2 q f m) =
      at_full o (real_rs1 c s) (real_rs2 c s)
        (id_ex-stalls c s waits
          ∙ ap (λ (r : IdEx). record r { rs1 = real_rs1 c s; rs2 = real_rs2 c s }) q)
        (if_id-stalls c s waits ∙ f) (imem-stalls c s waits ∙ m)

  module _ (inert : IsInert c.x_control) (moves : stalled s ≡ false) (live : freeze s ≡ false) where
    -- Behind a bubble the pipe fills up by one instruction.
    imem-bubble :
        (p : ℕ) → IsBubble s.id_ex_q → s.imem ≡ imem_at c p → after.imem ≡ imem_at c (add32 p 4)
    unfolding step
    imem-bubble p b m =
        imem-moves c s moves live
        ∙ ap (imem_at c) (next_pc-bubble c s b ∙ ap (λ (t : Imem). add32 t.pc_used 4) m)

    pub if_id-go_on :
        (p : ℕ) → (hazard c s).if_id ≡ false → s.imem ≡ imem_at c p → after.if_id_q ≡ slot c p
    unfolding step fetched
    if_id-go_on p h m =
        if_id-moves c s moves
        ∙ rw h (
            ap
              (λ (t : Imem).
                let q : IfId = record {
                  pc = t.pc_used;
                  ir = t.instruction;
                  instruction = decode_instr_name t.instruction;
                } in
                q)
              m)

    pub id_ex-go_on :
        (q : IfId)
        → (hazard c s).id_ex ≡ false
        → s.if_id_q ≡ q
        → after.id_ex_q
          ≡ decode c q
              (reg_file_read s.registers (rs1_of q.ir))
              (reg_file_read s.registers (rs2_of q.ir))
    unfolding step
    id_ex-go_on q h f =
        id_ex-moves c s moves
        ∙ rw h (
            ap
              (λ (t : IfId).
                decode c t (reg_file_read s.registers (rs1_of t.ir))
                  (reg_file_read s.registers (rs2_of t.ir)))
              f)

    pub Tracks-empty :
        (p : ℕ)
        → IsBubble s.id_ex_q
        → s.if_id_q ≡ if_id_reset
        → s.imem ≡ imem_at c p
        → Tracks c after half p
    Tracks-empty p b f m =
        let h = hazard-bubble c s b in
        at_half refl
          (subst IsBubble (sym (id_ex-go_on if_id_reset h.1 f)) (decode-IsBubble c _ _ inert))
          (if_id-go_on p h.0 m) (imem-bubble p b m)

    pub Tracks-half :
        (p : ℕ)
        → IsBubble s.id_ex_q
        → s.if_id_q ≡ slot c p
        → s.imem ≡ imem_at c (add32 p 4)
        → Tracks c after full p
    Tracks-half p b f m =
        let h = hazard-bubble c s b in
        at_full refl _ _ (id_ex-go_on (slot c p) h.1 f) (if_id-go_on (add32 p 4) h.0 m)
          (imem-bubble (add32 p 4) b m)
