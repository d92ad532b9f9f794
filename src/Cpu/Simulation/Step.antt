-- ===== src/Cpu/Simulation/Step.antt =====
-- The edge at which the instruction in EX moves on, and the refinement of the ISA by an edge.
use rv32i_pipeline_fpga.Common.{
  ℕ, ◌≡◌, refl, sym, ap, subst, ◌∙◌, Bool, true, false, not, ◌&&◌, ◌==◌, ==_iff, if◌then◌else◌,
  add32, arith,
}
use rv32i_pipeline_fpga.Pkg.{decode_instr_name, rd_of, rs1_of, rs2_of, pc_pc4}
use rv32i_pipeline_fpga.Pkg.Registers.{IdEx}
use rv32i_pipeline_fpga.Memories.{Imem, reg_file_read}
use rv32i_pipeline_fpga.Control.Names.{IsBase}
use rv32i_pipeline_fpga.Cpu.{
  Config, Cpu, stalled, real_rs1, real_rs2, next_pc, hazard, decode, executed,
}
use rv32i_pipeline_fpga.Cpu.Step.{freeze, next_registers, step}
use rv32i_pipeline_fpga.Cpu.Operands.{IsInert, InOrder}
use rv32i_pipeline_fpga.Cpu.Execute.{sel_of, control_of-writes_rd}
use rv32i_pipeline_fpga.Cpu.Simulation.{
  empty, full, fetch, imem_at, slot, IsBubble, Tracks, at_empty, at_full,
}
use rv32i_pipeline_fpga.Cpu.Simulation.Fetch.{
  imem-moves, if_id-moves, id_ex-moves, id_ex_reset-IsBubble,
}
use rv32i_pipeline_fpga.Cpu.Simulation.Retire.{
  next_pc_lem, next_pc_of_seq, hazard_lem, value_lem, operands_lem, at_ex-ideal,
}
use rv32i_pipeline_fpga.Cpu.Simulation.Refine.{
  after, reads-after, ex_mem-moves, if_id-go_on, id_ex-go_on,
}
use rv32i_pipeline_fpga.Isa.{next_pc_of, value_of, writes_rd}

module _ (c : Config) (s : Cpu) (p : ℕ) where
  -- The next PC of the instruction at `p` in EX, by the operands that EX computes with, and
  -- whether it is the one of the sequence.
  abbrev pub target : ℕ
  target = next_pc_of (decode_instr_name (fetch c p)) p (fetch c p) (real_rs1 c s) (real_rs2 c s)

  abbrev pub go_on : Bool
  go_on = sel_of (decode_instr_name (fetch c p)) (real_rs1 c s) (real_rs2 c s) == pc_pc4

module _ (c : Config) (s : Cpu) (d : ℕ) (inert : IsInert c.x_control) (order : InOrder s)
    (moves : stalled s ≡ false) (live : freeze s ≡ false) (p v1 v2 : ℕ) (base : IsBase (fetch c p))
    (at_ex : s.id_ex_q ≡ decode c (slot c p) v1 v2) where
  quiet : s.id_ex_q.trap ≡ false
  quiet = ground arith

  pub Tracks-sequential :
      go_on c s p ≡ true
      → s.if_id_q ≡ slot c (add32 p 4)
      → s.imem ≡ imem_at c (add32 (add32 p 4) 4)
      → Tracks c (after c s d) full (target c s p)
  unfolding step
  Tracks-sequential g f m =
      let h = hazard_lem c s (slot c p) v1 v2 base at_ex moves quiet in
      let if_id_low : (hazard c s).if_id ≡ false = h.0 ∙ ap not g in
      let id_ex_low : (hazard c s).id_ex ≡ false = h.1 ∙ ap not g in
      let here : target c s p ≡ add32 p 4 = next_pc_of_seq _ p _ _ _ ((==_iff _ pc_pc4).0 g) in
      let ahead : next_pc c s false ≡ add32 (add32 (add32 p 4) 4) 4 =
        next_pc_lem c s (slot c p) v1 v2 base at_ex
        ∙ rw g (ap (λ (t : Imem). add32 t.pc_used 4) m) in
      subst (Tracks c (after c s d) full) (sym here) (
        at_full refl _ _ (id_ex-go_on c s d inert moves live (slot c (add32 p 4)) id_ex_low f)
          (if_id-go_on c s d inert moves live (add32 (add32 p 4) 4) if_id_low m)
          (imem-moves c s moves live ∙ ap (imem_at c) ahead))

  pub Tracks-redirect : go_on c s p ≡ false → Tracks c (after c s d) empty (target c s p)
  unfolding step
  Tracks-redirect g =
      let h = hazard_lem c s (slot c p) v1 v2 base at_ex moves quiet in
      let if_id_high : (hazard c s).if_id ≡ true = h.0 ∙ ap not g in
      let id_ex_high : (hazard c s).id_ex ≡ true = h.1 ∙ ap not g in
      at_empty refl
        (subst IsBubble (sym (id_ex-moves c s moves ∙ rw id_ex_high refl)) id_ex_reset-IsBubble)
        (if_id-moves c s moves ∙ rw if_id_high refl)
        (imem-moves c s moves live
          ∙ ap (imem_at c) (next_pc_lem c s (slot c p) v1 v2 base at_ex ∙ rw g refl))

  pub reads-retires :
      (e r : ℕ)
      → let n = decode_instr_name (fetch c p) in
        let file = reg_file_read (next_registers c s d) in
        reg_file_read (next_registers c (after c s d) e) r ≡ (
          if r == 0
          then 0
          else if r == rd_of (fetch c p) && writes_rd n
          then value_of n p (fetch c p) (file (rs1_of (fetch c p))) (file (rs2_of (fetch c p))) e
          else file r)
  unfolding executed reg_file_read
  reads-retires e r =
      let n = decode_instr_name (fetch c p) in
      let ideal = at_ex-ideal c s (slot c p) v1 v2 base at_ex in
      let moved = ex_mem-moves c s d moves in
      let into : (after c s d).ex_mem_q ≡ executed c s d = unfold step in moved in
      ground (
        arith,
        reads-after c s d e r,
        moved,
        ap (λ (q : IdEx). q.reg_write_addr) ideal,
        ap (λ (q : IdEx). q.rf_we) ideal,
        control_of-writes_rd n,
        value_lem c s (slot c p) v1 v2 base at_ex (after c s d) d e into,
        operands_lem c s (slot c p) v1 v2 base at_ex d e order moves,
      )
