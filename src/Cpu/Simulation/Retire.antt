-- ===== src/Cpu/Simulation/Retire.antt =====
-- One instruction in EX, and the edge that moves it on.
use rv32i_pipeline_fpga.Common.{
  ℕ, ◌≡◌, refl, sym, ap, ap₂, ◌∙◌, Bool, true, false, not, ◌&&◌, ◌==◌, if◌then◌else◌, slice, add32,
  flag, bit_and, Bool-cases, inl, inr, arith,
}
use rv32i_pipeline_fpga.Pkg.{
  InstrName, lui, jalr, decode_instr_name, func3_of, funct7_of, rd_of, rs1_of, rs2_of, pc_pc4,
}
use rv32i_pipeline_fpga.Pkg.Registers.{IfId, IdEx, ExMem}
use rv32i_pipeline_fpga.Datapath.{
  JumpTargets, branch_condition_generator, pc_decoder, alu, two_to_one_mux, four_to_one_mux,
  jump_branch_address_generator, program_counter,
}
use rv32i_pipeline_fpga.Datapath.Masks.{bit_and_clear_low}
use rv32i_pipeline_fpga.Datapath.SignExtension.{
  i_type_lem, s_type_lem, b_type_lem, u_type_lem, j_type_lem,
}
use rv32i_pipeline_fpga.Control.Names.{control_of, IsBase, decoders_agree, known_opcode}
use rv32i_pipeline_fpga.Hazards.{hazard_unit, forwarding_unit}
use rv32i_pipeline_fpga.Memories.{reg_file_read}
use rv32i_pipeline_fpga.Cpu.{
  Config, Cpu, forwarding, stalled, real_rs1, real_rs2, src_a, src_b, alu_result, pc_sel,
  jump_targets, next_pc, hazard, write_data, decode, executed,
}
use rv32i_pipeline_fpga.Cpu.Step.{next_registers}
use rv32i_pipeline_fpga.Cpu.Operands.{InOrder, real_rs1-fresh, real_rs2-fresh}
use rv32i_pipeline_fpga.Cpu.Execute.{
  value_by-control_of, sel_of, sel_by-control_of, unused_rs1, unused_rs2,
}
use rv32i_pipeline_fpga.Isa.{
  value_of, taken, next_pc_of, writes_rd, imm_i, imm_s, imm_u, imm_b, imm_j,
}

-- The decoded record of a base instruction, with the signals and immediates of the ISA.
abbrev pub ideal : InstrName → IfId → ℕ → ℕ → IdEx
ideal n q rs1 rs2 =
    let u = control_of n in
    record {
      pc = q.pc;
      func3 = func3_of q.ir;
      src_a_sel = u.src_a_sel;
      rf_we = u.rf_we;
      mem_we = u.mem_we;
      mem_rden = u.mem_rden;
      branch_i = u.branch_i;
      jal_i = u.jal_i;
      jalr_i = u.jalr_i;
      mem_sign = flag q.ir 14;
      mem_size = slice q.ir 13 12;
      src_b_sel = u.src_b_sel;
      rf_sel = u.rf_sel;
      reg_write_addr = rd_of q.ir;
      alu_fun = u.alu_fun;
      u_type = imm_u q.ir;
      i_type = imm_i q.ir;
      s_type = imm_s q.ir;
      b_type = imm_b q.ir;
      j_type = imm_j q.ir;
      rs1_addr = rs1_of q.ir;
      rs2_addr = rs2_of q.ir;
      rs1 = rs1;
      rs2 = rs2;
      rs1_used = u.rs1_used;
      rs2_used = u.rs2_used;
      trap = u.system_call;
      ebrak = func3_of q.ir == 0b000 && func3_of q.ir == 0b001;
      instruction = q.instruction;
    }

decode-ideal :
    (c : Config) (q : IfId) (rs1 rs2 : ℕ)
    → IsBase q.ir
    → decode c q rs1 rs2 ≡ ideal (decode_instr_name q.ir) q rs1 rs2
unfolding decode
decode-ideal c q rs1 rs2 base =
    rw
      (
        decoders_agree c.x_control q.ir base,
        i_type_lem q.ir,
        s_type_lem q.ir,
        b_type_lem q.ir,
        u_type_lem q.ir,
        j_type_lem q.ir,
      )
      refl

-- The next PC by the select and the targets of a base instruction.
abbrev targets_of : ℕ → ℕ → ℕ → JumpTargets
targets_of pc ir a = record {
  jalr = bit_and (add32 (imm_i ir) a) 0xFFFF_FFFE;
  branch = add32 pc (imm_b ir);
  jal = add32 pc (imm_j ir);
}

pub next_pc_by :
    (x : ℕ) (n : InstrName) (pc ir a b p4 : ℕ)
    → program_counter x false (sel_of n a b) p4 (targets_of pc ir a)
      ≡ (if sel_of n a b == pc_pc4 then p4 else next_pc_of n pc ir a b)
unfolding program_counter next_pc_of taken
next_pc_by x jalr pc ir a b p4 = bit_and_clear_low (add32 (imm_i ir) a) (omega arith) ∙ omega arith
next_pc_by x lui pc ir a b p4 = ground arith
next_pc_by x _ pc ir a b p4 = ground arith

-- Where `PC_SEL` is PC+4, so is the ISA's next PC.
pub next_pc_of_seq :
    (n : InstrName) (pc ir a b : ℕ) → sel_of n a b ≡ pc_pc4 → next_pc_of n pc ir a b ≡ add32 pc 4
unfolding next_pc_of taken
next_pc_of_seq lui pc ir a b h = refl
next_pc_of_seq _ pc ir a b h = ground arith

-- An instruction that is no system call flushes exactly if it does not go on at PC+4.
pub flush_by :
    (n : InstrName) (a b : ℕ)
    → (control_of n).system_call ≡ false
    → let u = control_of n in
      let f = hazard_unit u.branch_i u.jal_i u.jalr_i (sel_of n a b) false u.system_call in
      (f.if_id ≡ not (sel_of n a b == pc_pc4)) × (f.id_ex ≡ not (sel_of n a b == pc_pc4))
unfolding hazard_unit taken
flush_by lui a b h = (refl, refl)
flush_by _ a b h = ground arith

-- Operands that agree where they are used give the same value and the same next PC.
abbrev SameEffect : InstrName → ℕ → ℕ → ℕ → ℕ → ℕ → ℕ → ℕ → Type 0
SameEffect n pc ir a b a' b' v =
    (value_of n pc ir a b v ≡ value_of n pc ir a' b' v)
    × (next_pc_of n pc ir a b ≡ next_pc_of n pc ir a' b')

same_rs1 :
    (n : InstrName) (pc ir a a' b v : ℕ)
    → ((control_of n).rs1_used ≡ true → a ≡ a')
    → SameEffect n pc ir a b a' b v
same_rs1 n pc ir a a' b v h = elim (Bool-cases (control_of n).rs1_used) [
  | inl u ↦ (ap (λ t. value_of n pc ir t b v) (h u), ap (λ t. next_pc_of n pc ir t b) (h u))
  | inr u ↦ unused_rs1 n pc ir a a' b v u
]

same_rs2 :
    (n : InstrName) (pc ir a b b' v : ℕ)
    → ((control_of n).rs2_used ≡ true → b ≡ b')
    → SameEffect n pc ir a b a b' v
same_rs2 n pc ir a b b' v h = elim (Bool-cases (control_of n).rs2_used) [
  | inl u ↦ (ap (λ t. value_of n pc ir a t v) (h u), ap (λ t. next_pc_of n pc ir a t) (h u))
  | inr u ↦ unused_rs2 n pc ir a b b' v u
]

module _ (c : Config) (s : Cpu) (q : IfId) (v1 v2 : ℕ) (base : IsBase q.ir)
    (at_ex : s.id_ex_q ≡ decode c q v1 v2) where
  pub at_ex-ideal : s.id_ex_q ≡ ideal (decode_instr_name q.ir) q v1 v2
  at_ex-ideal = at_ex ∙ decode-ideal c q v1 v2 base

  pub pc_sel_lem : pc_sel c s ≡ sel_of (decode_instr_name q.ir) (real_rs1 c s) (real_rs2 c s)
  unfolding pc_sel decode_instr_name
  pc_sel_lem =
      let f = branch_condition_generator (real_rs1 c s) (real_rs2 c s) in
      ap (λ (r : IdEx). pc_decoder f r.branch_i r.jal_i r.jalr_i r.func3) at_ex-ideal
      ∙ sel_by-control_of (func3_of q.ir) (funct7_of q.ir) (real_rs1 c s) (real_rs2 c s)
          (known_opcode _ _ _ base.known) base.known

  pub next_pc_lem :
      let n = decode_instr_name q.ir in
      let a = real_rs1 c s in
      let b = real_rs2 c s in
      next_pc c s false
      ≡ (if sel_of n a b == pc_pc4 then add32 s.imem.pc_used 4 else next_pc_of n q.pc q.ir a b)
  unfolding next_pc jump_targets jump_branch_address_generator
  next_pc_lem =
      let p4 = add32 s.imem.pc_used 4 in
      let a = real_rs1 c s in
      ap (λ (t : ℕ). program_counter c.x_word false t p4 (jump_targets c s)) pc_sel_lem
      ∙ ap
          (λ (r : IdEx).
            program_counter c.x_word false (sel_of (decode_instr_name q.ir) a (real_rs2 c s)) p4
              (jump_branch_address_generator r.pc r.j_type r.b_type r.i_type a))
          at_ex-ideal
      ∙ next_pc_by c.x_word (decode_instr_name q.ir) q.pc q.ir a (real_rs2 c s) p4

  hazard-ideal :
      stalled s ≡ false
      → let n = decode_instr_name q.ir in
        let u = control_of n in
        hazard c s
        ≡ hazard_unit u.branch_i u.jal_i u.jalr_i
            (sel_of n (real_rs1 c s) (real_rs2 c s))
            false
            u.system_call
  unfolding hazard forwarding forwarding_unit
  hazard-ideal moves =
      let stall = (forwarding s).stall_if_id in
      ap (λ (r : IdEx). hazard_unit r.branch_i r.jal_i r.jalr_i (pc_sel c s) stall r.trap)
        at_ex-ideal
      ∙ ap₂
          (λ (t : ℕ) (f : Bool).
            let u = control_of (decode_instr_name q.ir) in
            hazard_unit u.branch_i u.jal_i u.jalr_i t f u.system_call)
          pc_sel_lem moves

  -- The instruction flushes what is behind it exactly if it does not go on at PC+4.
  pub hazard_lem :
      stalled s ≡ false
      → s.id_ex_q.trap ≡ false
      → let go_on = sel_of (decode_instr_name q.ir) (real_rs1 c s) (real_rs2 c s) == pc_pc4 in
        ((hazard c s).if_id ≡ not go_on) × ((hazard c s).id_ex ≡ not go_on)
  hazard_lem moves quiet = rw (hazard-ideal moves) (
      flush_by (decode_instr_name q.ir) (real_rs1 c s) (real_rs2 c s)
        (sym (ap (λ (r : IdEx). r.trap) at_ex-ideal) ∙ quiet))

  alu_result-ideal :
      let u = control_of (decode_instr_name q.ir) in
      alu_result c s
      ≡ alu
          (two_to_one_mux (real_rs1 c s) (imm_u q.ir) u.src_a_sel)
          (four_to_one_mux c.x_word (real_rs2 c s) (imm_i q.ir) (imm_s q.ir) q.pc u.src_b_sel)
          u.alu_fun
  unfolding alu_result src_a src_b
  alu_result-ideal =
      ap
        (λ (r : IdEx).
          alu (two_to_one_mux (real_rs1 c s) r.u_type r.src_a_sel)
            (four_to_one_mux c.x_word (real_rs2 c s) r.i_type r.s_type r.pc r.src_b_sel) r.alu_fun)
        at_ex-ideal

  -- What MEM will write back of the instruction, `e` being what the bus delivers then.
  pub value_lem :
      (t : Cpu) (d e : ℕ)
      → t.ex_mem_q ≡ executed c s d
      → writes_rd (decode_instr_name q.ir) ≡ true
      → write_data c t e
        ≡ value_of (decode_instr_name q.ir) q.pc q.ir (real_rs1 c s) (real_rs2 c s) e
  unfolding write_data executed
  value_lem t d e m w =
      ap (λ (r : ExMem). four_to_one_mux c.x_word (add32 r.pc 4) c.x_word e r.alu_result r.rf_sel) m
      ∙ ap
          (λ (r : IdEx).
            four_to_one_mux c.x_word (add32 r.pc 4) c.x_word e (alu_result c s) r.rf_sel)
          at_ex-ideal
      ∙ ap
          (λ (v : ℕ).
            four_to_one_mux c.x_word (add32 q.pc 4) c.x_word e v
              (control_of (decode_instr_name q.ir)).rf_sel)
          alu_result-ideal
      ∙ value_by-control_of c.x_word (decode_instr_name q.ir) q.ir q.pc (real_rs1 c s)
          (real_rs2 c s) e w

  -- The operands may be taken from the registers that the ISA reads.
  pub operands_lem :
      (d e : ℕ)
      → InOrder s
      → stalled s ≡ false
      → let n = decode_instr_name q.ir in
        let a = reg_file_read (next_registers c s d) (rs1_of q.ir) in
        let b = reg_file_read (next_registers c s d) (rs2_of q.ir) in
        (value_of n q.pc q.ir (real_rs1 c s) (real_rs2 c s) e ≡ value_of n q.pc q.ir a b e)
        × (next_pc_of n q.pc q.ir (real_rs1 c s) (real_rs2 c s) ≡ next_pc_of n q.pc q.ir a b)
  operands_lem d e o moves =
      let n = decode_instr_name q.ir in
      let file = reg_file_read (next_registers c s d) in
      let rs1_at : s.id_ex_q.rs1_addr ≡ rs1_of q.ir = ap (λ (r : IdEx). r.rs1_addr) at_ex-ideal in
      let rs2_at : s.id_ex_q.rs2_addr ≡ rs2_of q.ir = ap (λ (r : IdEx). r.rs2_addr) at_ex-ideal in
      let first = same_rs1 n q.pc q.ir (real_rs1 c s) (file (rs1_of q.ir)) (real_rs2 c s) e (λ u.
        real_rs1-fresh c s d o moves (ap (λ (r : IdEx). r.rs1_used) at_ex-ideal ∙ u)
        ∙ ap file rs1_at) in
      let second =
        same_rs2 n q.pc q.ir (file (rs1_of q.ir)) (real_rs2 c s) (file (rs2_of q.ir)) e (λ u.
          real_rs2-fresh c s d o moves (ap (λ (r : IdEx). r.rs2_used) at_ex-ideal ∙ u)
          ∙ ap file rs2_at) in
      (first.0 ∙ second.0, first.1 ∙ second.1)
