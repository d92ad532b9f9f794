-- ===== src/Cpu/Execute.antt =====
-- The execute stage of rtl/CPU_TOP.sv against the ISA, one instruction at a time: the value that
-- it hands on and the next PC that it chooses, from the signals of the instruction's name.
use mathlib.Core.Path.{subst}
use rv32i_pipeline_fpga.Common.{
  ℕ, ◌%◌, ◌≡◌, ◌≢◌, refl, sym, ap, ◌∙◌, flag, true, false, slice, add32, if◌then◌else◌, arith,
}
use rv32i_pipeline_fpga.Pkg.{
  InstrName, lui, jal, jalr, slli, srli, srai, sll, srl, sra, unknown, name_of_fields, pc_pc4,
  pc_jalr, pc_branch, pc_jal, rs2_of, opcode_of, func3_of, funct7_of, decode_instr_name,
}
use rv32i_pipeline_fpga.Datapath.{
  four_to_one_mux, two_to_one_mux, alu, branch_condition_generator, branch_pc_sel, pc_decoder,
}
use rv32i_pipeline_fpga.Datapath.Shifts.{shift_right_signed_lem}
use rv32i_pipeline_fpga.Control.{Control, control_unit_decoder}
use rv32i_pipeline_fpga.Control.Names.{
  control_of, KnownOpcode, known_opcode, IsBase, decoders_agree, is_fence, is_lui, is_auipc, is_jal,
  is_jalr, is_load, is_op_imm, is_op, is_store, is_branch, is_system,
}
use rv32i_pipeline_fpga.Isa.{value_of, writes_rd, taken, next_pc_of, imm_i, imm_s, imm_u}

-- The value that an instruction with the signals `u` writes back, `v` being the load's.
abbrev pub value_by : ℕ → Control → ℕ → ℕ → ℕ → ℕ → ℕ → ℕ
value_by x u ir pc a b v =
    four_to_one_mux x (add32 pc 4) x v
      (alu (two_to_one_mux a (imm_u ir) u.src_a_sel)
        (four_to_one_mux x b (imm_i ir) (imm_s ir) pc u.src_b_sel) u.alu_fun)
      u.rf_sel

-- A shift by an immediate takes its amount from the rs2 field.
imm_i-amount : (ir : ℕ) → slice (imm_i ir) 4 0 ≡ rs2_of ir
imm_i-amount ir = ground arith

amount : (b : ℕ) → slice b 4 0 ≡ b % 32
amount b = omega arith

-- For each instruction that writes rd, the ALU and the multiplexers around it, set by the signals
-- of the instruction's name, give the value that the ISA writes, at any operands, PC and load data.
pub value_by-control_of :
    (x : ℕ) (n : InstrName) (ir pc a b v : ℕ)
    → writes_rd n ≡ true
    → value_by x (control_of n) ir pc a b v ≡ value_of n pc ir a b v
unfolding writes_rd value_of four_to_one_mux two_to_one_mux alu
value_by-control_of x slli ir pc a b v w = rw (imm_i-amount ir) refl
value_by-control_of x srli ir pc a b v w = rw (imm_i-amount ir) refl
value_by-control_of x srai ir pc a b v w =
    rw (imm_i-amount ir) (shift_right_signed_lem a (rs2_of ir) (omega arith))
value_by-control_of x sra ir pc a b v w =
    rw (amount b) (shift_right_signed_lem a (b % 32) (omega arith))
value_by-control_of x srl ir pc a b v w = rw (amount b) refl
value_by-control_of x sll ir pc a b v w = rw (amount b) refl
value_by-control_of x unknown ir pc a b v w = cc
value_by-control_of x _ ir pc a b v w = ground arith

-- The select that the ISA asks of the PC multiplexer.
abbrev pub sel_of : InstrName → ℕ → ℕ → ℕ
sel_of jal a b = pc_jal
sel_of jalr a b = pc_jalr
sel_of n a b = if taken n a b then pc_branch else pc_pc4

-- `PC_SEL` by the signals `u`.
abbrev pub sel_by : Control → ℕ → ℕ → ℕ → ℕ
sel_by u f3 a b = pc_decoder (branch_condition_generator a b) u.branch_i u.jal_i u.jalr_i f3

module _ (f3 f7 a b : ℕ) where
  abbrev SelAgrees : ℕ → Type 0
  SelAgrees op =
      let n = name_of_fields op f3 f7 in n ≢ unknown → sel_by (control_of n) f3 a b ≡ sel_of n a b

  sel_load : SelAgrees 0x03
  unfolding name_of_fields pc_decoder taken
  sel_load k = ground arith

  sel_op_imm : SelAgrees 0x13
  unfolding name_of_fields pc_decoder taken
  sel_op_imm k = ground arith

  sel_op : SelAgrees 0x33
  unfolding name_of_fields pc_decoder taken
  sel_op k = ground arith

  sel_store : SelAgrees 0x23
  unfolding name_of_fields pc_decoder taken
  sel_store k = ground arith

  sel_branch : SelAgrees 0x63
  unfolding name_of_fields pc_decoder branch_pc_sel branch_condition_generator taken
  sel_branch k = ground arith

  sel_system : SelAgrees 0x73
  unfolding name_of_fields pc_decoder taken
  sel_system k = ground arith

  -- For every named word `PC_SEL` is the ISA's choice.
  pub sel_by-control_of : {op : ℕ} → KnownOpcode op → SelAgrees op
  unfolding name_of_fields pc_decoder taken
  sel_by-control_of (is_fence e) = subst SelAgrees (sym e) (λ k. refl)
  sel_by-control_of (is_lui e) = subst SelAgrees (sym e) (λ k. refl)
  sel_by-control_of (is_auipc e) = subst SelAgrees (sym e) (λ k. refl)
  sel_by-control_of (is_jal e) = subst SelAgrees (sym e) (λ k. refl)
  sel_by-control_of (is_jalr e) = subst SelAgrees (sym e) (λ k. refl)
  sel_by-control_of (is_load e) = subst SelAgrees (sym e) sel_load
  sel_by-control_of (is_op_imm e) = subst SelAgrees (sym e) sel_op_imm
  sel_by-control_of (is_op e) = subst SelAgrees (sym e) sel_op
  sel_by-control_of (is_store e) = subst SelAgrees (sym e) sel_store
  sel_by-control_of (is_branch e) = subst SelAgrees (sym e) sel_branch
  sel_by-control_of (is_system e) = subst SelAgrees (sym e) sel_system

-- For every word of the base set and any operands, the branch conditions and the PC decoder, fed by
-- the control unit, choose what the ISA chooses: the target of a jump, the target of a branch
-- exactly if it is taken, and PC+4 otherwise; the 'X outputs do not matter.
pub pc_decoder_lem :
    (x : Control) (ir a b : ℕ)
    → IsBase ir
    → sel_by (control_unit_decoder x (opcode_of ir) (func3_of ir) (flag ir 30)) (func3_of ir) a b
      ≡ sel_of (decode_instr_name ir) a b
unfolding decode_instr_name
pc_decoder_lem x ir a b base =
    ap (λ (u : Control). sel_by u (func3_of ir) a b) (decoders_agree x ir base)
    ∙ sel_by-control_of (func3_of ir) (funct7_of ir) a b (known_opcode _ _ _ base.known) base.known

-- An operand that an instruction does not use changes neither its value nor its next PC.
pub unused_rs1 :
    (n : InstrName) (pc ir a a' b v : ℕ)
    → (control_of n).rs1_used ≡ false
    → (value_of n pc ir a b v ≡ value_of n pc ir a' b v)
      × (next_pc_of n pc ir a b ≡ next_pc_of n pc ir a' b)
unfolding value_of next_pc_of taken
unused_rs1 lui pc ir a a' b v u = (refl, refl)
unused_rs1 _ pc ir a a' b v u = ground arith

pub unused_rs2 :
    (n : InstrName) (pc ir a b b' v : ℕ)
    → (control_of n).rs2_used ≡ false
    → (value_of n pc ir a b v ≡ value_of n pc ir a b' v)
      × (next_pc_of n pc ir a b ≡ next_pc_of n pc ir a b')
unfolding value_of next_pc_of taken
unused_rs2 lui pc ir a b b' v u = (refl, refl)
unused_rs2 _ pc ir a b b' v u = ground arith

-- The signals of a name write rd exactly if the ISA does.
pub control_of-writes_rd : (n : InstrName) → (control_of n).rf_we ≡ writes_rd n
unfolding writes_rd
control_of-writes_rd lui = refl
control_of-writes_rd _ = refl
